-- ===== src/Push/Manager.antt =====
-- push_server/src/server_manager.cpp: which connection servers a push server connects to, and at which
-- of their addresses. `atoi` and the network are parameters; `none` is a read past the end of a
-- vector. The JSON that a status carries along is left out.
pub mod Address
pub mod Listed
pub mod Choice
mod Tests
use gpush.Prelude.{
  ℕ, List, [], ◌∷◌, ◌++◌, Option, none, some, Bool, true, false, not, ◌&&◌, ◌||◌, if◌then◌else◌,
  ◌==◌,
}
use gpush.Prelude.Int32.{negative, minus, less}
use gpush.Base.LoopBuf.{is_empty}
use gpush.Common.SessCache.{same_bytes}
use gpush.Net.Client.{Client, idle, no_event, connect_to}
use gpush.Net.EventLoop.{ConnectionMap, get_connection}

pub record PortConfig : Type 0 where
  pub port : ℕ
  pub max_type : ℕ
  pub min_type : ℕ

pub record ServerStatus : Type 0 where
  pub id : ℕ
  pub ips : List (List ℕ)
  pub ports : List PortConfig

-- The ports of a server that take connections of a type.
unfoldable pub admits : ℕ → PortConfig → Bool
admits type p = not (less type p.min_type) && less type p.max_type

unfoldable pub admitted : ℕ → List PortConfig → List PortConfig
unfolding admits
admitted type [] = []
admitted type (p ∷ ps) = let rest = admitted type ps in if admits type p then p ∷ rest else rest

-- Assignment in a map, in the order of its keys.
unfoldable pub assign : ℕ → ServerStatus → ConnectionMap ServerStatus → ConnectionMap ServerStatus
assign id s [] = (id, s) ∷ []
assign id s ((k, t) ∷ m) =
    let rest = assign id s m in
    if k == id then (id, s) ∷ m else if less id k then (id, s) ∷ (k, t) ∷ m else (k, t) ∷ rest

-- The first of two maps if there is a port, and otherwise the second.
unfoldable pub when_any :
    List PortConfig
    → ConnectionMap ServerStatus
    → ConnectionMap ServerStatus
    → ConnectionMap ServerStatus
when_any [] kept skipped = skipped
when_any (p ∷ ps) kept skipped = kept

-- The loop of `onSvListChange`, from the map that it has filled so far.
unfoldable pub filter_servers :
    (List ℕ → ℕ)
    → ℕ
    → List (List ℕ × ServerStatus)
    → ConnectionMap ServerStatus
    → ConnectionMap ServerStatus
unfolding admitted assign when_any
filter_servers atoi type [] m = m
filter_servers atoi type ((key, s) ∷ notify) m =
    let s1 : ServerStatus = record s { ports = admitted type s.ports } in
    let skipped = filter_servers atoi type notify m in
    let kept = filter_servers atoi type notify (assign (atoi key) s1 m) in
    when_any s1.ports kept skipped

-- What `onSvListChange` gives to the event loops.
unfoldable pub on_sv_list_change :
    (List ℕ → ℕ) → ℕ → List (List ℕ × ServerStatus) → ConnectionMap ServerStatus
unfolding filter_servers
on_sv_list_change atoi type notify = filter_servers atoi type notify []

-- The first part that `split` finds in an address: what stands between dots.
unfoldable pub until_dot : List ℕ → List ℕ
until_dot [] = []
until_dot (c ∷ cs) = let rest = until_dot cs in if c == b'.' then [] else c ∷ rest

unfoldable pub first_part : List ℕ → Option (List ℕ)
unfolding until_dot
first_part [] = none
first_part (c ∷ cs) =
    let rest = first_part cs in if c == b'.' then rest else some (until_dot (c ∷ cs))

unfoldable pub is_local_ip : List ℕ → Option Bool
unfolding first_part
is_local_ip ip = elim (first_part ip) [
  | none ↦ none
  | some part ↦ some (
      same_bytes part (b'1' ∷ b'0' ∷ [])
      || same_bytes part (b'1' ∷ b'7' ∷ b'2' ∷ [])
      || same_bytes part (b'1' ∷ b'9' ∷ b'2' ∷ []))
]

-- The local addresses and the public ones.
unfoldable pub sort_ips : List (List ℕ) → Option (List (List ℕ) × List (List ℕ))
unfolding is_local_ip
sort_ips [] = some ([], [])
sort_ips (ip ∷ ips) = elim (is_local_ip ip) [
  | none ↦ none
  | some is_local ↦ elim (sort_ips ips) [
    | none ↦ none
    | some (local, public) ↦ some (if is_local then (ip ∷ local, public) else (local, ip ∷ public))
  ]
]

module _ (connects : List ℕ → ℕ → Bool) where
  unfoldable pub connect_ip_array : Client ℕ → List (List ℕ) → ℕ → Client ℕ × ℕ
  connect_ip_array c [] port = (c, minus 1)
  connect_ip_array c (ip ∷ ips) port =
      let (c', ret) = connect_to (connects ip port) (ip, port) c in
      let rest = connect_ip_array c' ips port in if negative ret then rest else (c', ret)

  -- The client that is added to the event loop; `part` is its server's id.
  unfoldable pub connect_server : ℕ → ServerStatus → Option (Client ℕ)
  unfolding connect_ip_array sort_ips
  connect_server keep_alive_ms s =
      let c : Client ℕ = record {
        status = idle;
        fd = false;
        noti = no_event;
        addr = ([], 0);
        reconnect_span = 0;
        keep_alive_span = keep_alive_ms;
        started = [];
        part = s.id;
      } in
      elim s.ports [
        | [] ↦ none
        | p ∷ ps ↦ elim (sort_ips s.ips) [
          | none ↦ none
          | some (local, public) ↦
              let (c', ret) = connect_ip_array c local p.port in
              some (if negative ret then (connect_ip_array c' public p.port).0 else c')
        ]
      ]

  -- `checkServers` when `loadData` has read a new map: the clients that it adds.
  unfoldable pub check_servers :
      ℕ → ConnectionMap ℕ → ConnectionMap ServerStatus → Option (List (Client ℕ))
  unfolding connect_server
  check_servers keep_alive_ms svcons [] = some []
  check_servers keep_alive_ms svcons ((id, s) ∷ smap) =
      let rest = check_servers keep_alive_ms svcons smap in
      elim (get_connection id svcons) [
        | some p ↦ rest
        | none ↦ elim (connect_server keep_alive_ms s) [
          | none ↦ none
          | some c ↦ elim rest [ none ↦ none | some cs ↦ some (c ∷ cs) ]
        ]
      ]
