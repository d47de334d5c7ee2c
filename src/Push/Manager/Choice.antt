-- ===== src/Push/Manager/Choice.antt =====
-- Which servers and addresses are chosen.
use gpush.Prelude.{
  ℕ, ◌^◌, ◌<◌, ◌≡◌, refl, inl, inr, List, [], ◌∷◌, map, none, some, Bool, true, ◌==◌, Bool-cases,
  Option-cases, All,
}
use gpush.Prelude.Int32.{less}
use gpush.Net.Client.{Client}
use gpush.Net.EventLoop.{ConnectionMap, get_connection}
use gpush.Push.Manager.{
  PortConfig, ServerStatus, admits, admitted, assign, when_any, filter_servers, on_sv_list_change,
  is_local_ip, check_servers,
}
use gpush.Push.Manager.Listed.{Ascending, last_listed, on_sv_list_change-last_listed}
use gpush.Push.Manager.Address.{sort_ips_total, connect_server-Towards}

-- A server with a port, whose ports take the type, and with addresses that have a first part.
pub record Offers (type : ℕ) (s : ServerStatus) : Type 0 where
  pub first : PortConfig
  pub others : List PortConfig
  pub ports : s.ports ≡ first ∷ others
  pub admit : All (λ p. admits type p ≡ true) s.ports

abbrev pub HasParts : ServerStatus → Type 0
HasParts s = All (λ ip. (b : Bool) × (is_local_ip ip ≡ some b)) s.ips

admitted-admits :
    (type : ℕ) (ps : List PortConfig) → All (λ p. admits type p ≡ true) (admitted type ps)
unfolding admitted
admitted-admits type [] = tt
admitted-admits type (p ∷ ps) = elim (Bool-cases (admits type p)) [
  | inl takes ↦ rw (takes, admitted) (takes, admitted-admits type ps)
  | inr other ↦ rw (other, admitted) (admitted-admits type ps)
]

module _ (P : ServerStatus → Type 0) where
  abbrev pub AllServers : ConnectionMap ServerStatus → Type 0
  AllServers = All (λ (e : ℕ × ServerStatus). P e.1)

  assign-AllServers :
      (id : ℕ) (s : ServerStatus) (m : ConnectionMap ServerStatus)
      → P s
      → AllServers m
      → AllServers (assign id s m)
  unfolding assign
  assign-AllServers id s [] h k = (h, tt)
  assign-AllServers id s ((j, t) ∷ m) h k = elim (Bool-cases (j == id)) [
    | inl same ↦ rw (same, assign) (h, k.1)
    | inr other ↦ elim (Bool-cases (less id j)) [
      | inl before ↦ rw (other, assign) (rw (before, assign) (h, k))
      | inr after ↦ rw (other, assign) (rw (after, assign) (k.0, assign-AllServers id s m h k.1))
    ]
  ]

-- What is published of a server.
abbrev Published : ℕ → ServerStatus → Type 0
Published type s = Offers type s × HasParts s

when_any-AllServers :
    (P : ServerStatus → Type 0) (ps : List PortConfig) (kept skipped : ConnectionMap ServerStatus)
    → ((p : PortConfig) (qs : List PortConfig) → ps ≡ p ∷ qs → AllServers P kept)
    → AllServers P skipped
    → AllServers P (when_any ps kept skipped)
unfolding when_any
when_any-AllServers P [] kept skipped f k = k
when_any-AllServers P (p ∷ ps) kept skipped f k = f p ps refl

filter_servers-Published :
    (atoi : List ℕ → ℕ) (type : ℕ) (notify : List (List ℕ × ServerStatus))
    (m : ConnectionMap ServerStatus)
    → All (λ (e : List ℕ × ServerStatus). HasParts e.1) notify
    → AllServers (Published type) m
    → AllServers (Published type) (filter_servers atoi type notify m)
unfolding filter_servers
filter_servers-Published atoi type [] m h k = k
filter_servers-Published atoi type ((key, s) ∷ notify) m h k =
    let s1 : ServerStatus = record s { ports = admitted type s.ports } in
    when_any-AllServers (Published type) s1.ports _ _
      (λ p qs e. filter_servers-Published atoi type notify (assign (atoi key) s1 m) h.1 (
        assign-AllServers (Published type) (atoi key) s1 m
          (record { first = p; others = qs; ports = e; admit = admitted-admits type s.ports }, h.0)
          k))
      (filter_servers-Published atoi type notify m h.1 k)

-- The servers of a map that have no connection yet.
unfoldable pub wanted : ConnectionMap ℕ → ConnectionMap ServerStatus → List ℕ
wanted svcons [] = []
wanted svcons ((id, s) ∷ smap) =
    let rest = wanted svcons smap in
    elim (get_connection id svcons) [ some p ↦ rest | none ↦ s.id ∷ rest ]

cons_eq : {x y : ℕ} → {xs ys : List ℕ} → x ≡ y → xs ≡ ys → x ∷ xs ≡ y ∷ ys
cons_eq p q = cc (p, q)

Published-Offers :
    (type : ℕ) (m : ConnectionMap ServerStatus)
    → AllServers (Published type) m
    → AllServers (Offers type) m
Published-Offers type [] h = tt
Published-Offers type (e ∷ m) h = (h.0.0, Published-Offers type m h.1)

module _ (connects : List ℕ → ℕ → Bool) (ms : ℕ) (svcons : ConnectionMap ℕ) where
  check-wanted :
      (type : ℕ) (smap : ConnectionMap ServerStatus)
      → AllServers (Published type) smap
      → (cs : List (Client ℕ)) × (check_servers connects ms svcons smap ≡ some cs)
        × (map (λ (c : Client ℕ). c.part) cs ≡ wanted svcons smap)
  unfolding check_servers wanted
  check-wanted type [] h = ([], refl, refl)
  check-wanted type ((id, s) ∷ smap) ((offers, parts), h) =
      let (cs, e, ids) = check-wanted type smap h in
      let (local, public, sorted) = sort_ips_total s.ips parts in
      let (c, made, to, part) =
        connect_server-Towards connects ms s offers.first offers.others local public offers.ports
          sorted in
      elim (Option-cases (get_connection id svcons)) [
        | inl missing ↦ (
          c ∷ cs,
          rw (missing, check_servers) (rw (made, check_servers) (rw (e, check_servers) refl)),
          rw (missing, wanted) (cons_eq part ids),
        )
        | inr (p, found) ↦ (cs, rw (found, check_servers) e, rw (found, wanted) ids)
      ]

  -- Of the servers that ZooKeeper lists, if their addresses have a first part and the keys are an
  -- int32 each: onSvListChange publishes them in the order of their keys, under each key the last one
  -- listed that has a port for the push server's type, with those ports alone. Of these, each that has
  -- no connection yet gets one client of its id, in the same order, and the others get none; no vector
  -- is read past its end.
  pub check_servers-wanted :
      (atoi : List ℕ → ℕ) (type : ℕ) (notify : List (List ℕ × ServerStatus))
      → All (λ (e : List ℕ × ServerStatus). HasParts e.1) notify
      → ((key : List ℕ) → atoi key < 2 ^ 32)
      → let smap = on_sv_list_change atoi type notify in
        (cs : List (Client ℕ)) × (check_servers connects ms svcons smap ≡ some cs)
        × (map (λ (c : Client ℕ). c.part) cs ≡ wanted svcons smap)
        × Ascending smap
        × ((id : ℕ) → get_connection id smap ≡ last_listed atoi type id notify none)
        × AllServers (Offers type) smap
  unfolding on_sv_list_change
  check_servers-wanted atoi type notify h int =
      let published = filter_servers-Published atoi type notify [] h tt in
      let (cs, made, ids) = check-wanted type (on_sv_list_change atoi type notify) published in
      let (order, found) = on_sv_list_change-last_listed atoi type notify int in
      (cs, made, ids, order, found, Published-Offers type _ published)
