-- ===== src/Push/Manager/Tests.antt =====
-- A server with a local and a public address, of which only the public one can be connected to.
use gpush.Prelude.{
  ℕ, ◌%◌, ◌^◌, ◌<◌, arith, ◌≡◌, refl, List, [], ◌∷◌, map, none, some, Bool, true, false, ◌==◌,
}
use gpush.Net.Client.{Client}
use gpush.Net.EventLoop.{get_connection}
use gpush.Push.Manager.{
  PortConfig, ServerStatus, is_local_ip, first_part, until_dot, sort_ips, on_sv_list_change,
  connect_server, check_servers, filter_servers, admitted, admits, assign, when_any,
}
use gpush.Push.Manager.Address.{first_up, Towards, connect_server-Towards}
use gpush.Push.Manager.Listed.{Ascending, last_listed}
use gpush.Push.Manager.Choice.{Offers, HasParts, AllServers, wanted, check_servers-wanted}

abbrev local : List ℕ
local = b'1' ∷ b'0' ∷ b'.' ∷ b'1' ∷ []

abbrev public : List ℕ
public = b'8' ∷ b'.' ∷ b'8' ∷ []

abbrev any_port : PortConfig
any_port = record { port = 900; max_type = 10; min_type = 1 }

abbrev no_port : PortConfig
no_port = record { port = 800; max_type = 2; min_type = 1 }

abbrev server : ServerStatus
server = record { id = 3; ips = public ∷ local ∷ []; ports = any_port ∷ [] }

abbrev connects : List ℕ → ℕ → Bool
connects [] port = false
connects (c ∷ cs) port = c == b'8'

sorted : sort_ips server.ips ≡ some (local ∷ [], public ∷ [])
unfolding sort_ips is_local_ip first_part until_dot
sorted = refl

first_up-public : first_up connects 900 (local ∷ public ∷ []) ≡ some public
unfolding first_up
first_up-public = refl

first_address :
    (c : Client ℕ) × (connect_server connects 30000 server ≡ some c)
    × Towards 900 c (first_up connects 900 (local ∷ public ∷ []))
    × (c.part ≡ 3)
first_address =
    connect_server-Towards connects 30000 server any_port [] (local ∷ []) (public ∷ []) refl sorted

-- The server's key is its id; the port for other types is left out, and a server with no other.
abbrev atoi : List ℕ → ℕ
atoi [] = 0
atoi (c ∷ cs) = c % 2 ^ 32

atoi_int32 : (key : List ℕ) → atoi key < 2 ^ 32
atoi_int32 [] = omega arith
atoi_int32 (c ∷ cs) = omega arith

abbrev listed : List (List ℕ × ServerStatus)
listed =
    (4 ∷ [], record server { id = 4; ports = no_port ∷ [] })
    ∷ (3 ∷ [], record server { ports = no_port ∷ any_port ∷ [] })
    ∷ []

on_sv_list_change-listed : on_sv_list_change atoi 5 listed ≡ (3, server) ∷ []
unfolding on_sv_list_change filter_servers admitted admits assign when_any
on_sv_list_change-listed = refl

both-HasParts : HasParts server
unfolding is_local_ip first_part until_dot
both-HasParts = ((false, refl), ((true, refl), tt))

check_servers-wanted_example :
    let smap = on_sv_list_change atoi 5 listed in
    (cs : List (Client ℕ)) × (check_servers connects 30000 [] smap ≡ some cs)
    × (map (λ (c : Client ℕ). c.part) cs ≡ wanted [] smap)
    × Ascending smap
    × ((id : ℕ) → get_connection id smap ≡ last_listed atoi 5 id listed none)
    × AllServers (Offers 5) smap
check_servers-wanted_example =
    check_servers-wanted connects 30000 [] atoi 5 listed (both-HasParts, (both-HasParts, tt))
      atoi_int32
