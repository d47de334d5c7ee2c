-- ===== src/Push/Manager/Address.antt =====
-- At which of a server's addresses a connection is made.
use gpush.Prelude.{
  ℕ, ◌≡◌, refl, ap, sym, ◌∙◌, inl, inr, List, [], ◌∷◌, ◌++◌, Option, none, some, Bool, true, false,
  if◌then◌else◌, Bool-cases, Option-cases, All,
}
use gpush.Prelude.Int32.{negative, minus}
use gpush.Net.Client.{Client, no_event, idle, connecting, connect_to}
use gpush.Push.Manager.{
  PortConfig, ServerStatus, is_local_ip, sort_ips, connect_ip_array, connect_server,
}

-- The first address that can be connected to.
unfoldable pub first_up : (List ℕ → ℕ → Bool) → ℕ → List (List ℕ) → Option (List ℕ)
first_up connects port [] = none
first_up connects port (ip ∷ ips) =
    let rest = first_up connects port ips in if connects ip port then some ip else rest

-- A client is connecting to an address, or it is idle, without a descriptor.
pub data Towards (port : ℕ) (c : Client ℕ) : Option (List ℕ) → Type 0 where
  towards :
      (ip : List ℕ)
      → c.addr ≡ (ip, port)
      → c.fd ≡ true
      → c.status ≡ connecting
      → Towards port c (some ip)
  nowhere : c.fd ≡ false → c.status ≡ idle → Towards port c none

-- Addresses that have a first part are sorted.
pub sort_ips_total :
    (ips : List (List ℕ))
    → All (λ ip. (b : Bool) × (is_local_ip ip ≡ some b)) ips
    → (local : List (List ℕ)) × (public : List (List ℕ)) × (sort_ips ips ≡ some (local, public))
unfolding sort_ips
sort_ips_total [] h = ([], [], refl)
sort_ips_total (ip ∷ ips) ((true, e), h) =
    let (local, public, sorted) = sort_ips_total ips h in
    (ip ∷ local, public, rw (e, sort_ips) (rw (sorted, sort_ips) refl))
sort_ips_total (ip ∷ ips) ((false, e), h) =
    let (local, public, sorted) = sort_ips_total ips h in
    (local, ip ∷ public, rw (e, sort_ips) (rw (sorted, sort_ips) refl))

module _ (connects : List ℕ → ℕ → Bool) where
  first_takes :
      (c : Client ℕ) (ip : List ℕ) (ips : List (List ℕ)) (port : ℕ)
      → connects ip port ≡ true
      → connect_ip_array connects c (ip ∷ ips) port
        ≡ (record c { addr = (ip, port); fd = true; status = connecting }, 0)
  unfolding connect_ip_array connect_to
  first_takes c ip ips port up = rw (up, connect_ip_array, connect_to) refl

  first_fails :
      (c : Client ℕ) (ip : List ℕ) (ips : List (List ℕ)) (port : ℕ)
      → connects ip port ≡ false
      → connect_ip_array connects c (ip ∷ ips) port
        ≡ connect_ip_array connects (record c { addr = (ip, port) }) ips port
  unfolding connect_ip_array connect_to
  first_fails c ip ips port down = rw (down, connect_ip_array, connect_to) refl

  first_up-takes :
      (i : List ℕ) (ips : List (List ℕ)) (port : ℕ)
      → connects i port ≡ true
      → first_up connects port (i ∷ ips) ≡ some i
  unfolding first_up
  first_up-takes i ips port up = rw (up, first_up) refl

  first_up-fails :
      (i : List ℕ) (ips : List (List ℕ)) (port : ℕ)
      → connects i port ≡ false
      → first_up connects port (i ∷ ips) ≡ first_up connects port ips
  unfolding first_up
  first_up-fails i ips port down = rw (down, first_up) refl

  -- What trying addresses makes of a client: it is connecting to the first that can be connected to,
  -- or is as it was but for the address.
  array_up :
      (c : Client ℕ) (ips : List (List ℕ)) (port : ℕ) (ip : List ℕ)
      → first_up connects port ips ≡ some ip
      → connect_ip_array connects c ips port
        ≡ (record c { addr = (ip, port); fd = true; status = connecting }, 0)
  unfolding first_up
  array_up c [] port ip h = absurd (cc h)
  array_up c (i ∷ ips) port ip h = elim (Bool-cases (connects i port)) [
    | inl up ↦
        let same : i ≡ ip = cc (h, first_up-takes i ips port up) in
        first_takes c i ips port up
        ∙ ap (λ (x : List ℕ). (record c { addr = (x, port); fd = true; status = connecting }, 0))
            same
    | inr down ↦
        first_fails c i ips port down
        ∙ array_up (record c { addr = (i, port) }) ips port ip
            (sym (first_up-fails i ips port down) ∙ h)
  ]

  array_down :
      (c : Client ℕ) (ips : List (List ℕ)) (port : ℕ)
      → first_up connects port ips ≡ none
      → (addr : List ℕ × ℕ) × (connect_ip_array connects c ips port
          ≡ (record c { addr = addr }, minus 1))
  unfolding first_up connect_ip_array
  array_down c [] port h = (c.addr, refl)
  array_down c (i ∷ ips) port h = elim (Bool-cases (connects i port)) [
    | inl up ↦ absurd (cc (h, first_up-takes i ips port up))
    | inr down ↦
        let (addr, e) =
          array_down (record c { addr = (i, port) }) ips port
            (sym (first_up-fails i ips port down) ∙ h) in
        (addr, first_fails c i ips port down ∙ e)
  ]

  first_up-append :
      (port : ℕ) (xs ys : List (List ℕ)) (ip : List ℕ)
      → first_up connects port xs ≡ some ip
      → first_up connects port (xs ++ ys) ≡ some ip
  unfolding first_up
  first_up-append port [] ys ip h = absurd (cc h)
  first_up-append port (x ∷ xs) ys ip h = elim (Bool-cases (connects x port)) [
    | inl up ↦ rw (up, first_up) (sym (first_up-takes x xs port up) ∙ h)
    | inr down ↦
        rw (down, first_up)
          (first_up-append port xs ys ip (sym (first_up-fails x xs port down) ∙ h))
  ]

  first_up-append_none :
      (port : ℕ) (xs ys : List (List ℕ))
      → first_up connects port xs ≡ none
      → first_up connects port (xs ++ ys) ≡ first_up connects port ys
  unfolding first_up
  first_up-append_none port [] ys h = refl
  first_up-append_none port (x ∷ xs) ys h = elim (Bool-cases (connects x port)) [
    | inl up ↦ absurd (cc (h, first_up-takes x xs port up))
    | inr down ↦
        rw (down, first_up)
          (first_up-append_none port xs ys (sym (first_up-fails x xs port down) ∙ h))
  ]

  -- First the local addresses are tried, then the public ones.
  abbrev tried : Client ℕ → List (List ℕ) → List (List ℕ) → ℕ → Client ℕ
  tried c local public port =
      let (c', ret) = connect_ip_array connects c local port in
      if negative ret then (connect_ip_array connects c' public port).0 else c'

  tried-Towards :
      (c : Client ℕ) (local public : List (List ℕ)) (port : ℕ)
      → c.fd ≡ false
      → c.status ≡ idle
      → Towards port (tried c local public port) (first_up connects port (local ++ public))
        × ((tried c local public port).part ≡ c.part)
  tried-Towards c local public port closed off =
      elim (Option-cases (first_up connects port local)) [
        | inl none_local ↦
            let (addr, e) = array_down c local port none_local in
            elim (Option-cases (first_up connects port public)) [
              | inl none_public ↦
                  let (addr', e') = array_down (record c { addr = addr }) public port none_public in
                  rw (e) (
                    rw (e') (
                      rw (first_up-append_none port local public none_local ∙ none_public)
                        (nowhere closed off, refl)))
              | inr (ip, found) ↦ rw (e) (
                  rw (array_up (record c { addr = addr }) public port ip found) (
                    rw (first_up-append_none port local public none_local ∙ found)
                      (towards ip refl refl refl, refl)))
            ]
        | inr (ip, found) ↦
            rw (array_up c local port ip found)
              (rw (first_up-append port local public ip found) (towards ip refl refl refl, refl))
      ]

  -- A server with a port and addresses that have a first part gets a client of its id, that is
  -- connecting to the first address that can be connected to, the local ones before the public ones,
  -- or that is idle, without a descriptor, if there is none.
  pub connect_server-Towards :
      (ms : ℕ) (s : ServerStatus) (p : PortConfig) (ps : List PortConfig)
      (local public : List (List ℕ))
      → s.ports ≡ p ∷ ps
      → sort_ips s.ips ≡ some (local, public)
      → (c : Client ℕ) × (connect_server connects ms s ≡ some c)
        × Towards p.port c (first_up connects p.port (local ++ public))
        × (c.part ≡ s.id)
  unfolding connect_server
  connect_server-Towards ms s p ps local public ports sorted =
      let new : Client ℕ = record {
        status = idle;
        fd = false;
        noti = no_event;
        addr = ([], 0);
        reconnect_span = 0;
        keep_alive_span = ms;
        started = [];
        part = s.id;
      } in
      let (to, part) = tried-Towards new local public p.port refl refl in
      (
        tried new local public p.port,
        rw (ports, connect_server) (rw (sorted, connect_server) refl),
        to,
        part,
      )
