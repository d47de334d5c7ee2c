-- ===== src/Push/Manager/Listed.antt =====
-- Which of the servers that ZooKeeper lists are in the map that onSvListChange makes.
use gpush.Prelude.{
  ℕ, ◌<◌, ◌^◌, ◌≡◌, refl, sym, ap, ◌∙◌, inl, inr, List, [], ◌∷◌, Option, none, some, Bool, true,
  false, ◌==◌, ==_iff, Bool-cases, if◌then◌else◌, arith,
}
use mathlib.Core.Path.{subst}
use gpush.Prelude.Int32.{less}
use gpush.Net.EventLoop.{ConnectionMap, get_connection}
use gpush.Push.Manager.{
  PortConfig, ServerStatus, admitted, assign, when_any, filter_servers, on_sv_list_change,
}

-- What a server offers under a key, if it has a port for the type; otherwise what was offered before.
offer : ServerStatus → List PortConfig → Option ServerStatus → Option ServerStatus
offer s [] before = before
offer s (p ∷ ps) before = some (record s { ports = p ∷ ps })

-- What an id stands for: the last server listed under it that has a port for the type, with those
-- ports alone.
pub last_listed :
    (List ℕ → ℕ) → ℕ → ℕ → List (List ℕ × ServerStatus) → Option ServerStatus → Option ServerStatus
unfolding offer
last_listed atoi type id [] before = before
last_listed atoi type id ((key, s) ∷ notify) before =
    let now = offer s (admitted type s.ports) before in
    last_listed atoi type id notify (if atoi key == id then now else before)

get-assign :
    (k id : ℕ) (s : ServerStatus) (m : ConnectionMap ServerStatus)
    → get_connection id (assign k s m) ≡ (if k == id then some s else get_connection id m)
unfolding get_connection assign
get-assign k id s [] = refl
get-assign k id s ((j, t) ∷ m) = ground (arith, get-assign k id s m)

if_same : {X : Type 0} (b : Bool) (x : X) → (if b then x else x) ≡ x
if_same true x = refl
if_same false x = refl

-- One server of the list, from what holds for the others.
get_one :
    (id k : ℕ) (s : ServerStatus) (m : ConnectionMap ServerStatus)
    (others : ConnectionMap ServerStatus → ConnectionMap ServerStatus)
    (last : Option ServerStatus → Option ServerStatus)
    (ih : (n : ConnectionMap ServerStatus)
      → get_connection id (others n) ≡ last (get_connection id n))
    (ps : List PortConfig)
    → get_connection id (when_any ps (others (assign k (record s { ports = ps }) m)) (others m))
      ≡ last (if k == id then offer s ps (get_connection id m) else get_connection id m)
unfolding when_any offer
get_one id k s m others last ih [] = ih m ∙ ap last (sym (if_same (k == id) (get_connection id m)))
get_one id k s m others last ih (p ∷ ps) =
    let s1 : ServerStatus = record s { ports = p ∷ ps } in
    ih (assign k s1 m) ∙ ap last (get-assign k id s1 m)

get-filter_servers :
    (atoi : List ℕ → ℕ) (type id : ℕ) (notify : List (List ℕ × ServerStatus))
    (m : ConnectionMap ServerStatus)
    → get_connection id (filter_servers atoi type notify m)
      ≡ last_listed atoi type id notify (get_connection id m)
unfolding filter_servers last_listed
get-filter_servers atoi type id [] m = refl
get-filter_servers atoi type id ((key, s) ∷ notify) m =
    get_one id (atoi key) s m (filter_servers atoi type notify) (last_listed atoi type id notify)
      (get-filter_servers atoi type id notify) (admitted type s.ports)

-- The keys of a map, which are in the order of signed numbers.
AllAbove : ℕ → ConnectionMap ServerStatus → Type 0
AllAbove k [] = Unit
AllAbove k ((j, t) ∷ m) = (less k j ≡ true) × AllAbove k m

pub Ascending : ConnectionMap ServerStatus → Type 0
unfolding AllAbove
Ascending [] = Unit
Ascending ((k, s) ∷ m) = (k < 2 ^ 32) × AllAbove k m × Ascending m

AllAbove-less :
    (k j : ℕ) (m : ConnectionMap ServerStatus) → less k j ≡ true → AllAbove j m → AllAbove k m
unfolding AllAbove
AllAbove-less k j [] e h = tt
AllAbove-less k j ((i, t) ∷ m) e h = (ground (arith, e, h.0), AllAbove-less k j m e h.1)

AllAbove-assign :
    (j k : ℕ) (s : ServerStatus) (m : ConnectionMap ServerStatus)
    → less j k ≡ true
    → AllAbove j m
    → AllAbove j (assign k s m)
unfolding AllAbove assign
AllAbove-assign j k s [] e h = (e, tt)
AllAbove-assign j k s ((i, t) ∷ m) e h = elim (Bool-cases (i == k)) [
  | inl same ↦ rw (same, assign) (e, h.1)
  | inr other ↦ elim (Bool-cases (less k i)) [
    | inl before ↦ rw (other, assign) (rw (before, assign) (e, h))
    | inr after ↦ rw (other, assign) (rw (after, assign) (h.0, AllAbove-assign j k s m e h.1))
  ]
]

less_total :
    (i k : ℕ) → i < 2 ^ 32 → k < 2 ^ 32 → (i == k) ≡ false → less k i ≡ false → less i k ≡ true
less_total i k hi hk other after = ground arith

Ascending-assign :
    (k : ℕ) (s : ServerStatus) (m : ConnectionMap ServerStatus)
    → k < 2 ^ 32
    → Ascending m
    → Ascending (assign k s m)
unfolding Ascending AllAbove assign
Ascending-assign k s [] hk h = (hk, tt, tt)
Ascending-assign k s ((i, t) ∷ m) hk h = elim (Bool-cases (i == k)) [
  | inl same ↦
      let e : i ≡ k = (==_iff i k).0 same in
      rw (same, assign) (hk, subst (λ (j : ℕ). AllAbove j m) e h.1, h.2)
  | inr other ↦ elim (Bool-cases (less k i)) [
    | inl before ↦
        rw (other, assign) (rw (before, assign) (hk, (before, AllAbove-less k i m before h.1), h))
    | inr after ↦
        let up = less_total i k h.0 hk other after in
        rw (other, assign)
          (rw (after, assign) (h.0, AllAbove-assign i k s m up h.1, Ascending-assign k s m hk h.2))
  ]
]

when_any-Ascending :
    (ps : List PortConfig) (kept skipped : ConnectionMap ServerStatus)
    → Ascending kept
    → Ascending skipped
    → Ascending (when_any ps kept skipped)
unfolding when_any
when_any-Ascending [] kept skipped h k = k
when_any-Ascending (p ∷ ps) kept skipped h k = h

filter_servers-Ascending :
    (atoi : List ℕ → ℕ) (type : ℕ) (notify : List (List ℕ × ServerStatus))
    (m : ConnectionMap ServerStatus)
    → ((key : List ℕ) → atoi key < 2 ^ 32)
    → Ascending m
    → Ascending (filter_servers atoi type notify m)
unfolding filter_servers
filter_servers-Ascending atoi type [] m int h = h
filter_servers-Ascending atoi type ((key, s) ∷ notify) m int h =
    let s1 : ServerStatus = record s { ports = admitted type s.ports } in
    when_any-Ascending s1.ports _ _
      (filter_servers-Ascending atoi type notify (assign (atoi key) s1 m) int
        (Ascending-assign (atoi key) s1 m (int key) h))
      (filter_servers-Ascending atoi type notify m int h)

-- The map of onSvListChange has the servers in the order of their ids, and under each id what the list
-- has last for it.
pub on_sv_list_change-last_listed :
    (atoi : List ℕ → ℕ) (type : ℕ) (notify : List (List ℕ × ServerStatus))
    → ((key : List ℕ) → atoi key < 2 ^ 32)
    → Ascending (on_sv_list_change atoi type notify)
      × ((id : ℕ)
          → get_connection id (on_sv_list_change atoi type notify)
            ≡ last_listed atoi type id notify none)
unfolding on_sv_list_change get_connection Ascending
on_sv_list_change-last_listed atoi type notify int = (
  filter_servers-Ascending atoi type notify [] int tt,
  λ id. get-filter_servers atoi type id notify [],
)
