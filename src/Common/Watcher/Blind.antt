-- ===== src/Common/Watcher/Blind.antt =====
-- What a data watcher misses.
use gpush.Prelude.{
  ℕ, ◌≡◌, refl, ap, sym, ◌∙◌, List, [], ◌∷◌, ◌++◌, Bool, true, false, suc, arith, All,
}
use gpush.Common.Watcher.{
  Request, watch_data, watch_children, watch_exists, Event, create_event, delete_event,
  change_event, child_event, Watcher, has, only, join, ask_if, ask_for, add_watch, node_exists,
  check_if_exists, handle_event, same_text, DataWatcher, base_data_change, on_data_change,
  on_path_remove, zok, no_node, other_rc, Input, event, got_data, got_children, got_exists, expired,
  get_data_complete, get_children_complete, get_exists_complete, take_input, take_inputs,
}

same_text_itself : (text : List ℕ) → same_text text text ≡ true
unfolding same_text
same_text_itself [] = refl
same_text_itself (x ∷ xs) = ground (arith, same_text_itself xs)

told-on_data_change :
    (ver : ℕ) (text : List ℕ) (w : DataWatcher) → (on_data_change ver text w).told ≡ w.told
unfolding on_data_change base_data_change
told-on_data_change ver text w = rw (same_text_itself text, on_data_change) refl

told-take_input : (i : Input) (w : DataWatcher) → (take_input i w).told ≡ w.told
unfolding take_input get_data_complete get_children_complete get_exists_complete on_path_remove
told-take_input (event ev) w = refl
told-take_input (got_data zok ver text) w = told-on_data_change ver text w
told-take_input (got_data no_node ver text) w = refl
told-take_input (got_data other_rc ver text) w = refl
told-take_input (got_children zok) w = refl
told-take_input (got_children no_node) w = refl
told-take_input (got_children other_rc) w = refl
told-take_input (got_exists zok) w = refl
told-take_input (got_exists no_node) w = refl
told-take_input (got_exists other_rc) w = refl
told-take_input expired w = refl

told-take_inputs : (is : List Input) (w : DataWatcher) → (take_inputs is w).told ≡ w.told
unfolding take_inputs
told-take_inputs [] w = refl
told-take_inputs (i ∷ is) w = told-take_inputs is (take_input i w) ∙ told-take_input i w

base-on_data_change :
    (ver : ℕ) (text : List ℕ) (w : DataWatcher)
    → on_data_change ver text w ≡ record w { version = ver; content = text }
unfolding on_data_change base_data_change
base-on_data_change ver text w = rw (same_text_itself text, on_data_change) refl

-- Whatever happened before, a data watcher that is given its node's data stores it, and never calls
-- its callback: not for this, nor for anything before.
pub take_inputs_silent :
    (is : List Input) (ver : ℕ) (text : List ℕ) (w : DataWatcher)
    → let after = take_input (got_data zok ver text) (take_inputs is w) in
      (after.content ≡ text) × (after.version ≡ ver) × (after.told ≡ w.told)
unfolding take_input get_data_complete
take_inputs_silent is ver text w =
    let stored = base-on_data_change ver text (take_inputs is w) in
    (
      ap (λ (x : DataWatcher). x.content) stored,
      ap (λ (x : DataWatcher). x.version) stored,
      ap (λ (x : DataWatcher). x.told) stored ∙ told-take_inputs is w,
    )

-- The inputs that a watcher has no answer to once it waits for its node: all but the event of the
-- node's creation and a new session.
abbrev pub IsDeaf : Input → Type 0
IsDeaf (event create_event) = ⊥
IsDeaf expired = ⊥
IsDeaf _ = Unit

-- How often a watch for the node's creation was asked for.
unfoldable pub exists_asked : List Request → ℕ
exists_asked [] = 0
exists_asked (watch_data ∷ l) = exists_asked l
exists_asked (watch_children ∷ l) = exists_asked l
exists_asked (watch_exists ∷ l) = suc (exists_asked l)

exists_asked-data : (l : List Request) → exists_asked (l ++ (watch_data ∷ [])) ≡ exists_asked l
unfolding exists_asked
exists_asked-data [] = refl
exists_asked-data (watch_data ∷ l) = exists_asked-data l
exists_asked-data (watch_children ∷ l) = exists_asked-data l
exists_asked-data (watch_exists ∷ l) = ap suc (exists_asked-data l)

exists_asked-exists :
    (l : List Request) → exists_asked (l ++ (watch_exists ∷ [])) ≡ suc (exists_asked l)
unfolding exists_asked
exists_asked-exists [] = refl
exists_asked-exists (watch_data ∷ l) = exists_asked-exists l
exists_asked-exists (watch_children ∷ l) = exists_asked-exists l
exists_asked-exists (watch_exists ∷ l) = ap suc (exists_asked-exists l)

-- A data watcher as `init` leaves it, which waits for its node or not.
abbrev pub watching : Bool → List Request → Watcher
watching waits l = record {
  cli = true;
  event_mask = record { create = false; delete = false; change = true; child = false };
  check_exists = waits;
  asked = l;
}

record Waits (n : ℕ) (w : DataWatcher) : Type 0 where
  requests : List Request
  there : w.base ≡ watching true requests
  count : exists_asked requests ≡ n

event-Waits :
    (n : ℕ) (ev : Event) (w : DataWatcher)
    → IsDeaf (event ev)
    → Waits n w
    → Waits n (record w { base = handle_event ev w.base })
unfolding handle_event has only add_watch ask_for ask_if join check_if_exists node_exists
event-Waits n create_event w d h = absurd d
event-Waits n delete_event w d h = record {
  requests = h.requests;
  there = ap (handle_event delete_event) h.there;
  count = h.count;
}
event-Waits n change_event w d h = record {
  requests = h.requests ++ (watch_data ∷ []);
  there = ap (handle_event change_event) h.there;
  count = exists_asked-data h.requests ∙ h.count;
}
event-Waits n child_event w d h = record {
  requests = h.requests;
  there = ap (handle_event child_event) h.there;
  count = h.count;
}

checks-Waits :
    (n : ℕ) (w : DataWatcher) → Waits n w → Waits n (record w { base = check_if_exists w.base })
unfolding check_if_exists
checks-Waits n w h = record {
  requests = h.requests;
  there = ap check_if_exists h.there;
  count = h.count;
}

same-Waits : (n : ℕ) (w w' : DataWatcher) → w'.base ≡ w.base → Waits n w → Waits n w'
same-Waits n w w' e h = record { requests = h.requests; there = e ∙ h.there; count = h.count }

input-Waits :
    (n : ℕ) (i : Input) (w : DataWatcher) → IsDeaf i → Waits n w → Waits n (take_input i w)
unfolding take_input get_data_complete get_children_complete get_exists_complete on_path_remove
input-Waits n (event ev) w d h = event-Waits n ev w d h
input-Waits n (got_data zok ver text) w d h =
    same-Waits n w (on_data_change ver text w)
      (ap (λ (x : DataWatcher). x.base) (base-on_data_change ver text w)) h
input-Waits n (got_data no_node ver text) w d h = checks-Waits n w h
input-Waits n (got_data other_rc ver text) w d h = h
input-Waits n (got_children zok) w d h = h
input-Waits n (got_children no_node) w d h = checks-Waits n w h
input-Waits n (got_children other_rc) w d h = h
input-Waits n (got_exists zok) w d h = h
input-Waits n (got_exists no_node) w d h = same-Waits n w (on_path_remove w) refl h
input-Waits n (got_exists other_rc) w d h = h
input-Waits n expired w d h = absurd d

inputs-Waits :
    (n : ℕ) (is : List Input) (w : DataWatcher)
    → All IsDeaf is
    → Waits n w
    → Waits n (take_inputs is w)
unfolding take_inputs
inputs-Waits n [] w d h = h
inputs-Waits n (i ∷ is) w d h = inputs-Waits n is (take_input i w) d.1 (input-Waits n i w d.0 h)

deleted-Waits :
    (w : DataWatcher) (l : List Request)
    → w.base ≡ watching false l
    → Waits (suc (exists_asked l)) (take_input (event delete_event) w)
unfolding take_input handle_event has only add_watch ask_for ask_if join check_if_exists
deleted-Waits w l e = record {
  requests = l ++ (watch_exists ∷ []);
  there = ap (handle_event delete_event) e;
  count = exists_asked-exists l;
}

-- The node of a data watcher is deleted, and what comes then is neither the event of its creation nor
-- a new session: the result may be that it is there again, and it may change and be deleted again.
-- Then the watcher asks once to hear of the node's creation, at the first deletion, and never again:
-- another deletion leaves it as it is.
pub take_inputs_deaf :
    (is : List Input) (w : DataWatcher) (l : List Request)
    → w.base ≡ watching false l
    → All IsDeaf is
    → let after = take_inputs (event delete_event ∷ is) w in
      (exists_asked after.base.asked ≡ suc (exists_asked l))
      × (handle_event delete_event after.base ≡ after.base)
unfolding take_inputs
take_inputs_deaf is w l e deaf =
    let h =
      inputs-Waits (suc (exists_asked l)) is (take_input (event delete_event) w) deaf
        (deleted-Waits w l e) in
    (
      ap (λ (b : Watcher). exists_asked b.asked) h.there ∙ h.count,
      ap (handle_event delete_event) h.there ∙ unmoved h.requests ∙ sym h.there,
    )
  where
    unmoved : (r : List Request) → handle_event delete_event (watching true r) ≡ watching true r
    unmoved r = refl
