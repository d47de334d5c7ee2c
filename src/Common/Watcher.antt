-- ===== src/Common/Watcher.antt =====
-- common/src/zk_watcher.cpp, common/include/data_watcher.h and the callbacks of
-- common/src/zk_client.cpp: the watcher of a ZooKeeper node. ZooKeeper's calls that set a watch are
-- kept as a list of what was asked for; its events and completions are inputs, in any order. A watch is
-- used up by the event that it gives.
pub mod Blind
mod Tests
use gpush.Prelude.{ℕ, List, [], ◌∷◌, ◌++◌, Bool, true, false, ◌&&◌, ◌||◌, if◌then◌else◌, ◌==◌}
use gpush.Prelude.Int32.{minus}

-- `zoo_awget`, `zoo_awget_children` and `zoo_awexists`.
pub data Request : Type 0 where
  watch_data watch_children watch_exists : Request

pub data Event : Type 0 where
  create_event delete_event change_event child_event : Event

-- A set of events, an integer with a bit for each.
pub record Mask : Type 0 where
  pub create : Bool
  pub delete : Bool
  pub change : Bool
  pub child : Bool

-- `ZKWatcher`: whether it has a client, its events, and whether it waits for its node.
pub record Watcher : Type 0 where
  pub cli : Bool
  pub event_mask : Mask
  pub check_exists : Bool
  pub asked : List Request

unfoldable pub has : Mask → Event → Bool
has m create_event = m.create
has m delete_event = m.delete
has m change_event = m.change
has m child_event = m.child

unfoldable pub only : Event → Mask
only create_event = record { create = true; delete = false; change = false; child = false }
only delete_event = record { create = false; delete = true; change = false; child = false }
only change_event = record { create = false; delete = false; change = true; child = false }
only child_event = record { create = false; delete = false; change = false; child = true }

unfoldable pub join : Mask → Mask → Mask
join m n = record {
  create = m.create || n.create;
  delete = m.delete || n.delete;
  change = m.change || n.change;
  child = m.child || n.child;
}

unfoldable pub ask_if : Bool → Request → Watcher → Watcher
ask_if b r w = record w { asked = if b then w.asked ++ (r ∷ []) else w.asked }

-- The three tests that `addWatch` and `nodeExists` make.
unfoldable pub ask_for : Mask → Watcher → Watcher
unfolding ask_if
ask_for m w =
    ask_if (m.create || m.delete) watch_exists
      (ask_if m.child watch_children (ask_if m.change watch_data w))

unfoldable pub add_watch : Mask → Watcher → Watcher × ℕ
unfolding ask_for join
add_watch m w =
    if w.cli then (record (ask_for m w) { event_mask = join w.event_mask m }, 0) else (w, minus 1)

unfoldable pub node_exists : Watcher → Watcher × ℕ
unfolding ask_for
node_exists w =
    if w.cli then (record (ask_for w.event_mask w) { check_exists = false }, 0) else (w, minus 1)

-- `checkExists`, with `watchCreate`.
unfoldable pub check_if_exists : Watcher → Watcher
unfolding ask_if
check_if_exists w =
    if w.cli
    then (if w.check_exists then w else ask_if true watch_exists (record w { check_exists = true }))
    else w

unfoldable pub handle_event : Event → Watcher → Watcher
unfolding add_watch has only check_if_exists node_exists
handle_event ev w =
    let again = (add_watch (only ev) w).0 in
    let unmasked : Watcher = elim ev [
      | delete_event ↦ check_if_exists w
      | create_event ↦ (node_exists w).0
      | change_event ↦ w
      | child_event ↦ w
    ] in
    if has w.event_mask ev then again else unmasked

unfoldable pub same_text : List ℕ → List ℕ → Bool
same_text [] [] = true
same_text [] (y ∷ ys) = false
same_text (x ∷ xs) [] = false
same_text (x ∷ xs) (y ∷ ys) = (x == y) && same_text xs ys

-- `DataWatcher`, with the calls of its callback.
pub record DataWatcher : Type 0 where
  pub base : Watcher
  pub version : ℕ
  pub content : List ℕ
  pub told : List (ℕ × List ℕ)

-- `onDataChange` of `DataWatcherBase`, and that of `DataWatcher`, which begins with it, with a context
-- that is set.
unfoldable pub base_data_change : ℕ → List ℕ → DataWatcher → DataWatcher
base_data_change ver text w = record w { version = ver; content = text }

unfoldable pub on_data_change : ℕ → List ℕ → DataWatcher → DataWatcher
unfolding base_data_change same_text
on_data_change ver text w =
    let stored = base_data_change ver text w in
    if same_text stored.content text
    then stored
    else record stored { told = stored.told ++ ((ver, text) ∷ []) }

unfoldable pub on_path_remove : DataWatcher → DataWatcher
unfolding on_data_change
on_path_remove w = on_data_change (minus 1) [] (record w { version = minus 1; content = [] })

-- The results that the callbacks tell apart: ZOK, ZNONODE, and the other ones.
pub data Rc : Type 0 where
  zok no_node other_rc : Rc

pub data Input : Type 0 where
  event : Event → Input
  got_data : Rc → ℕ → List ℕ → Input
  got_children got_exists : Rc → Input
  expired : Input

unfoldable pub get_data_complete : Rc → ℕ → List ℕ → DataWatcher → DataWatcher
unfolding on_data_change check_if_exists
get_data_complete zok ver text w = on_data_change ver text w
get_data_complete no_node ver text w = record w { base = check_if_exists w.base }
get_data_complete other_rc ver text w = w

-- A data watcher does nothing about its node's children.
unfoldable pub get_children_complete : Rc → DataWatcher → DataWatcher
unfolding check_if_exists
get_children_complete zok w = w
get_children_complete no_node w = record w { base = check_if_exists w.base }
get_children_complete other_rc w = w

-- `onPathCreate` does nothing.
unfoldable pub get_exists_complete : Rc → DataWatcher → DataWatcher
unfolding on_path_remove
get_exists_complete zok w = w
get_exists_complete no_node w = on_path_remove w
get_exists_complete other_rc w = w

-- `watcherFn`, the completions, and `watchAll` after a session has expired.
unfoldable pub take_input : Input → DataWatcher → DataWatcher
unfolding handle_event get_data_complete get_children_complete get_exists_complete node_exists
take_input (event ev) w = record w { base = handle_event ev w.base }
take_input (got_data rc ver text) w = get_data_complete rc ver text w
take_input (got_children rc) w = get_children_complete rc w
take_input (got_exists rc) w = get_exists_complete rc w
take_input expired w = record w { base = (node_exists w.base).0 }

unfoldable pub take_inputs : List Input → DataWatcher → DataWatcher
unfolding take_input
take_inputs [] w = w
take_inputs (i ∷ is) w = take_inputs is (take_input i w)
