-- ===== src/Common/Watcher/Tests.antt =====
-- A data watcher whose node goes, comes back before the watch for it is set, and goes again.
use gpush.Prelude.{◌≡◌, refl, List, [], ◌∷◌, false}
use gpush.Common.Watcher.{
  watch_data, delete_event, change_event, create_event, DataWatcher, zok, no_node, Input, event,
  got_data, got_exists, handle_event, take_input, take_inputs, on_data_change, base_data_change,
  on_path_remove, same_text, get_exists_complete, has, only, join, ask_if, ask_for, add_watch,
  node_exists, check_if_exists, watch_exists,
}
use gpush.Common.Watcher.Blind.{watching, exists_asked, take_inputs_silent, take_inputs_deaf}

abbrev watcher : DataWatcher
watcher = record {
  base = watching false (watch_data ∷ []);
  version = 4;
  content = 1 ∷ [];
  told = [];
}

abbrev back_early : List Input
back_early = got_exists zok ∷ event change_event ∷ got_data zok 7 (2 ∷ []) ∷ []

-- The usual course: the node goes, and the event of its creation asks for its data again.
back_again :
    (take_inputs (event delete_event ∷ got_exists no_node ∷ event create_event ∷ []) watcher).base
    ≡ watching false (watch_data ∷ watch_exists ∷ watch_data ∷ [])
unfolding take_inputs take_input handle_event on_path_remove on_data_change base_data_change
    same_text get_exists_complete has only join ask_if ask_for add_watch node_exists check_if_exists
back_again = refl

take_inputs_silent_example :
    let after = take_input (got_data zok 9 (3 ∷ [])) (take_inputs back_early watcher) in
    (after.content ≡ 3 ∷ []) × (after.version ≡ 9) × (after.told ≡ [])
take_inputs_silent_example = take_inputs_silent back_early 9 (3 ∷ []) watcher

take_inputs_deaf_example :
    let after = take_inputs (event delete_event ∷ back_early) watcher in
    (exists_asked after.base.asked ≡ 1) × (handle_event delete_event after.base ≡ after.base)
unfolding exists_asked
take_inputs_deaf_example =
    take_inputs_deaf back_early watcher (watch_data ∷ []) refl (tt, (tt, (tt, tt)))
