-- ===== src/Tests/Watching.antt =====
-- The watcher (src/FileWatcher.cpp) on concrete input.
use libfilewatch.Base.{
  ℕ, ◌≡◌, refl, ◌≢◌, ◌↔◌, ◌⊎◌, true, false, List, [], ◌∷◌, In, not, ◌&&◌, is_empty, if◌then◌else◌,
  ◌==◌, nat_eq, text_eq, none, some, arith,
}
use libfilewatch.Base.Dict.{Dict, lookup, Unique}
use libfilewatch.Path.{FilePath}
use libfilewatch.PathUtils.{get_absolute_path}
use libfilewatch.Event.{FileEvent, modify, file, file_event}
use libfilewatch.Errc.{success}
use libfilewatch.Watcher.{
  returned, threw, WatchEntry, Watcher, new_watcher, add_watch, remove_watch, dispatch_event,
  process_events,
}
use libfilewatch.Watcher.Watches.{answer, IsAdmissible, add_watch_iff, add_watch_effect}
use libfilewatch.Watcher.Removal.{remove_watch_lem}
use libfilewatch.Watcher.Delivery.{call_each, IsTaken, dispatch_event_lem}
use libfilewatch.Watcher.Pipeline.{reference, process_events-reference}
use libfilewatch.Tests.Instances.{
  literal, all_folders, taking, throwing, keep_events, path_a, path_b,
}

abbrev idle : Watcher literal taking (List FileEvent)
idle = new_watcher 0 0

abbrev idle_throwing : Watcher literal throwing (List FileEvent)
idle_throwing = new_watcher 0 0

-- A watcher of "/a".
abbrev watching : Watcher literal taking (List FileEvent)
watching = record idle {
  watches = (path_a, record { callback = keep_events; recursive = true }) ∷ [];
}

abbrev saved : FileEvent
saved = file_event modify path_a file

abbrev saves : List (ℕ × FileEvent)
saves = (1, saved) ∷ (40000000, saved) ∷ (95000000, saved) ∷ []

process_events-reference_example :
    (process_events saves watching []).1 ≡ reference [] saves watching []
process_events-reference_example = process_events-reference 0 saves watching [] refl (ground arith)

dispatch_event_lem_example :
    (called : Dict FilePath (WatchEntry (List FileEvent))) × Unique called
    × ((p : FilePath) (e : WatchEntry (List FileEvent))
        → In (p, e) called ↔ ((lookup p watching.watches ≡ some e) × IsTaken p e saved))
    × ((w : List FileEvent) → dispatch_event saved watching w ≡ call_each called saved w)
dispatch_event_lem_example = dispatch_event_lem watching saved (ground arith)

add_watch_iff_example : ((add_watch all_folders path_b true keep_events watching).0 ≡ true) ↔ (
    IsAdmissible all_folders path_b true keep_events watching
    × (answer all_folders path_b true keep_events watching ≡ returned true))
add_watch_iff_example = add_watch_iff all_folders path_b true keep_events watching

add_watch_effect_example :
    let r = add_watch all_folders path_b true keep_events watching in
    ((r.1.last_error ≡ success) ↔ (r.0 ≡ true))
    × ((k : FilePath)
        → r.0 ≡ true
        → lookup k r.1.watches ≡ (
            if k == path_b
            then some (record { callback = keep_events; recursive = true })
            else lookup k watching.watches))
    × ((k : FilePath)
        → r.0 ≡ false
        → (¬ IsAdmissible all_folders path_b true keep_events watching)
          ⊎ (answer all_folders path_b true keep_events watching ≢ threw)
        → lookup k r.1.watches ≡ lookup k watching.watches)
add_watch_effect_example = add_watch_effect all_folders path_b true keep_events watching

remove_watch_lem_example :
    let r = remove_watch all_folders path_a watching in
    ((r.0 ≡ true) ↔ (
      (path_a ≢ [])
      × ((taking.remove_watch (get_absolute_path all_folders path_a) watching.platform_watcher).0
          ≡ returned true)))
    × ((r.1.last_error ≡ success) ↔ (r.0 ≡ true))
    × ((k : FilePath)
        → lookup k r.1.watches ≡ (
            if not (is_empty path_a) && k == get_absolute_path all_folders path_a
            then none
            else lookup k watching.watches))
remove_watch_lem_example = remove_watch_lem all_folders path_a watching
