-- ===== src/Tests/Renames.antt =====
-- Renames of the inotify watcher (src/core/InotifyWatcher.cpp) on concrete input.
use libfilewatch.Base.{◌≡◌, refl, true, false, [], ◌∷◌, ◌++◌, nat_eq, text_eq, none, some, inr}
use libfilewatch.Base.Dict
use libfilewatch.Base.Dict.{lookup}
use libfilewatch.Event.{rename, file_event_from}
use libfilewatch.Inotify.{Inotify, new_inotify, flag_at}
use libfilewatch.Inotify.Events.{
  Mask, InotifyEvent, type_of, event_path, cover, process_event, process_buffer,
}
use libfilewatch.Inotify.Rename.{IsMoveFrom, IsMoveTo, rename_paired}
use libfilewatch.Tests.Instances.{counting, path_a, path_b}

-- "/a" and "/b" are watched, under the descriptors 1 and 2.
abbrev tree : Inotify counting
tree = record (new_inotify {K = counting} 3 (some 3) (some 4) (some 5)) {
  watch_map = (1, path_a) ∷ (2, path_b) ∷ [];
  path_watch_map = (path_a, 1) ∷ (path_b, 2) ∷ [];
}

abbrev no_bits : Mask
no_bits = record {
  ignored = false;
  is_dir = false;
  on_create = false;
  close_write = false;
  on_delete = false;
  delete_self = false;
  moved_from = false;
  moved_to = false;
}

abbrev leaves : InotifyEvent
leaves = record {
  wd = 1;
  cookie = 9;
  mask = record no_bits { moved_from = true };
  name = some (120 ∷ []);
}

abbrev written : InotifyEvent
written = record {
  wd = 2;
  cookie = 0;
  mask = record no_bits { close_write = true };
  name = some (121 ∷ []);
}

abbrev arrives : InotifyEvent
arrives = record {
  wd = 2;
  cookie = 9;
  mask = record no_bits { moved_to = true };
  name = some (122 ∷ []);
}

leaves-IsMoveFrom : IsMoveFrom leaves
leaves-IsMoveFrom = record { from = refl; only = (refl, refl, refl, refl, refl) }

arrives-IsMoveTo : IsMoveTo arrives
arrives-IsMoveTo = record { to = refl; only = (refl, refl, refl, refl, refl, refl) }

rename_paired_example :
    let first = process_event 1 leaves tree in
    let t = (process_buffer 1 (written ∷ []) first.1).1 in
    let last = process_event 1 arrives t in
    let path = event_path path_b arrives in
    (first.0 ≡ [])
    × (last.0
        ≡ (cover 1 arrives path
            (flag_at 2 t.watch_recursive)
            (record t { rename_map = Dict.erase 9 t.rename_map })).0
          ++ file_event_from rename path
              (type_of arrives)
              (event_path path_a leaves)
              (type_of leaves)
            ∷ [])
    × (lookup 9 last.1.rename_map ≡ none)
unfolding process_buffer nat_eq
rename_paired_example =
    rename_paired 1 leaves arrives (written ∷ []) path_a path_b tree leaves-IsMoveFrom
      arrives-IsMoveTo refl (inr (refl, refl), tt) refl refl
