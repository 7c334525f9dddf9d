-- ===== src/Tests/OnMac.antt =====
-- The macOS watcher (src/core/MacOSWatcher.cpp) on concrete input.
use libfilewatch.Base.{
  ℕ, ◌+◌, ◌≡◌, ◌≢◌, ◌↔◌, refl, true, false, List, [], ◌∷◌, ◌++◌, In, Nodup, contains, nat_eq,
  text_eq, some, arith,
}
use libfilewatch.Base.Dict.{lookup, has_key}
use libfilewatch.Path.{FilePath}
use libfilewatch.Event.{PathType, file, directory, delete, file_event}
use libfilewatch.Known.{Known, is_path_prefix_of, has_seen_path, get_known_path_type}
use libfilewatch.Snapshot.{DirectChildSnapshot, diff_directory_snapshot}
use libfilewatch.FsEvents.{
  Typed, Flags, Batch, delete_events, flagged_type, on_flagged, process_fs_events,
}
use libfilewatch.FsEvents.Deleted.{Descending, removed_directory_reported}
use libfilewatch.FsEvents.Matched.{IsMatched, process_fs_events-IsMatched}
use libfilewatch.Kqueue.{Kq, KqItem, Kqueue, scan_direct_children}
use libfilewatch.Kqueue.Handle.{Kevent, handle_kevent}
use libfilewatch.Kqueue.Synced.{written_directory_synced}
use libfilewatch.Mac.{MacOs, Mac, add_watch, remove_watch}
use libfilewatch.Mac.Blocked.{HangsIf, running_blocks}
use libfilewatch.Tests.Instances.{path_a, path_b}
use libfilewatch.Tests.Sorting.{empty_files, empty_files-IsSorting}

-- "/a/x" and "/a/x/y"
abbrev pub path_ax : FilePath
path_ax = 47 ∷ 97 ∷ 47 ∷ 120 ∷ []

abbrev path_axy : FilePath
path_axy = 47 ∷ 97 ∷ 47 ∷ 120 ∷ 47 ∷ 121 ∷ []

abbrev pub tree : Known
tree = record {
  known_paths = path_a ∷ path_ax ∷ path_axy ∷ path_b ∷ [];
  known_path_types =
      (path_a, directory) ∷ (path_ax, directory) ∷ (path_axy, file) ∷ (path_b, file) ∷ [];
}

abbrev gone : Flags
gone = record {
  is_dir = true;
  is_file = false;
  removed = true;
  renamed = false;
  created = false;
  modified = false;
  inode_meta_mod = false;
  finder_info_mod = false;
  change_owner = false;
  xattr_mod = false;
}

abbrev start_batch : Batch
start_batch = record { known = tree; pending = []; batch = [] }

removed_directory_reported_example :
    let r = on_flagged empty_files path_a gone start_batch in
    (ds : List Typed) × (r.batch
      ≡ start_batch.batch ++ delete_events ds ++ file_event delete path_a directory ∷ [])
    × Nodup ds
    × Descending ds
    × ((p : FilePath) (t : PathType)
        → In (p, t) ds ↔ (
            (get_known_path_type p tree ≡ some t)
            × (p ≢ path_a)
            × (is_path_prefix_of path_a p ≡ true)))
    × ((q : FilePath) → is_path_prefix_of path_a q ≡ true → has_seen_path q r.known ≡ false)
unfolding flagged_type text_eq nat_eq
removed_directory_reported_example =
    removed_directory_reported empty_files path_a gone start_batch empty_files-IsSorting
      (refl, (refl, (refl, (refl, tt)))) refl refl

tree-IsMatched : IsMatched tree
tree-IsMatched = record { single = ground arith; same = λ p. ground arith }

process_fs_events-IsMatched_example :
    IsMatched (process_fs_events empty_files ((path_ax, gone) ∷ []) tree).1
process_fs_events-IsMatched_example =
    process_fs_events-IsMatched empty_files ((path_ax, gone) ∷ []) tree tree-IsMatched

abbrev pub small : DirectChildSnapshot
small = record { path_type = file; mtime = 1; size = 2 }

-- Each directory holds the file "x".
abbrev pub one_file : Kq
one_file = record {
  State = ℕ;
  open_fd = λ p n. (some n, n + 1);
  close_fd = λ fd n. n;
  kevent = λ fd b n. n;
  list_dir = λ p n. some ((120 ∷ []) ∷ []);
  lstat = λ p n. some small;
}

abbrev pub item_a : KqItem
item_a = record {
  path = path_a;
  fd = some 5;
  is_directory = true;
  children = [];
  child_file_fds = [];
}

abbrev pub watching_a : Kqueue one_file
watching_a = record {
  system = 6;
  kq_fd = some 4;
  items = (1, item_a) ∷ [];
  next_item = 2;
  watches = (path_a, 1) ∷ [];
  fd_map = (5, 1) ∷ [];
  child_fd_to_path = [];
  pending_events = [];
  wakeups = 0;
}

abbrev pub written : Kevent
written = record {
  ident = 5;
  note_write = true;
  note_extend = false;
  note_attrib = false;
  note_delete = false;
  note_rename = false;
}

written_directory_synced_example :
    let found = scan_direct_children one_file path_a 6 in
    let t = handle_kevent written watching_a in
    (t.pending_events ≡ [] ++ (diff_directory_snapshot [] found).0)
    × ((item' : KqItem) × (lookup 1 t.items ≡ some item')
        × (item'.children ≡ found)
        × ((p : FilePath) (cfd : ℕ)
            → lookup p item'.child_file_fds ≡ some cfd
            → has_key p found ≡ true))
unfolding nat_eq
written_directory_synced_example =
    written_directory_synced {K = one_file} 1 4 item_a written watching_a refl refl refl refl refl
      refl refl

abbrev pub mac : MacOs
mac = record {
  kq = one_file;
  files = record empty_files { stat_dir = λ p. some true };
  readable = λ p. true;
  stream_opens = λ ps. true;
}

abbrev pub running_mac : Mac mac
running_mac = record {
  kqueue = watching_a;
  known = tree;
  fsevents_watch_list = path_b ∷ [];
  has_stream = true;
  running = true;
  mutex_held = false;
}

running_blocks_example :
    HangsIf
      ((running_mac.running ≡ true)
        × (mac.files.stat_dir path_b ≡ some true)
        × (mac.readable path_b ≡ true)
        × (true ≡ true))
      (add_watch 3 path_b true running_mac)
    × HangsIf
        ((running_mac.running ≡ true) × (contains running_mac.fsevents_watch_list path_b ≡ true))
        (remove_watch path_b running_mac)
running_blocks_example = running_blocks {M = mac} 3 path_b true running_mac refl
