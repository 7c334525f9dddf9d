-- ===== src/Tests/Mac.antt =====
-- The tables of the macOS watcher (src/core/MacOSWatcher.cpp) on concrete input.
use libfilewatch.Base.{◌≡◌, [], ◌∷◌, nat_eq, text_eq}
use libfilewatch.Base.Dict.{has_key}
use libfilewatch.Path.{FilePath}
use libfilewatch.Event.{file, directory}
use libfilewatch.Snapshot.{DirectChildSnapshot, Snapshot, diff_directory_snapshot}
use libfilewatch.Snapshot.Replay.{replay, replay-diff_directory_snapshot}
use libfilewatch.Known.{Known}
use libfilewatch.Tests.Instances.{path_a, path_b, path_c}

abbrev small_file : DirectChildSnapshot
small_file = record { path_type = file; mtime = 10; size = 3 }

abbrev grown_file : DirectChildSnapshot
grown_file = record { path_type = file; mtime = 12; size = 9 }

-- "/a" is renamed to "/b", and "/c" is written.
abbrev before : Snapshot
before = (path_a, small_file) ∷ (path_c, small_file) ∷ []

abbrev later : Snapshot
later = (path_c, grown_file) ∷ (path_b, small_file) ∷ []

replay-diff_directory_snapshot_example :
    let r = diff_directory_snapshot before later in
    (replay r.0 (λ q. has_key q before) path_b ≡ has_key path_b later) × (r.1 ≡ later)
replay-diff_directory_snapshot_example = replay-diff_directory_snapshot before later path_b

-- "/a/x"
abbrev path_ax : FilePath
path_ax = 47 ∷ 97 ∷ 47 ∷ 120 ∷ []

abbrev seen : Known
seen = record {
  known_paths = path_a ∷ path_ax ∷ path_b ∷ [];
  known_path_types = (path_a, directory) ∷ (path_ax, file) ∷ (path_b, file) ∷ [];
}
