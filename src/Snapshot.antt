-- ===== src/Snapshot.antt =====
-- `diffDirectorySnapshot` of the macOS watcher (src/core/MacOSWatcher.cpp): the events that lead from
-- one snapshot of a directory's entries to the next. A snapshot is a map from paths.
pub mod Replay
use libfilewatch.Base.{
  ℕ, Bool, true, false, not, ◌&&◌, ◌||◌, List, [], ◌∷◌, ◌++◌, map, keep, if◌then◌else◌, ◌==◌,
  nat_eq, text_eq, none, some,
}
use libfilewatch.Base.Dict.{Dict, lookup, has_key}
use libfilewatch.Path.{FilePath}
use libfilewatch.Event.{
  create, modify, delete, rename, PathType, file, FileEvent, file_event, file_event_from,
  same_path_type,
}

pub record DirectChildSnapshot : Type 0 where
  pub path_type : PathType
  pub mtime : ℕ
  pub size : ℕ

abbrev pub Snapshot : Type 0
Snapshot = Dict FilePath DirectChildSnapshot

-- The entries of one snapshot that are not in another: `createdPaths` and `deletedPaths`.
abbrev pub unmatched : Snapshot → Snapshot → Snapshot
unmatched here there = keep (λ e. not (has_key e.0 there)) here

abbrev pub created_event : FilePath × DirectChildSnapshot → FileEvent
created_event (p, c) = file_event create p c.path_type

abbrev pub deleted_event : FilePath × DirectChildSnapshot → FileEvent
deleted_event (p, c) = file_event delete p c.path_type

abbrev pub apart_events : Snapshot → Snapshot → List FileEvent
apart_events created deleted = map created_event created ++ map deleted_event deleted

-- A single entry that came and a single one that went, of one type, are a rename.
unfoldable pub entry_events : Snapshot → Snapshot → List FileEvent
entry_events ((p, c) ∷ []) ((q, d) ∷ []) =
    if same_path_type c.path_type d.path_type
    then file_event_from rename p c.path_type q c.path_type ∷ []
    else apart_events ((p, c) ∷ []) ((q, d) ∷ [])
entry_events created deleted = apart_events created deleted

abbrev pub is_changed : DirectChildSnapshot → DirectChildSnapshot → Bool
is_changed new old =
    same_path_type new.path_type file
    && (not (new.mtime == old.mtime) || not (new.size == old.size))

unfoldable pub changed_events : Snapshot → Snapshot → List FileEvent
changed_events old [] = []
changed_events old ((p, c) ∷ new) =
    let rest = changed_events old new in
    elim (lookup p old) [
      | none ↦ rest
      | some d ↦ if is_changed c d then file_event modify p file ∷ rest else rest
    ]

-- The batch, and the snapshot that is kept.
unfoldable pub diff_directory_snapshot : Snapshot → Snapshot → List FileEvent × Snapshot
unfolding entry_events changed_events
diff_directory_snapshot old new =
    (entry_events (unmatched new old) (unmatched old new) ++ changed_events old new, new)
