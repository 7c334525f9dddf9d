-- ===== src/FsEvents/Matched.antt =====
-- The two tables of known paths (src/core/MacOSWatcher.cpp) hold the same paths.
use libfilewatch.Base.{
  ℕ, zero, suc, ◌≡◌, inl, inr, Bool, List, [], ◌∷◌, contains-insert, nat_eq, text_eq, Option-cases,
  arith,
}
use libfilewatch.Base.Dict
use libfilewatch.Base.Dict.{Dict, lookup, has_key, Unique}
use libfilewatch.Path.{FilePath}
use libfilewatch.Event.{PathType, file, directory}
use libfilewatch.Known.{Known, remember_path, forget_path, has_seen_path}
use libfilewatch.Known.Forget.{forget_path_lem}
use libfilewatch.FsEvents.{
  Typed, FileSystem, Flags, Batch, child_of, remember_entries, remember_existing_path_tree,
  take_source, flagged_type, on_removed, on_renamed, on_flagged, flag_rounds, flush_sources,
  process_fs_events,
}

pub record IsMatched (s : Known) : Type 0 where
  pub single : Unique s.known_path_types
  pub same : (p : FilePath) → has_seen_path p s ≡ has_key p s.known_path_types

remember_path-IsMatched :
    (p : FilePath) (t : PathType) (s : Known) → IsMatched s → IsMatched (remember_path p t s)
unfolding remember_path
remember_path-IsMatched p t s m = record {
  single = Dict.insert-Unique p t s.known_path_types m.single;
  same = λ q. ground (
    arith,
    contains-insert p q s.known_paths,
    Dict.lookup-insert p q t s.known_path_types,
    m.same q,
  );
}

forget_path-Unique :
    (p : FilePath) (s : Known)
    → Unique s.known_path_types
    → Unique (forget_path p s).known_path_types
unfolding forget_path
forget_path-Unique p s u =
    Dict.retain-Unique _ (Dict.erase p s.known_path_types)
      (Dict.erase-Unique p s.known_path_types u)

forget_path-IsMatched : (p : FilePath) (s : Known) → IsMatched s → IsMatched (forget_path p s)
forget_path-IsMatched p s m = record {
  single = forget_path-Unique p s m.single;
  same = λ q. ground (arith, forget_path_lem p q s m.single, m.same q);
}

abbrev Matches : Batch → Type 0
Matches b = IsMatched b.known

remember_entries-IsMatched :
    (down : FilePath → Known → Known)
    → ((p : FilePath) (s : Known) → IsMatched s → IsMatched (down p s))
    → (path : FilePath) (names : List FilePath) (s : Known) → IsMatched s
    → IsMatched (remember_entries down path names s)
unfolding remember_entries
remember_entries-IsMatched down keeps path [] s m = m
remember_entries-IsMatched down keeps path (n ∷ names) s m = ground (
  arith,
  remember_entries-IsMatched down keeps path names s m,
  remember_entries-IsMatched down keeps path names (down (child_of path n) s)
      (keeps (child_of path n) s m),
)

module _ (F : FileSystem) where
  on_removed-Matches :
      (p : FilePath) (t : PathType) (b : Batch) → Matches b → Matches (on_removed F p t b)
  unfolding on_removed
  on_removed-Matches p t b m = ground (arith, forget_path-IsMatched p b.known m)

  on_renamed-Matches :
      (p : FilePath) (t : PathType) (seen : Bool) (b : Batch)
      → Matches b
      → Matches (on_renamed F p t seen b)
  unfolding on_renamed
  on_renamed-Matches p t seen b m = elim (Option-cases (take_source t b.pending)) [
    | inl e ↦ ground (arith, remember_path-IsMatched p t b.known m)
    | inr ((old, others), e) ↦ ground (
      arith,
      remember_path-IsMatched p t b.known m,
      remember_path-IsMatched p t (forget_path old.0 b.known)
          (forget_path-IsMatched old.0 b.known m),
    )
  ]

  on_flagged-Matches :
      (p : FilePath) (flags : Flags) (b : Batch) → Matches b → Matches (on_flagged F p flags b)
  unfolding on_flagged
  on_flagged-Matches p flags b m =
      let t = flagged_type F p flags b.known in
      ground (
        arith,
        on_removed-Matches p t b m,
        on_renamed-Matches p t (has_seen_path p b.known) b m,
        remember_path-IsMatched p t b.known m,
      )

  flag_rounds-Matches :
      (items : List (FilePath × Flags)) (b : Batch) → Matches b → Matches (flag_rounds F items b)
  unfolding flag_rounds
  flag_rounds-Matches [] b m = m
  flag_rounds-Matches ((p, flags) ∷ items) b m =
      flag_rounds-Matches items (on_flagged F p flags b) (on_flagged-Matches p flags b m)

  flush_sources-Matches : (es : List Typed) (b : Batch) → Matches b → Matches (flush_sources F es b)
  unfolding flush_sources
  flush_sources-Matches [] b m = m
  flush_sources-Matches ((p, t) ∷ es) b m =
      flush_sources-Matches es _ (forget_path-IsMatched p b.known m)

  -- A batch of flagged paths, whatever the flags and the file system say, leaves the set of known
  -- paths and the map of their types with the same paths, and no path with two types.
  pub process_fs_events-IsMatched :
      (items : List (FilePath × Flags)) (s : Known)
      → IsMatched s
      → IsMatched (process_fs_events F items s).1
  unfolding process_fs_events
  process_fs_events-IsMatched items s m =
      let b : Batch = record { known = s; pending = []; batch = [] } in
      flush_sources-Matches (flag_rounds F items b).pending (flag_rounds F items b)
        (flag_rounds-Matches items b m)

  -- The walk over a tree that exists, however deep, keeps the two tables so, too.
  pub remember_existing_path_tree-IsMatched :
      (f : ℕ) (path : FilePath) (s : Known)
      → IsMatched s
      → IsMatched (remember_existing_path_tree F f path s)
  unfolding remember_existing_path_tree
  remember_existing_path_tree-IsMatched zero path s m = m
  remember_existing_path_tree-IsMatched (suc f) path s m = elim (Option-cases (F.list_dir path)) [
    | inl e ↦
        ground
          (arith, remember_path-IsMatched path file s m, remember_path-IsMatched path directory s m)
    | inr (names, e) ↦ ground (
      arith,
      remember_path-IsMatched path file s m,
      remember_entries-IsMatched (remember_existing_path_tree F f)
          (λ p t h. remember_existing_path_tree-IsMatched f p t h) path names
          (remember_path path directory s) (remember_path-IsMatched path directory s m),
    )
  ]
