-- ===== src/FsEvents.antt =====
-- The recursive half of `MacOSWatcher` (src/core/MacOSWatcher.cpp): `rememberExistingPathTree`,
-- `collectKnownDescendantsForDelete` and `processFSEvents` over a batch of flagged paths. The calls of
-- `stat` and `opendir` and `std::sort` are parameters; the file system stands still within a batch.
pub mod Deleted
pub mod Matched
use libfilewatch.Base.{
  ℕ, zero, suc, Bool, true, false, not, ◌&&◌, ◌||◌, List, [], ◌∷◌, ◌++◌, map, keep, length,
  is_empty, if◌then◌else◌, ltb, ◌==◌, nat_eq, text_eq, Option, none, some,
}
use libfilewatch.Path.{FilePath, slash, dot, back}
use libfilewatch.Event.{
  EventType, create, modify, delete, rename, PathType, file, directory, FileEvent, file_event,
  file_event_from, same_type, same_path_type,
}
use libfilewatch.Known.{
  Known, is_path_prefix_of, remember_path, forget_path, has_seen_path, get_known_path_type,
}

abbrev pub Typed : Type 0
Typed = FilePath × PathType

-- `stat_dir` says whether the path exists and whether it is a directory, `list_dir` are the names that
-- `opendir` and `readdir` give, `sort` is `std::sort` by a comparison.
pub record FileSystem : Type 0 where
  pub stat_dir : FilePath → Option Bool
  pub list_dir : FilePath → Option (List FilePath)
  pub sort : (Typed → Typed → Bool) → List Typed → List Typed

-- The flags that the code tests.
pub record Flags : Type 0 where
  pub is_dir : Bool
  pub is_file : Bool
  pub removed : Bool
  pub renamed : Bool
  pub created : Bool
  pub modified : Bool
  pub inode_meta_mod : Bool
  pub finder_info_mod : Bool
  pub change_owner : Bool
  pub xattr_mod : Bool

unfoldable pub path_length_desc : Typed → Typed → Bool
path_length_desc a b =
    if not (length a.0 == length b.0)
    then ltb (length b.0) (length a.0)
    else same_path_type a.1 file && same_path_type b.1 directory

abbrev pub is_descendant : FilePath → Typed → Bool
is_descendant dir e = not (e.0 == dir) && is_path_prefix_of dir e.0

abbrev pub delete_events : List Typed → List FileEvent
delete_events = map (λ e. file_event delete e.0 e.1)

abbrev pub child_of : FilePath → FilePath → FilePath
child_of path name =
    if not (is_empty path) && not (back path == slash) then path ++ slash ∷ name else path ++ name

-- The first source of a type, and the sources without it.
unfoldable pub take_source : PathType → List Typed → Option (Typed × List Typed)
take_source t [] = none
take_source t (e ∷ es) =
    let rest = take_source t es in
    if same_path_type e.1 t
    then some (e, es)
    else elim rest [ some r ↦ some (r.0, e ∷ r.1) | none ↦ none ]

-- The locals of the loop that outlast a round, and the table.
pub record Batch : Type 0 where
  pub known : Known
  pub pending : List Typed
  pub batch : List FileEvent

-- The loop over the entries of a directory; `down` is the call on one of them.
unfoldable pub remember_entries :
    (FilePath → Known → Known) → FilePath → List FilePath → Known → Known
remember_entries down path [] s = s
remember_entries down path (name ∷ names) s =
    if name == dot ∷ [] || name == dot ∷ dot ∷ []
    then remember_entries down path names s
    else remember_entries down path names (down (child_of path name) s)

-- The end of a round: a directory's modification is dropped.
abbrev pub emit : EventType → FilePath → PathType → Typed → Batch → Batch
emit e path t old b =
    if same_path_type t directory && same_type e modify
    then b
    else record b { batch = b.batch ++ file_event_from e path t old.0 old.1 ∷ [] }

-- No old path, which the code takes for a file.
abbrev pub nowhere : Typed
nowhere = ([], file)

abbrev pub remembered : FilePath → PathType → Batch → Batch
remembered path t b = record b { known = remember_path path t b.known }

module _ (F : FileSystem) where
  unfoldable pub collect_known_descendants : FilePath → Known → List Typed
  unfolding is_path_prefix_of path_length_desc
  collect_known_descendants dir s =
      F.sort path_length_desc (keep (is_descendant dir) s.known_path_types)

  -- The fuel bounds the depth of the tree.
  unfoldable pub remember_existing_path_tree : ℕ → FilePath → Known → Known
  unfolding remember_entries remember_path
  remember_existing_path_tree zero path s = s
  remember_existing_path_tree (suc f) path s = elim (F.stat_dir path) [
    | none ↦ s
    | some false ↦ remember_path path file s
    | some true ↦ elim (F.list_dir path) [
      | none ↦ remember_path path directory s
      | some names ↦
          remember_entries (remember_existing_path_tree f) path names
            (remember_path path directory s)
    ]
  ]

  -- The type of a path, from its flags, what is there, or what is known.
  unfoldable pub flagged_type : FilePath → Flags → Known → PathType
  flagged_type path flags s =
      let known : PathType = elim (get_known_path_type path s) [ some t ↦ t | none ↦ file ] in
      let found : PathType = elim (F.stat_dir path) [
        | some true ↦ directory
        | some false ↦ known
        | none ↦ known
      ] in
      if flags.is_dir then directory else if flags.is_file then file else found

  abbrev pub deleted_descendants : FilePath → PathType → Known → List FileEvent
  deleted_descendants path t s =
      if same_path_type t directory then delete_events (collect_known_descendants path s) else []

  unfoldable pub on_removed : FilePath → PathType → Batch → Batch
  unfolding collect_known_descendants forget_path
  on_removed path t b = emit delete path t nowhere (record b {
    known = forget_path path b.known;
    batch = b.batch ++ deleted_descendants path t b.known;
  })

  unfoldable pub on_renamed : FilePath → PathType → Bool → Batch → Batch
  unfolding take_source forget_path remember_path
  on_renamed path t seen b = elim (F.stat_dir path) [
    | none ↦ record b { pending = b.pending ++ (path, t) ∷ [] }
    | some _ ↦
        if seen
        then emit rename path t nowhere (remembered path t b)
        else elim (take_source t b.pending) [
          | none ↦ emit create path t nowhere (remembered path t b)
          | some (old, others) ↦
              emit rename path t old (
                remembered path t
                  (record b { known = forget_path old.0 b.known; pending = others }))
        ]
  ]

  -- One round of the loop.
  unfoldable pub on_flagged : FilePath → Flags → Batch → Batch
  unfolding flagged_type on_removed on_renamed remember_path
  on_flagged path flags b =
      let seen = has_seen_path path b.known in
      let t = flagged_type path flags b.known in
      if flags.removed
      then on_removed path t b
      else if flags.renamed
      then on_renamed path t seen b
      else if flags.created
      then emit (if seen then modify else create) path t nowhere (remembered path t b)
      else if flags.modified || flags.inode_meta_mod || flags.finder_info_mod || flags.change_owner
          || flags.xattr_mod
      then emit modify path t nowhere (remembered path t b)
      else emit modify path t nowhere b

  unfoldable pub flag_rounds : List (FilePath × Flags) → Batch → Batch
  unfolding on_flagged
  flag_rounds [] b = b
  flag_rounds ((path, flags) ∷ items) b = flag_rounds items (on_flagged path flags b)

  -- The loop over the sources that found no target.
  unfoldable pub flush_sources : List Typed → Batch → Batch
  unfolding collect_known_descendants forget_path
  flush_sources [] b = b
  flush_sources ((path, t) ∷ es) b = flush_sources es (record b {
    known = forget_path path b.known;
    batch = b.batch ++ deleted_descendants path t b.known ++ file_event delete path t ∷ [];
  })

  -- What is pushed to the main thread, and the table.
  unfoldable pub process_fs_events : List (FilePath × Flags) → Known → List FileEvent × Known
  unfolding flag_rounds flush_sources
  process_fs_events items s =
      let b = flag_rounds items (record { known = s; pending = []; batch = [] }) in
      let r = flush_sources b.pending b in (r.batch, r.known)
