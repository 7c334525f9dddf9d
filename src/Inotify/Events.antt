-- ===== src/Inotify/Events.antt =====
-- `processEvent`, `emitCreateEventsForExistingEntries` and the loop over a buffer in `watchLoop` of
-- src/core/InotifyWatcher.cpp. The calls of the callback are the list of events that a step returns,
-- in order. A mask is a record of the bits that the code tests.
use libfilewatch.Base.{
  ℕ, zero, suc, Bool, true, false, ◌&&◌, ◌||◌, List, [], ◌∷◌, ◌++◌, keep, erase, if◌then◌else◌,
  nat_eq, text_eq, Option, none, some,
}
use libfilewatch.Base.Dict
use libfilewatch.Base.Dict.{Dict, lookup}
use libfilewatch.Path.{FilePath, slash}
use libfilewatch.Event.{
  create, modify, delete, rename, PathType, file, directory, FileEvent, file_event, file_event_from,
}
use libfilewatch.Inotify.{
  Kernel, RootWatch, RenameInfo, Inotify, is_dots, child_path, flag_at, roots_at,
  add_recursive_watches,
}

pub record Mask : Type 0 where
  pub ignored : Bool
  pub is_dir : Bool
  pub on_create : Bool
  pub close_write : Bool
  pub on_delete : Bool
  pub delete_self : Bool
  pub moved_from : Bool
  pub moved_to : Bool

-- `struct inotify_event`; an empty `name` is a `len` of 0.
pub record InotifyEvent : Type 0 where
  pub wd : ℕ
  pub cookie : ℕ
  pub mask : Mask
  pub name : Option FilePath

abbrev pub type_of : InotifyEvent → PathType
type_of ev = if ev.mask.is_dir then directory else file

abbrev pub event_path : FilePath → InotifyEvent → FilePath
event_path base ev = elim ev.name [ some n ↦ base ++ slash ∷ n | none ↦ base ]

-- Each root of a descriptor that is gone loses it.
unfoldable pub unlink : ℕ → List FilePath → Dict FilePath RootWatch → Dict FilePath RootWatch
unfolding Dict.insert
unlink wd [] d = d
unlink wd (r ∷ rs) d =
    let absent = unlink wd rs d in
    elim (lookup r d) [
      | none ↦ absent
      | some w ↦
          unlink wd rs (Dict.insert r (record w { associated_wds = erase wd w.associated_wds }) d)
    ]

module _ {K : Kernel} where
  -- The fuel bounds the depth of the tree below the path.
  unfoldable pub list_creates :
      (FilePath → List FileEvent) → Inotify K → FilePath → List FilePath → List FileEvent
  list_creates down s path [] = []
  list_creates down s path (name ∷ names) =
      let child = child_path path name in
      let rest = list_creates down s path names in
      if is_dots name then rest else elim (K.stat_dir s.kernel child) [
        | none ↦ rest
        | some true ↦ file_event create child directory ∷ down child ++ rest
        | some false ↦ file_event create child file ∷ rest
      ]

  unfoldable pub emit_create_events : ℕ → Inotify K → FilePath → List FileEvent
  unfolding list_creates
  emit_create_events zero s path = []
  emit_create_events (suc f) s path = elim (K.list_dir s.kernel path) [
    | none ↦ []
    | some names ↦ list_creates (emit_create_events f s) s path names
  ]

  unfoldable pub drop_ignored : ℕ → Inotify K → Inotify K
  unfolding Dict.erase unlink
  drop_ignored wd s = record s {
    path_watch_map = elim (lookup wd s.watch_map) [
      | some p ↦ Dict.erase p s.path_watch_map
      | none ↦ s.path_watch_map
    ];
    watch_map = Dict.erase wd s.watch_map;
    watch_recursive = Dict.erase wd s.watch_recursive;
    root_watches = unlink wd (roots_at wd s.wd_to_roots) s.root_watches;
    wd_to_roots = Dict.erase wd s.wd_to_roots;
  }

  -- The recursive roots that hold a descriptor, and the calls for each of them.
  abbrev pub is_recursive_root : Inotify K → FilePath → Bool
  is_recursive_root s r = elim (lookup r s.root_watches) [ some w ↦ w.recursive | none ↦ false ]

  abbrev pub recursive_roots : ℕ → Inotify K → List FilePath
  recursive_roots wd s = keep (is_recursive_root s) (roots_at wd s.wd_to_roots)

  unfoldable pub add_for_roots : ℕ → FilePath → List FilePath → Inotify K → Inotify K
  unfolding add_recursive_watches
  add_for_roots f path [] s = s
  add_for_roots f path (r ∷ rs) s = add_for_roots f path rs (add_recursive_watches f path r s)

  -- What is done for a directory that appears under a recursive watch: the events for what it
  -- holds, and the state with its watches.
  unfoldable pub cover : ℕ → InotifyEvent → FilePath → Bool → Inotify K → List FileEvent × Inotify K
  unfolding add_for_roots emit_create_events
  cover f ev path recursive s =
      let t = add_for_roots f path (recursive_roots ev.wd s) s in
      if ev.mask.is_dir && recursive then (emit_create_events f t path, t) else ([], s)

  unfoldable pub move_to :
      ℕ → InotifyEvent → FilePath → Bool → Inotify K → List FileEvent × Inotify K
  unfolding cover Dict.erase
  move_to f ev path recursive s =
      let paired =
        cover f ev path recursive (record s { rename_map = Dict.erase ev.cookie s.rename_map }) in
      let alone = cover f ev path recursive s in
      elim (lookup ev.cookie s.rename_map) [
        | some i ↦ (
          paired.0 ++ file_event_from rename path (type_of ev) i.old_path i.old_path_type ∷ [],
          paired.1,
        )
        | none ↦ (alone.0 ++ file_event create path (type_of ev) ∷ [], alone.1)
      ]

  -- `processEvent` once the descriptor's path is known.
  unfoldable pub report :
      ℕ → InotifyEvent → FilePath → Bool → Inotify K → List FileEvent × Inotify K
  unfolding cover move_to Dict.insert
  report f ev path recursive s =
      let below = cover f ev path recursive s in
      let info : RenameInfo = record { old_path = path; old_path_type = type_of ev } in
      if ev.mask.on_create
      then (below.0 ++ file_event create path (type_of ev) ∷ [], below.1)
      else if ev.mask.close_write
      then (file_event modify path (type_of ev) ∷ [], s)
      else if ev.mask.on_delete || ev.mask.delete_self
      then (file_event delete path (type_of ev) ∷ [], s)
      else if ev.mask.moved_from
      then ([], record s { rename_map = Dict.insert ev.cookie info s.rename_map })
      else if ev.mask.moved_to
      then move_to f ev path recursive s
      else (file_event create path (type_of ev) ∷ [], s)

  unfoldable pub process_event : ℕ → InotifyEvent → Inotify K → List FileEvent × Inotify K
  unfolding drop_ignored report
  process_event f ev s =
      if ev.mask.ignored then ([], drop_ignored ev.wd s) else elim (lookup ev.wd s.watch_map) [
        | none ↦ ([], s)
        | some base ↦ report f ev (event_path base ev) (flag_at ev.wd s.watch_recursive) s
      ]

  -- The events of a buffer, one after the other.
  unfoldable pub process_buffer : ℕ → List InotifyEvent → Inotify K → List FileEvent × Inotify K
  unfolding process_event
  process_buffer f [] s = ([], s)
  process_buffer f (ev ∷ evs) s =
      let first = process_event f ev s in
      let rest = process_buffer f evs first.1 in (first.0 ++ rest.0, rest.1)
