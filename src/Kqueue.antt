-- ===== src/Kqueue.antt =====
-- The half of `MacOSWatcher` for single directories and files (src/core/MacOSWatcher.cpp): the items
-- that kqueue watches, each with a descriptor of its own and one for each file in its directory. The
-- system's calls are the parameter `Kq`. The items stand on a heap under addresses; the tables hold
-- shared pointers, so that no item goes while a table has it. A descriptor of -1 is `none`.
pub mod Handle
pub mod Synced
use libfilewatch.Base.{
  ℕ, ◌+◌, Bool, true, false, not, ◌&&◌, ◌||◌, List, [], ◌∷◌, ◌++◌, is_empty, if◌then◌else◌, Eq,
  ◌==◌, nat_eq, text_eq, Option, none, some,
}
use libfilewatch.Base.Dict
use libfilewatch.Base.Dict.{Dict, lookup, has_key}
use libfilewatch.Path.{FilePath, dot}
use libfilewatch.Event.{PathType, file, same_path_type, FileEvent}
use libfilewatch.Snapshot.{DirectChildSnapshot, Snapshot}
use libfilewatch.FsEvents.{child_of}

-- `open_fd` opens a path for events; `kevent` registers a descriptor or, with false, takes it off the
-- queue; `list_dir` and `lstat` are as the code reads them.
pub record Kq : Type 1 where
  pub State : Type 0
  pub open_fd : FilePath → State → Option ℕ × State
  pub close_fd : ℕ → State → State
  pub kevent : ℕ → Bool → State → State
  pub list_dir : FilePath → State → Option (List FilePath)
  pub lstat : FilePath → State → Option DirectChildSnapshot

pub record KqItem : Type 0 where
  pub path : FilePath
  pub fd : Option ℕ
  pub is_directory : Bool
  pub children : Snapshot
  pub child_file_fds : Dict FilePath ℕ

pub record Kqueue (K : Kq) : Type 0 where
  pub system : K.State
  pub kq_fd : Option ℕ
  pub items : Dict ℕ KqItem
  pub next_item : ℕ
  pub watches : Dict FilePath ℕ
  pub fd_map : Dict ℕ ℕ
  pub child_fd_to_path : Dict ℕ FilePath
  pub pending_events : List FileEvent
  pub wakeups : ℕ

abbrev pub is_open : Option ℕ → Bool
is_open o = elim o [ some _ ↦ true | none ↦ false ]

module _ (K : Kq) where
  -- The loop over the entries of a directory; a map of the standard library keeps the last value of a
  -- key.
  unfoldable pub scan_entries : FilePath → List FilePath → K.State → Snapshot → Snapshot
  unfolding Dict.insert
  scan_entries dir [] k snapshot = snapshot
  scan_entries dir (name ∷ names) k snapshot =
      let path = child_of dir name in
      let skipped = scan_entries dir names k snapshot in
      if name == dot ∷ [] || name == dot ∷ dot ∷ [] then skipped else elim (K.lstat path k) [
        | none ↦ skipped
        | some snap ↦ scan_entries dir names k (Dict.insert path snap snapshot)
      ]

  unfoldable pub scan_direct_children : FilePath → K.State → Snapshot
  unfolding scan_entries
  scan_direct_children dir k = elim (K.list_dir dir k) [
    | none ↦ []
    | some names ↦ scan_entries dir names k []
  ]

module _ {K : Kq} where
  abbrev pub change : ℕ → Bool → Kqueue K → Kqueue K
  change fd add s = record s { system = K.kevent fd add s.system }

  -- The first loop of `syncDirectChildFileWatches`, over the children; the item goes along.
  unfoldable pub open_children : ℕ → Snapshot → KqItem × Kqueue K → KqItem × Kqueue K
  unfolding Dict.insert
  open_children a [] r = r
  open_children a ((path, snap) ∷ children) (item, s) =
      let opened = K.open_fd path s.system in
      let skipped = open_children a children (item, s) in
      if not (same_path_type snap.path_type file) || has_key path item.child_file_fds
      then skipped
      else elim opened.0 [
        | none ↦ open_children a children (item, record s { system = opened.1 })
        | some fd ↦ open_children a children (
          record item { child_file_fds = Dict.insert path fd item.child_file_fds },
          change fd true (record s {
            system = opened.1;
            fd_map = Dict.insert fd a s.fd_map;
            child_fd_to_path = Dict.insert fd path s.child_fd_to_path;
          }),
        )
      ]

  -- A descriptor of a file in a directory is given up.
  abbrev pub close_child : ℕ → Kqueue K → Kqueue K
  close_child fd s = record s {
    system = K.close_fd fd s.system;
    fd_map = Dict.erase fd s.fd_map;
    child_fd_to_path = Dict.erase fd s.child_fd_to_path;
  }

  -- The second loop: the descriptors that stay, and the state.
  unfoldable pub close_gone : Snapshot → Dict FilePath ℕ → Kqueue K → Dict FilePath ℕ × Kqueue K
  unfolding Dict.erase
  close_gone children [] s = ([], s)
  close_gone children ((path, fd) ∷ fds) s =
      let rest = close_gone children fds s in
      if has_key path children
      then ((path, fd) ∷ rest.0, rest.1)
      else close_gone children fds (close_child fd (change fd false s))

  -- The item comes as it is now and goes back to its place on the heap.
  unfoldable pub sync_direct_child_file_watches : ℕ → KqItem → Kqueue K → Kqueue K
  unfolding open_children close_gone Dict.insert
  sync_direct_child_file_watches a item s =
      let opened = open_children a item.children (item, s) in
      let closed = close_gone item.children opened.0.child_file_fds opened.1 in
      if not item.is_directory || not (is_open s.kq_fd)
      then record s { items = Dict.insert a item s.items }
      else record closed.1 {
        items = Dict.insert a (record opened.0 { child_file_fds = closed.0 }) closed.1.items;
      }

  unfoldable pub add_kqueue_item : FilePath → Bool → Kqueue K → Bool × Kqueue K
  unfolding scan_direct_children sync_direct_child_file_watches Dict.insert
  add_kqueue_item path is_directory s =
      let opened = K.open_fd path s.system in
      elim opened.0 [
        | none ↦ (false, record s { system = opened.1 })
        | some fd ↦
            let item : KqItem = record {
              path = path;
              fd = some fd;
              is_directory = is_directory;
              children = if is_directory then scan_direct_children K path opened.1 else [];
              child_file_fds = [];
            } in
            let entered : Kqueue K = record s {
              system = opened.1;
              items = Dict.insert s.next_item item s.items;
              next_item = s.next_item + 1;
              watches = Dict.insert path s.next_item s.watches;
              fd_map = Dict.insert fd s.next_item s.fd_map;
            } in
            let registered = change fd true entered in
            if not (is_open s.kq_fd)
            then (true, entered)
            else if is_directory
            then (true, sync_direct_child_file_watches s.next_item item registered)
            else (true, registered)
      ]

  -- The loop over the descriptors of the files in a directory in `removeKqueueItem`.
  unfoldable pub close_children : Dict FilePath ℕ → Kqueue K → Kqueue K
  unfolding Dict.erase
  close_children [] s = s
  close_children ((_, fd) ∷ fds) s =
      close_children fds (close_child fd (if is_open s.kq_fd then change fd false s else s))

  -- The descriptor of an item itself is given up.
  unfoldable pub close_main : Option ℕ → Kqueue K → Kqueue K
  unfolding Dict.erase
  close_main o s = elim o [
    | none ↦ s
    | some fd ↦
        let t = if is_open s.kq_fd then change fd false s else s in
        record t { system = K.close_fd fd t.system; fd_map = Dict.erase fd t.fd_map }
  ]

  unfoldable pub remove_kqueue_item : FilePath → Kqueue K → Bool × Kqueue K
  unfolding close_children close_main Dict.erase Dict.insert
  remove_kqueue_item path s = elim (lookup path s.watches) [
    | none ↦ (false, s)
    | some a ↦ elim (lookup a s.items) [
      | none ↦ (false, s)
      | some item ↦
          let t = close_main item.fd (close_children item.child_file_fds s) in
          (
            true,
            record t {
              items = Dict.insert a (record item { fd = none; child_file_fds = [] }) t.items;
              watches = Dict.erase path t.watches;
            },
          )
    ]
  ]
