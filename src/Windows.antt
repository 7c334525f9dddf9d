-- ===== src/Windows.antt =====
-- `WindowsWatcher` (src/core/WindowsWatcher.cpp): its watches. The calls of the Windows API are the
-- parameter `Win32`. The items stand on a heap under their addresses, which are the completion keys;
-- none is 0 or the key of the wake-up packet, and an item is gone when its last owner is. An address
-- that was in use is not given again, so that a packet for an item that is gone can be told from one
-- for another item. An invalid handle is `none`.
pub mod Notify
pub mod Loop
pub mod Layout
pub mod RoundTrip
pub mod Renames
pub mod Items
pub mod Runs
use libfilewatch.Base.{
  ℕ, ◌+◌, Bool, true, false, not, ◌||◌, ◌&&◌, List, [], ◌∷◌, ◌++◌, is_empty, if◌then◌else◌, Eq,
  ◌==◌, nat_eq, text_eq, Option, none, some,
}
use libfilewatch.Base.Dict
use libfilewatch.Base.Dict.{Dict, lookup}
use libfilewatch.Path.{FilePath, slash, backslash, back}
use libfilewatch.Event.{PathType, file, directory}
use libfilewatch.Encoding.{WideApi, utf8_to_utf16}
use libfilewatch.PathUtils.OnWindows.{normalize_windows, is_directory_windows}

-- `create_file` gives a handle, `associate` ties a handle to a completion port under a key, and
-- `read_changes` asks for the changes of a directory, with those below it or without: it fails unless
-- `ReadDirectoryChangesW` succeeds or is pending.
pub record Win32 : Type 1 where
  pub wide : WideApi
  pub create_file : List ℕ → wide.State → Option ℕ × wide.State
  pub associate : ℕ → ℕ → ℕ → wide.State → Bool × wide.State
  pub read_changes : ℕ → Bool → wide.State → Bool × wide.State
  pub cancel_io : ℕ → wide.State → wide.State
  pub close_handle : ℕ → wide.State → wide.State

pub record WatchItem : Type 0 where
  pub path : FilePath
  pub recursive : Bool
  pub h_dir : Option ℕ

pub record RenameInfo : Type 0 where
  pub old_path : FilePath
  pub old_path_type : PathType

pub record Windows (E : Win32) : Type 0 where
  pub system : E.wide.State
  pub iocp : Option ℕ
  pub items : Dict ℕ WatchItem
  pub next_item : ℕ
  pub watches : Dict FilePath ℕ
  pub known_path_types : Dict FilePath PathType
  pub rename_info : RenameInfo
  pub running : Bool
  pub wakeups : ℕ

abbrev pub wakeup_key : ℕ
wakeup_key = 1

abbrev pub no_rename : RenameInfo
no_rename = record { old_path = []; old_path_type = file }

abbrev pub join_windows_path : FilePath → FilePath → FilePath
join_windows_path base child =
    if is_empty base
    then normalize_windows child
    else if back base == backslash || back base == slash
    then normalize_windows (base ++ child)
    else normalize_windows (base ++ backslash ∷ child)

-- An owner of an item goes.
abbrev pub release : Option ℕ → Dict ℕ WatchItem → Dict ℕ WatchItem
release o items = elim o [ some a ↦ Dict.erase a items | none ↦ items ]

module _ {E : Win32} where
  -- The constructor, over the port that it opens. The first address is 2.
  abbrev pub new_windows : E.wide.State → Option ℕ → Windows E
  new_windows system port = record {
    system = system;
    iocp = port;
    items = [];
    next_item = 2;
    watches = [];
    known_path_types = [];
    rename_info = no_rename;
    running = false;
    wakeups = 0;
  }

  abbrev pub wakeup : Windows E → Windows E
  wakeup s = elim s.iocp [ some _ ↦ record s { wakeups = s.wakeups + 1 } | none ↦ s ]

  unfoldable pub issue_read : WatchItem → Windows E → Bool × Windows E
  issue_read item s = elim item.h_dir [
    | none ↦ (false, s)
    | some h ↦ let r = E.read_changes h item.recursive s.system in (r.0, record s { system = r.1 })
  ]

  abbrev pub close_handle : ℕ → Windows E → Windows E
  close_handle h s = record s { system = E.close_handle h s.system }

  -- `CancelIoEx` and `CloseHandle` of the directory of the item at an address, where it is open.
  unfoldable pub close_item : ℕ → WatchItem → Windows E → Windows E
  unfolding Dict.insert
  close_item a item s = elim item.h_dir [
    | some h ↦ record s {
      system = E.close_handle h (E.cancel_io h s.system);
      items = Dict.insert a (record item { h_dir = none }) s.items;
    }
    | none ↦ s
  ]

  -- The two assignments at the end of `addWatch`; an item that the path had loses its owner.
  unfoldable pub enter : FilePath → WatchItem → Windows E → Windows E
  unfolding Dict.insert Dict.erase
  enter norm item s = record s {
    items = Dict.insert s.next_item item (release (lookup norm s.watches) s.items);
    next_item = s.next_item + 1;
    watches = Dict.insert norm s.next_item s.watches;
    known_path_types = Dict.insert norm directory s.known_path_types;
  }

  -- `addWatch` once the directory is open.
  unfoldable pub register : FilePath → WatchItem → ℕ → Windows E → Bool × Windows E
  unfolding issue_read enter
  register norm item h s = elim s.iocp [
    | none ↦ (true, enter norm item s)
    | some port ↦
        let tied = E.associate h port s.next_item s.system in
        let t = record s { system = tied.1 } in
        let asked = issue_read item t in
        if not tied.0
        then (false, close_handle h t)
        else if not asked.0
        then (false, close_handle h asked.1)
        else (true, enter norm item asked.1)
  ]

  unfoldable pub add_watch : FilePath → Bool → Windows E → Bool × Windows E
  unfolding normalize_windows utf8_to_utf16 register
  add_watch path recursive s =
      let norm = normalize_windows path in
      let wide_path = utf8_to_utf16 E.wide norm in
      let made = E.create_file wide_path s.system in
      if is_empty wide_path then (false, s) else elim made.0 [
        | none ↦ (false, record s { system = made.1 })
        | some h ↦
            let item : WatchItem = record { path = norm; recursive = recursive; h_dir = some h } in
            register norm item h (record s { system = made.1 })
      ]

  unfoldable pub remove_watch : FilePath → Windows E → Bool × Windows E
  unfolding normalize_windows Dict.erase close_item
  remove_watch path s =
      let norm = normalize_windows path in
      elim (lookup norm s.watches) [
        | none ↦ (false, s)
        | some a ↦
            let t = record s {
              watches = Dict.erase norm s.watches;
              known_path_types = Dict.erase norm s.known_path_types;
            } in
            let closed : Windows E = elim (lookup a s.items) [
              | none ↦ t
              | some item ↦ close_item a item t
            ] in
            (true, record closed { items = Dict.erase a closed.items })
      ]

  -- `start` up to the event loop.
  unfoldable pub start : Windows E → Bool × Windows E
  start s = elim s.iocp [
    | none ↦ (false, s)
    | some _ ↦ if s.running then (false, s) else (true, record s { running = true })
  ]

  unfoldable pub stop : Windows E → Windows E
  stop s = if not s.running then s else wakeup (record s { running = false })

  -- The loop of `closeAllWatches`.
  unfoldable pub close_items : Dict FilePath ℕ → Windows E → Windows E
  unfolding close_item
  close_items [] s = s
  close_items ((_, a) ∷ ws) s = elim (lookup a s.items) [
    | none ↦ close_items ws s
    | some item ↦ close_items ws (close_item a item s)
  ]

  unfoldable pub close_all_watches : Windows E → Windows E
  unfolding close_items
  close_all_watches s = record (close_items s.watches s) {
    watches = [];
    known_path_types = [];
    items = [];
  }

  -- `~WindowsWatcher()`
  unfoldable pub destroy_windows : Windows E → Windows E
  unfolding stop close_all_watches
  destroy_windows s =
      let t = close_all_watches (if s.running then stop s else s) in
      elim t.iocp [ some port ↦ record (close_handle port t) { iocp = none } | none ↦ t ]
