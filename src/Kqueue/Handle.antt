-- ===== src/Kqueue/Handle.antt =====
-- `handleKevent` and the queue of events for the main thread (src/core/MacOSWatcher.cpp).
use libfilewatch.Base.{
  ℕ, ◌+◌, Bool, ◌||◌, List, [], ◌∷◌, ◌++◌, is_empty, if◌then◌else◌, nat_eq, text_eq, none, some,
}
use libfilewatch.Base.Dict.{lookup}
use libfilewatch.Event.{file, directory, modify, delete, rename, FileEvent, file_event}
use libfilewatch.Snapshot.{diff_directory_snapshot}
use libfilewatch.Kqueue.{Kq, KqItem, Kqueue, scan_direct_children, sync_direct_child_file_watches}

-- `struct kevent`: the descriptor, and the flags that the code tests.
pub record Kevent : Type 0 where
  pub ident : ℕ
  pub note_write : Bool
  pub note_extend : Bool
  pub note_attrib : Bool
  pub note_delete : Bool
  pub note_rename : Bool

abbrev pub is_content : Kevent → Bool
is_content ev = ev.note_write || ev.note_extend || ev.note_attrib

abbrev pub when : Bool → FileEvent → List FileEvent
when b ev = if b then ev ∷ [] else []

abbrev pub on_file : KqItem → Kevent → List FileEvent
on_file item ev =
    when (is_content ev) (file_event modify item.path file)
    ++ when ev.note_rename (file_event rename item.path file)
    ++ when ev.note_delete (file_event delete item.path file)

module _ {K : Kq} where
  unfoldable pub wakeup : Kqueue K → Kqueue K
  wakeup s = elim s.kq_fd [ some _ ↦ record s { wakeups = s.wakeups + 1 } | none ↦ s ]

  unfoldable pub push_events_to_main_thread : List FileEvent → Kqueue K → Kqueue K
  unfolding wakeup
  push_events_to_main_thread events s =
      if is_empty events
      then s
      else wakeup (record s { pending_events = s.pending_events ++ events })

  -- What the callback is called with, in turn, and the state.
  unfoldable pub dispatch_pending_events : Kqueue K → List FileEvent × Kqueue K
  dispatch_pending_events s = (s.pending_events, record s { pending_events = [] })

  -- The events for an item, and the state.
  unfoldable pub on_directory : ℕ → KqItem → Kevent → Kqueue K → List FileEvent × Kqueue K
  unfolding scan_direct_children diff_directory_snapshot sync_direct_child_file_watches
  on_directory a item ev s =
      let found =
        diff_directory_snapshot item.children (scan_direct_children K item.path s.system) in
      let synced = sync_direct_child_file_watches a (record item { children = found.1 }) s in
      let gone = when ev.note_delete (file_event delete item.path directory) in
      if ev.note_write then (found.0 ++ gone, synced) else (gone, s)

  unfoldable pub handle_kevent : Kevent → Kqueue K → Kqueue K
  unfolding on_directory push_events_to_main_thread
  handle_kevent ev s = elim (lookup ev.ident s.fd_map) [
    | none ↦ s
    | some a ↦ elim (lookup a s.items) [
      | none ↦ s
      | some item ↦
          let r = on_directory a item ev s in
          elim (lookup ev.ident s.child_fd_to_path) [
            | some child ↦
                push_events_to_main_thread (when (is_content ev) (file_event modify child file)) s
            | none ↦
                if item.is_directory
                then push_events_to_main_thread r.0 r.1
                else push_events_to_main_thread (on_file item ev) s
          ]
    ]
  ]
