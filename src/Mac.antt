-- ===== src/Mac.antt =====
-- `MacOSWatcher` (src/core/MacOSWatcher.cpp) over its two halves: `addWatch`, `removeWatch`, `start`,
-- `stop`, the stream of FSEvents, the destructor and the rounds of the loop. A call that never returns has no
-- result.
pub mod Blocked
pub mod Open
use libfilewatch.Base.{
  ℕ, ◌+◌, Bool, true, false, not, ◌&&◌, ◌||◌, List, [], ◌∷◌, ◌++◌, contains, erase_first, is_empty,
  if◌then◌else◌, Eq, ◌==◌, nat_eq, text_eq, Option, none, some,
}
use libfilewatch.Base.Bytes.{◌>>=◌}
use libfilewatch.Base.Dict.{Dict, lookup}
use libfilewatch.Path.{FilePath}
use libfilewatch.Event.{FileEvent}
use libfilewatch.Known.{Known}
use libfilewatch.FsEvents.{FileSystem, Flags, remember_existing_path_tree, process_fs_events}
use libfilewatch.Kqueue.{Kq, KqItem, Kqueue, add_kqueue_item, remove_kqueue_item}
use libfilewatch.Kqueue.Handle.{
  Kevent, wakeup, push_events_to_main_thread, dispatch_pending_events, handle_kevent,
}

-- `readable` is `access` with `R_OK`; `stream_opens` says whether a stream can be made for the paths.
pub record MacOs : Type 1 where
  pub kq : Kq
  pub files : FileSystem
  pub readable : FilePath → Bool
  pub stream_opens : List FilePath → Bool

-- `mutex_held`: the thread that acts holds `m_mutex`; between two calls it is free.
pub record Mac (M : MacOs) : Type 0 where
  pub kqueue : Kqueue M.kq
  pub known : Known
  pub fsevents_watch_list : List FilePath
  pub has_stream : Bool
  pub running : Bool
  pub mutex_held : Bool

-- The loop of `closeKqueue`, over the descriptors of one item and over all watched items.
unfoldable pub close_fds : (K : Kq) → Dict FilePath ℕ → K.State → K.State
close_fds K [] k = k
close_fds K ((_, fd) ∷ fds) k = close_fds K fds (K.close_fd fd k)

unfoldable pub close_items : (K : Kq) → Dict FilePath ℕ → Dict ℕ KqItem → K.State → K.State
unfolding close_fds
close_items K [] items k = k
close_items K ((_, a) ∷ ws) items k = elim (lookup a items) [
  | none ↦ close_items K ws items k
  | some item ↦
      let t = close_fds K item.child_file_fds k in
      elim item.fd [
        | none ↦ close_items K ws items t
        | some fd ↦ close_items K ws items (K.close_fd fd t)
      ]
]

unfoldable pub handle_all : {K : Kq} → List Kevent → Kqueue K → Kqueue K
unfolding handle_kevent
handle_all [] q = q
handle_all (ev ∷ evs) q = handle_all evs (handle_kevent ev q)

module _ {M : MacOs} where
  -- The constructor, over the queue that it opens.
  abbrev pub new_mac : M.kq.State → Option ℕ → Mac M
  new_mac system kq = record {
    kqueue = record {
      system = system;
      kq_fd = kq;
      items = [];
      next_item = 1;
      watches = [];
      fd_map = [];
      child_fd_to_path = [];
      pending_events = [];
      wakeups = 0;
    };
    known = record { known_paths = []; known_path_types = [] };
    fsevents_watch_list = [];
    has_stream = false;
    running = false;
    mutex_held = false;
  }

  -- To lock a `std::mutex` that the thread holds never returns.
  unfoldable pub lock : Mac M → Option (Mac M)
  lock s = if s.mutex_held then none else some (record s { mutex_held = true })

  -- The end of a `lock_guard`'s block.
  abbrev pub unlock : Mac M → Mac M
  unlock s = record s { mutex_held = false }

  unfoldable pub start_fs_events : Mac M → Option (Mac M)
  unfolding lock
  start_fs_events s = lock s >>= λ t. some (
      unlock (
        if is_empty t.fsevents_watch_list
        then t
        else record t { has_stream = M.stream_opens t.fsevents_watch_list }))

  unfoldable pub stop_fs_events : Mac M → Mac M
  stop_fs_events s = record s { has_stream = false }

  -- What `addWatch` and `removeWatch` do when the list of the stream has changed.
  unfoldable pub restart : Mac M → Option (Bool × Mac M)
  unfolding start_fs_events stop_fs_events
  restart s =
      if s.running
      then start_fs_events (stop_fs_events s) >>= (λ t. some (true, t))
      else some (true, s)

  -- `addWatch` with the mutex held. The fuel bounds the depth of the tree.
  unfoldable pub add_locked : ℕ → FilePath → (tree is_dir : Bool) → Mac M → Option (Bool × Mac M)
  unfolding restart remember_existing_path_tree add_kqueue_item
  add_locked f path tree is_dir s =
      let added = add_kqueue_item path is_dir s.kqueue in
      if tree
      then restart (record s {
        fsevents_watch_list = s.fsevents_watch_list ++ path ∷ [];
        known = remember_existing_path_tree M.files f path s.known;
      })
      else some (added.0, record s { kqueue = added.1 })

  unfoldable pub add_watch : ℕ → FilePath → Bool → Mac M → Option (Bool × Mac M)
  unfolding lock add_locked
  add_watch f path recursive s = elim (M.files.stat_dir path) [
    | none ↦ some (false, s)
    | some is_dir ↦
        let done = lock s >>= λ t.
        add_locked f path (recursive && is_dir) is_dir t >>= λ r. some (r.0, unlock r.1) in
        if not (M.readable path) then some (false, s) else done
  ]

  -- `removeWatch` with the mutex held.
  unfoldable pub remove_locked : FilePath → Mac M → Option (Bool × Mac M)
  unfolding restart remove_kqueue_item
  remove_locked path s =
      let removed = remove_kqueue_item path s.kqueue in
      if contains s.fsevents_watch_list path
      then restart (record s { fsevents_watch_list = erase_first path s.fsevents_watch_list })
      else some (removed.0, record s { kqueue = removed.1 })

  unfoldable pub remove_watch : FilePath → Mac M → Option (Bool × Mac M)
  unfolding lock remove_locked
  remove_watch path s = lock s >>= λ t. remove_locked path t >>= λ r. some (r.0, unlock r.1)

  -- `start` up to the rounds of its loop.
  unfoldable pub start : Mac M → Option (Bool × Mac M)
  unfolding start_fs_events
  start s = elim s.kqueue.kq_fd [
    | none ↦ some (false, s)
    | some _ ↦
        if s.running
        then some (false, s)
        else start_fs_events (record s { running = true }) >>= (λ t. some (true, t))
  ]

  unfoldable pub stop : Mac M → Mac M
  unfolding stop_fs_events wakeup
  stop s =
      if not s.running
      then s
      else let t = stop_fs_events (record s { running = false }) in
        record t { kqueue = wakeup t.kqueue }

  -- `eventCallback`, on the thread of the stream.
  unfoldable pub event_callback : List (FilePath × Flags) → Mac M → Mac M
  unfolding process_fs_events push_events_to_main_thread
  event_callback items s =
      let r = process_fs_events M.files items s.known in
      record s { known = r.1; kqueue = push_events_to_main_thread r.0 s.kqueue }

  -- A round of the loop after the wait: what the callback is called with, and the state. The events of
  -- wake-up are none of these.
  unfoldable pub serve : List Kevent → Mac M → List FileEvent × Mac M
  unfolding handle_all dispatch_pending_events
  serve evs s =
      let r = dispatch_pending_events (handle_all evs s.kqueue) in (r.0, record s { kqueue = r.1 })

  -- `~MacOSWatcher()`
  unfoldable pub destroy_mac : Mac M → Mac M
  unfolding stop close_items
  destroy_mac s =
      let t = stop s in
      let closed = close_items M.kq t.kqueue.watches t.kqueue.items t.kqueue.system in
      record t {
        kqueue = record t.kqueue {
          system = elim t.kqueue.kq_fd [ some fd ↦ M.kq.close_fd fd closed | none ↦ closed ];
          kq_fd = none;
          watches = [];
          fd_map = [];
          child_fd_to_path = [];
        };
      }
