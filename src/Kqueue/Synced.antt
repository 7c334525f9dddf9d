-- ===== src/Kqueue/Synced.antt =====
-- What a written directory leads to in `handleKevent` (src/core/MacOSWatcher.cpp).
use libfilewatch.Base.{
  ℕ, ◌≡◌, refl, sym, ap, ◌∙◌, inl, inr, true, false, List, [], ◌∷◌, ◌++◌, append-nil, nat_eq,
  text_eq, none, some, Option-cases, Bool-cases, arith,
}
use libfilewatch.Base.Dict
use libfilewatch.Base.Dict.{Dict, lookup, has_key}
use libfilewatch.Path.{FilePath}
use libfilewatch.Event.{FileEvent}
use libfilewatch.Snapshot.{Snapshot, diff_directory_snapshot}
use libfilewatch.Kqueue.{
  Kq, KqItem, Kqueue, change, close_child, open_children, close_gone, scan_direct_children,
  sync_direct_child_file_watches,
}
use libfilewatch.Kqueue.Handle.{
  Kevent, wakeup, push_events_to_main_thread, on_directory, handle_kevent,
}

module _ {K : Kq} where
  close_gone-kept :
      (children : Snapshot) (p : FilePath) (fd : ℕ) (fds : Dict FilePath ℕ) (s : Kqueue K)
      → lookup p (close_gone children fds s).0 ≡ some fd
      → has_key p children ≡ true
  unfolding close_gone
  close_gone-kept children p fd [] s h = cc
  close_gone-kept children p fd ((q, gd) ∷ fds) s h =
      let t = close_child gd (change gd false s) in
      elim (Bool-cases (has_key q children)) [
        | inl e ↦ ground (arith, close_gone-kept children p fd fds s)
        | inr e ↦ ground (arith, close_gone-kept children p fd fds t)
      ]

  close_gone-pending :
      (children : Snapshot) (fds : Dict FilePath ℕ) (s : Kqueue K)
      → (close_gone children fds s).1.pending_events ≡ s.pending_events
  unfolding close_gone
  close_gone-pending children [] s = refl
  close_gone-pending children ((q, gd) ∷ fds) s = ground (
    arith,
    close_gone-pending children fds s,
    close_gone-pending children fds (close_child gd (change gd false s)),
  )

  -- What opening the files leaves of the item and the queue.
  abbrev Opens : KqItem × Kqueue K → KqItem × Kqueue K → Type 0
  Opens r t =
      (t.0.children ≡ r.0.children)
      × (t.0.path ≡ r.0.path)
      × (t.1.pending_events ≡ r.1.pending_events)

  open_children-Opens :
      (a : ℕ) (children : Snapshot) (item : KqItem) (s : Kqueue K)
      → Opens (item, s) (open_children a children (item, s))
  unfolding open_children
  open_children-Opens a [] item s = (refl, refl, refl)
  open_children-Opens a ((p, snap) ∷ children) item s =
      elim (Option-cases (K.open_fd p s.system).0) [
        | inl e ↦ ground (
          arith,
          open_children-Opens a children item s,
          open_children-Opens a children item (record s { system = (K.open_fd p s.system).1 }),
        )
        | inr (fd, e) ↦ ground (
          arith,
          open_children-Opens a children item s,
          open_children-Opens a children
              (record item { child_file_fds = Dict.insert p fd item.child_file_fds })
              (change fd true (record s {
                system = (K.open_fd p s.system).1;
                fd_map = Dict.insert fd a s.fd_map;
                child_fd_to_path = Dict.insert fd p s.child_fd_to_path;
              })),
        )
      ]

  abbrev opened : ℕ → KqItem → Kqueue K → KqItem × Kqueue K
  opened a item s = open_children a item.children (item, s)

  abbrev closed : ℕ → KqItem → Kqueue K → Dict FilePath ℕ × Kqueue K
  closed a item s = close_gone item.children (opened a item s).0.child_file_fds (opened a item s).1

  abbrev synced : ℕ → KqItem → Kqueue K → KqItem
  synced a item s = record (opened a item s).0 { child_file_fds = (closed a item s).0 }

  sync_into :
      (a fd : ℕ) (item : KqItem) (s : Kqueue K)
      → item.is_directory ≡ true
      → s.kq_fd ≡ some fd
      → sync_direct_child_file_watches a item s ≡ record (closed a item s).1 {
        items = Dict.insert a (synced a item s) (closed a item s).1.items;
      }
  unfolding sync_direct_child_file_watches
  sync_into a fd item s dir on = ground arith

  sync-pending :
      (a fd : ℕ) (item : KqItem) (s : Kqueue K)
      → item.is_directory ≡ true
      → s.kq_fd ≡ some fd
      → (sync_direct_child_file_watches a item s).pending_events ≡ s.pending_events
  sync-pending a fd item s dir on =
      ap (λ t. t.pending_events) (sync_into a fd item s dir on)
      ∙ (close_gone-pending item.children (opened a item s).0.child_file_fds (opened a item s).1
          ∙ (open_children-Opens a item.children item s).2)

  sync-item :
      (a fd : ℕ) (item : KqItem) (s : Kqueue K)
      → item.is_directory ≡ true
      → s.kq_fd ≡ some fd
      → lookup a (sync_direct_child_file_watches a item s).items ≡ some (synced a item s)
  sync-item a fd item s dir on =
      ap (λ t. lookup a t.items) (sync_into a fd item s dir on)
      ∙ ground (arith, Dict.lookup-insert a a (synced a item s) (closed a item s).1.items)

  pushed :
      (es : List FileEvent) (s : Kqueue K)
      → ((push_events_to_main_thread es s).pending_events ≡ s.pending_events ++ es)
        × ((push_events_to_main_thread es s).items ≡ s.items)
  unfolding push_events_to_main_thread wakeup
  pushed [] s = (sym (append-nil s.pending_events), refl)
  pushed (e ∷ es) s = ground arith

  written_directory :
      (a : ℕ) (item : KqItem) (ev : Kevent) (s : Kqueue K)
      → ev.note_write ≡ true
      → ev.note_delete ≡ false
      → let found =
          diff_directory_snapshot item.children (scan_direct_children K item.path s.system) in
        on_directory a item ev s
        ≡ (found.0, sync_direct_child_file_watches a (record item { children = found.1 }) s)
  unfolding on_directory
  written_directory a item ev s write here =
      let found =
        diff_directory_snapshot item.children (scan_direct_children K item.path s.system) in
      ground (arith, append-nil found.0)

  handled_directory :
      (a : ℕ) (item : KqItem) (ev : Kevent) (s : Kqueue K)
      → lookup ev.ident s.fd_map ≡ some a
      → lookup a s.items ≡ some item
      → lookup ev.ident s.child_fd_to_path ≡ none
      → item.is_directory ≡ true
      → let r = on_directory a item ev s in handle_kevent ev s ≡ push_events_to_main_thread r.0 r.1
  unfolding handle_kevent
  handled_directory a item ev s at there main dir = ground arith

  directory_into :
      (a fd : ℕ) (item : KqItem) (ev : Kevent) (s : Kqueue K)
      → lookup ev.ident s.fd_map ≡ some a
      → lookup a s.items ≡ some item
      → lookup ev.ident s.child_fd_to_path ≡ none
      → item.is_directory ≡ true
      → ev.note_write ≡ true
      → ev.note_delete ≡ false
      → let found =
          diff_directory_snapshot item.children (scan_direct_children K item.path s.system) in
        handle_kevent ev s
        ≡ push_events_to_main_thread found.0
            (sync_direct_child_file_watches a (record item { children = found.1 }) s)
  directory_into a fd item ev s at there main dir write here =
      handled_directory a item ev s at there main dir
      ∙ ap (λ (r : List FileEvent × Kqueue K). push_events_to_main_thread r.0 r.1)
          (written_directory a item ev s write here)

  -- When a watched directory is written to and not deleted, the main thread gets exactly the events
  -- that lead from the snapshot that was kept to the directory as it is now, behind what it has to
  -- do already; the directory as it is now is kept, and no file has a descriptor that is not in it.
  pub written_directory_synced :
      (a fd : ℕ) (item : KqItem) (ev : Kevent) (s : Kqueue K)
      → lookup ev.ident s.fd_map ≡ some a
      → lookup a s.items ≡ some item
      → lookup ev.ident s.child_fd_to_path ≡ none
      → item.is_directory ≡ true
      → s.kq_fd ≡ some fd
      → ev.note_write ≡ true
      → ev.note_delete ≡ false
      → let found = scan_direct_children K item.path s.system in
        let t = handle_kevent ev s in
        (t.pending_events ≡ s.pending_events ++ (diff_directory_snapshot item.children found).0)
        × ((item' : KqItem) × (lookup a t.items ≡ some item')
            × (item'.children ≡ found)
            × ((p : FilePath) (cfd : ℕ)
                → lookup p item'.child_file_fds ≡ some cfd
                → has_key p found ≡ true))
  unfolding diff_directory_snapshot
  written_directory_synced a fd item ev s at there main dir on write here =
      let found = scan_direct_children K item.path s.system in
      let events = (diff_directory_snapshot item.children found).0 in
      let now = record item { children = found } in
      let into = directory_into a fd item ev s at there main dir write here in
      let t = sync_direct_child_file_watches a now s in
      let push = pushed events t in
      (
        ap (λ u. u.pending_events) into
            ∙ (push.0 ∙ ap (λ es. es ++ events) (sync-pending a fd now s dir on)),
        (
          synced a now s,
          ap (λ u. lookup a u.items) into ∙ (ap (lookup a) push.1 ∙ sync-item a fd now s dir on),
          (open_children-Opens a found now s).0,
          λ p cfd h.
              close_gone-kept found p cfd (opened a now s).0.child_file_fds (opened a now s).1 h,
        ),
      )
