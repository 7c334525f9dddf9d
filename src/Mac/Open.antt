-- ===== src/Mac/Open.antt =====
-- What the handling of kernel events leaves as it is (src/core/MacOSWatcher.cpp): the queue of the
-- kernel stays open, and the events that wait stay in their places.
use libfilewatch.Base.{
  ℕ, ◌≡◌, refl, sym, ap, ◌∙◌, inl, inr, true, false, List, [], ◌∷◌, ◌++◌, append_assoc, append-nil,
  if◌then◌else◌, nat_eq, text_eq, Option-cases, Bool-cases, arith,
}
use libfilewatch.Base.Dict
use libfilewatch.Base.Dict.{Dict, lookup, has_key}
use libfilewatch.Path.{FilePath}
use libfilewatch.Event.{file, modify, FileEvent, file_event}
use libfilewatch.Snapshot.{Snapshot}
use libfilewatch.Kqueue.{
  Kq, KqItem, Kqueue, change, close_child, open_children, close_gone,
  sync_direct_child_file_watches,
}
use libfilewatch.Kqueue.Handle.{
  Kevent, push_events_to_main_thread, wakeup, on_directory, on_file, when, is_content,
  handle_kevent,
}
use libfilewatch.Mac.{handle_all}

module _ {K : Kq} where
  -- Neither the queue of the kernel nor that of the events is touched.
  abbrev IsKept : Kqueue K → Kqueue K → Type 0
  IsKept s t = (t.kq_fd ≡ s.kq_fd) × (t.pending_events ≡ s.pending_events)

  -- The events of the second list come behind those of the first.
  pub push_events-pending :
      (es : List FileEvent) (s : Kqueue K)
      → (push_events_to_main_thread es s).pending_events ≡ s.pending_events ++ es
  unfolding push_events_to_main_thread wakeup
  push_events-pending [] s = sym (append-nil s.pending_events)
  push_events-pending (e ∷ es) s = ground arith

  push_events-kq_fd :
      (es : List FileEvent) (s : Kqueue K) → (push_events_to_main_thread es s).kq_fd ≡ s.kq_fd
  unfolding push_events_to_main_thread wakeup
  push_events-kq_fd es s = ground arith

  open_children-IsKept :
      (a : ℕ) (cs : Snapshot) (item : KqItem) (s : Kqueue K)
      → IsKept s (open_children a cs (item, s)).1
  unfolding open_children
  open_children-IsKept a [] item s = (refl, refl)
  open_children-IsKept a ((path, snap) ∷ cs) item s =
      let opened = K.open_fd path s.system in
      elim (Option-cases opened.0) [
        | inl e ↦ ground (
          arith,
          open_children-IsKept a cs item s,
          open_children-IsKept a cs item (record s { system = opened.1 }),
        )
        | inr (fd, e) ↦ ground (
          arith,
          open_children-IsKept a cs item s,
          open_children-IsKept a cs
              (record item { child_file_fds = Dict.insert path fd item.child_file_fds })
              (change fd true (record s {
                system = opened.1;
                fd_map = Dict.insert fd a s.fd_map;
                child_fd_to_path = Dict.insert fd path s.child_fd_to_path;
              })),
        )
      ]

  close_gone-IsKept :
      (cs : Snapshot) (fds : Dict FilePath ℕ) (s : Kqueue K) → IsKept s (close_gone cs fds s).1
  unfolding close_gone
  close_gone-IsKept cs [] s = (refl, refl)
  close_gone-IsKept cs ((path, fd) ∷ fds) s = ground (
    arith,
    close_gone-IsKept cs fds s,
    close_gone-IsKept cs fds (close_child fd (change fd false s)),
  )

  sync-IsKept :
      (a : ℕ) (item : KqItem) (s : Kqueue K) → IsKept s (sync_direct_child_file_watches a item s)
  unfolding sync_direct_child_file_watches
  sync-IsKept a item s =
      let opened = open_children a item.children (item, s) in
      ground (
        arith,
        open_children-IsKept a item.children item s,
        close_gone-IsKept item.children opened.0.child_file_fds opened.1,
      )

  on_directory-IsKept :
      (a : ℕ) (item : KqItem) (ev : Kevent) (s : Kqueue K) → IsKept s (on_directory a item ev s).1
  unfolding on_directory
  on_directory-IsKept a item ev s = elim (Bool-cases ev.note_write) [
    | inl w ↦ rw w (sync-IsKept a _ s)
    | inr n ↦ rw n (refl, refl)
  ]

  handle_kevent-kq_fd : (ev : Kevent) (s : Kqueue K) → (handle_kevent ev s).kq_fd ≡ s.kq_fd
  unfolding handle_kevent
  handle_kevent-kq_fd ev s = elim (Option-cases (lookup ev.ident s.fd_map)) [
    | inl e ↦ ground arith
    | inr (a, e) ↦ elim (Option-cases (lookup a s.items)) [
      | inl f ↦ ground arith
      | inr (item, f) ↦
          let r = on_directory a item ev s in
          let content = when (is_content ev) in
          elim (Option-cases (lookup ev.ident s.child_fd_to_path)) [
            | inl g ↦ ground (
              arith,
              push_events-kq_fd r.0 r.1,
              on_directory-IsKept a item ev s,
              push_events-kq_fd (on_file item ev) s,
            )
            | inr (c, g) ↦ ground (arith, push_events-kq_fd (content (file_event modify c file)) s)
          ]
    ]
  ]

  handle_kevent-pending :
      (ev : Kevent) (s : Kqueue K)
      → (more : List FileEvent) × ((handle_kevent ev s).pending_events ≡ s.pending_events ++ more)
  unfolding handle_kevent
  handle_kevent-pending ev s = elim (Option-cases (lookup ev.ident s.fd_map)) [
    | inl e ↦ ([], ground (arith, append-nil s.pending_events))
    | inr (a, e) ↦ elim (Option-cases (lookup a s.items)) [
      | inl f ↦ ([], ground (arith, append-nil s.pending_events))
      | inr (item, f) ↦
          let r = on_directory a item ev s in
          let content = when (is_content ev) in
          elim (Option-cases (lookup ev.ident s.child_fd_to_path)) [
            | inl g ↦ (
              if item.is_directory then r.0 else on_file item ev,
              ground (
                arith,
                push_events-pending r.0 r.1,
                on_directory-IsKept a item ev s,
                push_events-pending (on_file item ev) s,
              ),
            )
            | inr (c, g) ↦ (
              content (file_event modify c file),
              ground (arith, push_events-pending (content (file_event modify c file)) s),
            )
          ]
    ]
  ]

  pub handle_all-kq_fd : (evs : List Kevent) (s : Kqueue K) → (handle_all evs s).kq_fd ≡ s.kq_fd
  unfolding handle_all
  handle_all-kq_fd [] s = refl
  handle_all-kq_fd (ev ∷ evs) s =
      handle_all-kq_fd evs (handle_kevent ev s) ∙ handle_kevent-kq_fd ev s

  pub handle_all-pending :
      (evs : List Kevent) (s : Kqueue K)
      → (more : List FileEvent) × ((handle_all evs s).pending_events ≡ s.pending_events ++ more)
  unfolding handle_all
  handle_all-pending [] s = ([], sym (append-nil s.pending_events))
  handle_all-pending (ev ∷ evs) s =
      let (first, e) = handle_kevent-pending ev s in
      let (rest, f) = handle_all-pending evs (handle_kevent ev s) in
      (first ++ rest, f ∙ (ap (λ l. l ++ rest) e ∙ append_assoc s.pending_events first rest))
