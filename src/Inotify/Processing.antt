-- ===== src/Inotify/Processing.antt =====
-- `processEvent` (src/core/InotifyWatcher.cpp) and the tables.
use libfilewatch.Base.{
  ℕ, ◌≢◌, inl, inr, Bool, true, false, ◌&&◌, ◌||◌, List, [], ◌∷◌, In, In-erase, erase,
  if◌then◌else◌, nat_eq, text_eq, Option, none, some, Option-cases, arith,
}
use libfilewatch.Base.Dict
use libfilewatch.Base.Dict.{Dict, lookup}
use libfilewatch.Path.{FilePath}
use libfilewatch.Event.{FileEvent}
use libfilewatch.Inotify.{Kernel, RootWatch, RenameInfo, Inotify, root_at, roots_at, flag_at}
use libfilewatch.Inotify.Events.{
  InotifyEvent, unlink, drop_ignored, add_for_roots, recursive_roots, cover, move_to, report,
  process_event, process_buffer, event_path,
}
use libfilewatch.Inotify.Invariant.{IsConsistent, roots_at-erase, root_at-insert}
use libfilewatch.Inotify.Attach.{add_recursive_watches-IsConsistent}

-- Unlinking one descriptor leaves each root the others.
unlink-keeps :
    (u : Bool) (wd k : ℕ) (r : FilePath) (rs : List FilePath) (d : Dict FilePath RootWatch)
    → k ≢ wd
    → In k (root_at u r d).associated_wds
    → In k (root_at u r (unlink wd rs d)).associated_wds
unfolding unlink
unlink-keeps u wd k r [] d n m = m
unlink-keeps u wd k r (x ∷ rs) d n m = elim (Option-cases (lookup x d)) [
  | inl e ↦ ground (arith, unlink-keeps u wd k r rs d n m)
  | inr (w, e) ↦
      let v = record w { associated_wds = erase wd w.associated_wds } in
      ground (
        arith,
        unlink-keeps u wd k r rs (Dict.insert x v d) n,
        root_at-insert u x r v d,
        In-erase k wd w.associated_wds,
      )
]

module _ {K : Kernel} where
  drop_ignored-IsConsistent :
      (wd : ℕ) (s : Inotify K) → IsConsistent s → IsConsistent (drop_ignored wd s)
  unfolding drop_ignored
  drop_ignored-IsConsistent wd s c = record {
    known = λ k p e. elim (Option-cases (lookup wd s.watch_map)) [
      | inl n ↦ ground (arith, c.known k p, Dict.lookup-erase wd k s.watch_map)
      | inr (q, n) ↦ ground (
        arith,
        c.known k p,
        c.known wd q,
        Dict.lookup-erase wd k s.watch_map,
        Dict.lookup-erase q p s.path_watch_map,
      )
    ];
    held = λ k p e.
        ground (
          arith,
          c.held k p,
          Dict.lookup-erase wd k s.watch_map,
          roots_at-erase wd k s.wd_to_roots,
        );
    owned = λ k r m. ground (
      arith,
      c.owned k r,
      roots_at-erase wd k s.wd_to_roots,
      unlink-keeps K.unset wd k r (roots_at wd s.wd_to_roots) s.root_watches,
    );
  }

  add_for_roots-IsConsistent :
      (f : ℕ) (path : FilePath) (rs : List FilePath) (s : Inotify K)
      → IsConsistent s
      → IsConsistent (add_for_roots f path rs s)
  unfolding add_for_roots
  add_for_roots-IsConsistent f path [] s c = c
  add_for_roots-IsConsistent f path (r ∷ rs) s c =
      add_for_roots-IsConsistent f path rs _ (add_recursive_watches-IsConsistent f path r s c)

  renamed-IsConsistent :
      (m : Dict ℕ RenameInfo) (s : Inotify K)
      → IsConsistent s
      → IsConsistent (record s { rename_map = m })
  renamed-IsConsistent m s c = record { known = c.known; held = c.held; owned = c.owned }

  -- The state that a step returns is consistent.
  record EndsConsistent (r : List FileEvent × Inotify K) : Type 0 where
    ends : IsConsistent r.1

  ends_if :
      {r t : List FileEvent × Inotify K} (b : Bool)
      → EndsConsistent r
      → EndsConsistent t
      → EndsConsistent (if b then r else t)
  ends_if true p q = p
  ends_if false p q = q

  ends_some :
      {A : Type 0} {r : List FileEvent × Inotify K} {g : A → List FileEvent × Inotify K}
      (o : Option A)
      → EndsConsistent r
      → ((a : A) → EndsConsistent (g a))
      → EndsConsistent (elim o [ some a ↦ g a | none ↦ r ])
  ends_some none p q = p
  ends_some (some a) p q = q a

  ends_with : (es : List FileEvent) (s : Inotify K) → IsConsistent s → EndsConsistent (es, s)
  ends_with es s c = record { ends = c }

  cover-ends :
      (f : ℕ) (ev : InotifyEvent) (path : FilePath) (rec : Bool) (s : Inotify K)
      → IsConsistent s
      → EndsConsistent (cover f ev path rec s)
  unfolding cover
  cover-ends f ev path rec s c =
      ends_if (ev.mask.is_dir && rec)
        (ends_with _ _ (add_for_roots-IsConsistent f path (recursive_roots ev.wd s) s c))
        (ends_with _ _ c)

  report-ends :
      (f : ℕ) (ev : InotifyEvent) (path : FilePath) (rec : Bool) (s : Inotify K)
      → IsConsistent s
      → EndsConsistent (report f ev path rec s)
  unfolding report move_to
  report-ends f ev path rec s c =
      let m = ev.mask in
      ends_if m.on_create (ends_with _ _ (cover-ends f ev path rec s c).ends) (
        ends_if m.close_write (ends_with _ _ c) (
          ends_if (m.on_delete || m.delete_self) (ends_with _ _ c) (
            ends_if m.moved_from (ends_with _ _ (renamed-IsConsistent _ s c)) (
              ends_if m.moved_to
                (ends_some (lookup ev.cookie s.rename_map)
                  (ends_with _ _ (cover-ends f ev path rec s c).ends)
                  (λ i.
                    ends_with _ _
                      (cover-ends f ev path rec _
                        (renamed-IsConsistent (Dict.erase ev.cookie s.rename_map) s c)).ends))
                (ends_with _ _ c)))))

  -- Each event keeps the tables consistent: one for a descriptor that is gone, one for a descriptor
  -- that is not known, and one of each kind, whatever the kernel answers to the calls it leads to.
  pub process_event-IsConsistent :
      (f : ℕ) (ev : InotifyEvent) (s : Inotify K)
      → IsConsistent s
      → IsConsistent (process_event f ev s).1
  unfolding process_event
  process_event-IsConsistent f ev s c =
      (ends_if ev.mask.ignored (ends_with [] _ (drop_ignored-IsConsistent ev.wd s c)) (
        ends_some (lookup ev.wd s.watch_map) (ends_with [] s c) (λ base.
          report-ends f ev (event_path base ev) (flag_at ev.wd s.watch_recursive) s c))).ends

  pub process_buffer-IsConsistent :
      (f : ℕ) (evs : List InotifyEvent) (s : Inotify K)
      → IsConsistent s
      → IsConsistent (process_buffer f evs s).1
  unfolding process_buffer
  process_buffer-IsConsistent f [] s c = c
  process_buffer-IsConsistent f (ev ∷ evs) s c =
      process_buffer-IsConsistent f evs _ (process_event-IsConsistent f ev s c)
