-- ===== src/Inotify/Rename.antt =====
-- The two halves of a rename in `processEvent` (src/core/InotifyWatcher.cpp): the first is kept under
-- its cookie, the second reports the pair.
use libfilewatch.Base.{
  ℕ, ◌≡◌, refl, ap, ◌∙◌, ◌≢◌, ◌⊎◌, inl, inr, Bool, true, false, List, [], ◌∷◌, ◌++◌, All, nat_eq,
  text_eq, none, some, Option-cases, arith,
}
use libfilewatch.Base.Dict
use libfilewatch.Base.Dict.{Dict, lookup}
use libfilewatch.Path.{FilePath}
use libfilewatch.Event.{rename, file_event_from}
use libfilewatch.Inotify.{Kernel, RenameInfo, Inotify, flag_at, add_directory_watch}
use libfilewatch.Inotify.Events.{
  InotifyEvent, type_of, drop_ignored, add_for_roots, recursive_roots, cover, move_to, report,
  process_event, process_buffer, event_path,
}
use libfilewatch.Inotify.Attach.{add_recursive_watches-keeps, added_cases}

-- An event that is no half of a rename under the cookie.
abbrev pub IsApart : ℕ → InotifyEvent → Type 0
IsApart c ev = (ev.cookie ≢ c) ⊎ ((ev.mask.moved_from ≡ false) × (ev.mask.moved_to ≡ false))

-- The kernel sets one bit for what happened.
pub record IsMoveFrom (ev : InotifyEvent) : Type 0 where
  pub from : ev.mask.moved_from ≡ true
  pub only :
      (ev.mask.ignored ≡ false)
      × (ev.mask.on_create ≡ false)
      × (ev.mask.close_write ≡ false)
      × (ev.mask.on_delete ≡ false)
      × (ev.mask.delete_self ≡ false)

pub record IsMoveTo (ev : InotifyEvent) : Type 0 where
  pub to : ev.mask.moved_to ≡ true
  pub only :
      (ev.mask.ignored ≡ false)
      × (ev.mask.on_create ≡ false)
      × (ev.mask.close_write ≡ false)
      × (ev.mask.on_delete ≡ false)
      × (ev.mask.delete_self ≡ false)
      × (ev.mask.moved_from ≡ false)

module _ {K : Kernel} where
  add_directory_watch-rename_map :
      (path root : FilePath) (rec : Bool) (s : Inotify K)
      → (add_directory_watch path root rec s).1.rename_map ≡ s.rename_map
  unfolding add_directory_watch
  add_directory_watch-rename_map path root rec s = elim (added_cases path root rec s) [
    | inl (wd, e, h) ↦ ap (λ r. r.1.rename_map) h
    | inr (inl (e, n, h)) ↦ ap (λ r. r.1.rename_map) h
    | inr (inr (wd, e, n, h)) ↦ ap (λ r. r.1.rename_map) h
  ]

  add_for_roots-rename_map :
      (f : ℕ) (path : FilePath) (rs : List FilePath) (s : Inotify K)
      → (add_for_roots f path rs s).rename_map ≡ s.rename_map
  unfolding add_for_roots
  add_for_roots-rename_map f path [] s = refl
  add_for_roots-rename_map f path (r ∷ rs) s =
      add_for_roots-rename_map f path rs _
      ∙ add_recursive_watches-keeps (λ t. t.rename_map ≡ s.rename_map)
          (λ p q t e. add_directory_watch-rename_map p q true t ∙ e) f path r s refl

  cover-rename_map :
      (f : ℕ) (ev : InotifyEvent) (path : FilePath) (rec : Bool) (s : Inotify K)
      → (cover f ev path rec s).1.rename_map ≡ s.rename_map
  unfolding cover
  cover-rename_map f ev path rec s =
      ground (arith, add_for_roots-rename_map f path (recursive_roots ev.wd s) s)

  move_to-rename_map :
      (f c : ℕ) (ev : InotifyEvent) (path : FilePath) (rec : Bool) (s : Inotify K)
      → ev.cookie ≢ c
      → lookup c (move_to f ev path rec s).1.rename_map ≡ lookup c s.rename_map
  unfolding move_to
  move_to-rename_map f c ev path rec s n = elim (Option-cases (lookup ev.cookie s.rename_map)) [
    | inl e ↦ ground (arith, cover-rename_map f ev path rec s)
    | inr (i, e) ↦ ground (
      arith,
      Dict.lookup-erase ev.cookie c s.rename_map,
      cover-rename_map f ev path rec (record s { rename_map = Dict.erase ev.cookie s.rename_map }),
    )
  ]

  report-rename_map :
      (f c : ℕ) (ev : InotifyEvent) (path : FilePath) (rec : Bool) (s : Inotify K)
      → IsApart c ev
      → lookup c (report f ev path rec s).1.rename_map ≡ lookup c s.rename_map
  unfolding report
  report-rename_map f c ev path rec s a = ground (
    arith,
    cover-rename_map f ev path rec s,
    move_to-rename_map f c ev path rec s,
    Dict.lookup-insert ev.cookie c (record { old_path = path; old_path_type = type_of ev })
        s.rename_map,
  )

  drop_ignored-rename_map : (wd : ℕ) (s : Inotify K) → (drop_ignored wd s).rename_map ≡ s.rename_map
  unfolding drop_ignored
  drop_ignored-rename_map wd s = refl

  -- What is kept under a cookie stays until the other half comes.
  process_event-rename_map :
      (f c : ℕ) (ev : InotifyEvent) (s : Inotify K)
      → IsApart c ev
      → lookup c (process_event f ev s).1.rename_map ≡ lookup c s.rename_map
  unfolding process_event
  process_event-rename_map f c ev s a = elim (Option-cases (lookup ev.wd s.watch_map)) [
    | inl e ↦ ground (arith, drop_ignored-rename_map ev.wd s)
    | inr (base, e) ↦ ground (
      arith,
      drop_ignored-rename_map ev.wd s,
      report-rename_map f c ev (event_path base ev) (flag_at ev.wd s.watch_recursive) s a,
    )
  ]

  process_buffer-rename_map :
      (f c : ℕ) (evs : List InotifyEvent) (s : Inotify K)
      → All (IsApart c) evs
      → lookup c (process_buffer f evs s).1.rename_map ≡ lookup c s.rename_map
  unfolding process_buffer
  process_buffer-rename_map f c [] s a = refl
  process_buffer-rename_map f c (ev ∷ evs) s a =
      process_buffer-rename_map f c evs _ a.1 ∙ process_event-rename_map f c ev s a.0

  -- The first half of a rename reports nothing and is kept under its cookie.
  move_from_lem :
      (f : ℕ) (ev : InotifyEvent) (base : FilePath) (s : Inotify K)
      → IsMoveFrom ev
      → lookup ev.wd s.watch_map ≡ some base
      → let r = process_event f ev s in
        (r.0 ≡ [])
        × (lookup ev.cookie r.1.rename_map
            ≡ some (record { old_path = event_path base ev; old_path_type = type_of ev }))
  unfolding process_event report
  move_from_lem f ev base s m e =
      let info : RenameInfo = record {
        old_path = event_path base ev;
        old_path_type = type_of ev;
      } in
      ground (arith, m.from, m.only, Dict.lookup-insert ev.cookie ev.cookie info s.rename_map)

  move_to_lem :
      (f : ℕ) (ev : InotifyEvent) (base : FilePath) (i : RenameInfo) (s : Inotify K)
      → IsMoveTo ev
      → lookup ev.wd s.watch_map ≡ some base
      → lookup ev.cookie s.rename_map ≡ some i
      → let path = event_path base ev in
        let r = process_event f ev s in
        let t = record s { rename_map = Dict.erase ev.cookie s.rename_map } in
        (r.0
          ≡ (cover f ev path (flag_at ev.wd s.watch_recursive) t).0
            ++ file_event_from rename path (type_of ev) i.old_path i.old_path_type ∷ [])
        × (lookup ev.cookie r.1.rename_map ≡ none)
  unfolding process_event report move_to
  move_to_lem f ev base i s m e k = ground (
    arith,
    m.to,
    m.only,
    Dict.lookup-erase ev.cookie ev.cookie s.rename_map,
    cover-rename_map f ev (event_path base ev) (flag_at ev.wd s.watch_recursive)
        (record s { rename_map = Dict.erase ev.cookie s.rename_map }),
  )

  -- When the first half of a rename is seen in a watched directory, then events that are no half
  -- of it, then the second half under the same cookie in a directory that is watched at that time,
  -- the first half reports nothing; the second reports what is found below a directory that it
  -- brings, then the rename from the first path to the second; and nothing is kept under the
  -- cookie.
  pub rename_paired :
      (f : ℕ) (from to : InotifyEvent) (evs : List InotifyEvent) (old new : FilePath)
      (s : Inotify K)
      → IsMoveFrom from
      → IsMoveTo to
      → to.cookie ≡ from.cookie
      → All (IsApart from.cookie) evs
      → lookup from.wd s.watch_map ≡ some old
      → let first = process_event f from s in
        let t = (process_buffer f evs first.1).1 in
        let last = process_event f to t in
        let path = event_path new to in
        lookup to.wd t.watch_map ≡ some new
        → (first.0 ≡ [])
          × (last.0
              ≡ (cover f to path
                  (flag_at to.wd t.watch_recursive)
                  (record t { rename_map = Dict.erase to.cookie t.rename_map })).0
                ++ file_event_from rename path (type_of to) (event_path old from) (type_of from)
                  ∷ [])
          × (lookup to.cookie last.1.rename_map ≡ none)
  rename_paired f from to evs old new s mf mt same apart e g =
      let kept = move_from_lem f from old s mf e in
      let info : RenameInfo = record {
        old_path = event_path old from;
        old_path_type = type_of from;
      } in
      let still = process_buffer-rename_map f from.cookie evs (process_event f from s).1 apart in
      let last = move_to_lem f to new info _ mt g (
        ap (λ c. lookup c (process_buffer f evs (process_event f from s).1).1.rename_map) same
        ∙ (still ∙ kept.1)) in
      (kept.0, last.0, last.1)

  -- The first half of a rename, seen in a watched directory, reports nothing, and its entry is
  -- kept as long as the events that follow are no halves of a rename under its cookie: a file that
  -- leaves the watched directories is not reported by them.
  pub moved_out_lost :
      (f : ℕ) (from : InotifyEvent) (evs : List InotifyEvent) (old : FilePath) (s : Inotify K)
      → IsMoveFrom from
      → All (IsApart from.cookie) evs
      → lookup from.wd s.watch_map ≡ some old
      → let first = process_event f from s in
        (first.0 ≡ [])
        × (lookup from.cookie (process_buffer f evs first.1).1.rename_map
            ≡ some (record { old_path = event_path old from; old_path_type = type_of from }))
  moved_out_lost f from evs old s m apart e =
      let kept = move_from_lem f from old s m e in
      (kept.0, process_buffer-rename_map f from.cookie evs _ apart ∙ kept.1)
