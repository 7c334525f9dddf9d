-- ===== src/Inotify/Roots.antt =====
-- Which roots `InotifyWatcher` (src/core/InotifyWatcher.cpp) holds: an event of the kernel brings no
-- new one.
use libfilewatch.Base.{
  ℕ, zero, suc, ◌≡◌, ◌≢◌, refl, sym, subst, inl, inr, Bool, true, false, List, [], ◌∷◌, All, keep,
  erase, if◌then◌else◌, nat_eq, text_eq, none, some, Option-cases, arith,
}
use libfilewatch.Base.Dict
use libfilewatch.Base.Dict.{Dict, lookup}
use libfilewatch.Path.{FilePath}
use libfilewatch.Inotify.{
  Kernel, Inotify, RootWatch, RenameInfo, roots_at, flag_at, attach, add_directory_watch,
  add_recursive_watches,
}
use libfilewatch.Inotify.Events.{
  InotifyEvent, unlink, drop_ignored, is_recursive_root, recursive_roots, add_for_roots, cover,
  move_to, report, event_path, process_event,
}
use libfilewatch.Inotify.Attach.{added_cases, kept_list, walk-keeps}

-- The inotify descriptor is open, and each root has a property.
pub record HasRoots {K : Kernel} (Q : FilePath → Type 0) (fd : ℕ) (s : Inotify K) : Type 0 where
  pub opened : s.inotify_fd ≡ some fd
  pub within : (r : FilePath) (w : RootWatch) → lookup r s.root_watches ≡ some w → Q r

unlink-old :
    (wd : ℕ) (rs : List FilePath) (d : Dict FilePath RootWatch) (r : FilePath) (w : RootWatch)
    → lookup r (unlink wd rs d) ≡ some w
    → lookup r d ≢ none
unfolding unlink
unlink-old wd [] d r w e n = cc
unlink-old wd (x ∷ rs) d r w e n = elim (Option-cases (lookup x d)) [
  | inl f ↦ unlink-old wd rs d r w (ground arith) n
  | inr (v, f) ↦
      let after = record v { associated_wds = erase wd v.associated_wds } in
      unlink-old wd rs (Dict.insert x after d) r w (ground arith)
        (ground (arith, Dict.lookup-insert x r after d))
]

pub insert_old :
    (k r : FilePath) (v w : RootWatch) (d : Dict FilePath RootWatch)
    → r ≢ k
    → lookup r (Dict.insert k v d) ≡ some w
    → lookup r d ≡ some w
insert_old k r v w d n e = ground (arith, Dict.lookup-insert k r v d)

pub erase_old :
    (k r : FilePath) (w : RootWatch) (d : Dict FilePath RootWatch)
    → lookup r (Dict.erase k d) ≡ some w
    → (r ≢ k) × (lookup r d ≡ some w)
erase_old k r w d e = ground (arith, Dict.lookup-erase k r d)

kept_one :
    (Q : FilePath → Type 0) (b : Bool) (r : FilePath) (rest : List FilePath)
    → (b ≡ true → Q r)
    → All Q rest
    → All Q (if b then r ∷ rest else rest)
kept_one Q true r rest q h = (q refl, h)
kept_one Q false r rest q h = h

module _ {K : Kernel} (Q : FilePath → Type 0) (fd : ℕ) where
  attach-HasRoots :
      (wd : ℕ) (root : FilePath) (rec : Bool) (s : Inotify K)
      → Q root
      → HasRoots Q fd s
      → HasRoots Q fd (attach wd root rec s)
  unfolding attach
  attach-HasRoots wd root rec s q h = record {
    opened = h.opened;
    within = λ r w e. elim (text_eq.dec r root) [
      | yes same ↦ subst Q (sym same) q
      | no other ↦ h.within r w (insert_old root r _ w s.root_watches other e)
    ];
  }

  pub add_directory_watch-HasRoots :
      (path root : FilePath) (rec : Bool) (s : Inotify K)
      → Q root
      → HasRoots Q fd s
      → HasRoots Q fd (add_directory_watch path root rec s).1
  add_directory_watch-HasRoots path root rec s q h = elim (added_cases path root rec s) [
    | inl (wd, e, r) ↦ subst (λ t. HasRoots Q fd t.1) (sym r) (attach-HasRoots wd root rec s q h)
    | inr (inl (e, n, r)) ↦
        subst (λ t. HasRoots Q fd t.1) (sym r) (record { opened = h.opened; within = h.within })
    | inr (inr (wd, e, n, r)) ↦
        subst (λ t. HasRoots Q fd t.1) (sym r)
          (attach-HasRoots wd root rec _ q (record { opened = h.opened; within = h.within }))
  ]

  pub add_recursive_watches-HasRoots :
      (f : ℕ) (path root : FilePath) (s : Inotify K)
      → Q root
      → HasRoots Q fd s
      → HasRoots Q fd (add_recursive_watches f path root s)
  unfolding add_recursive_watches
  add_recursive_watches-HasRoots zero path root s q h = h
  add_recursive_watches-HasRoots (suc f) path root s q h =
      let top = add_directory_watch-HasRoots path root true s q h in
      kept_list (HasRoots Q fd) (K.list_dir (add_directory_watch path root true s).1.kernel path)
        top
        (λ names.
          walk-keeps (HasRoots Q fd) _ (λ p t k. add_recursive_watches-HasRoots f p root t q k) path
            names _ top)

  add_for_roots-HasRoots :
      (f : ℕ) (path : FilePath) (rs : List FilePath) (s : Inotify K)
      → All Q rs
      → HasRoots Q fd s
      → HasRoots Q fd (add_for_roots f path rs s)
  unfolding add_for_roots
  add_for_roots-HasRoots f path [] s q h = h
  add_for_roots-HasRoots f path (r ∷ rs) s q h =
      add_for_roots-HasRoots f path rs _ q.1 (add_recursive_watches-HasRoots f path r s q.0 h)

  recursive_root :
      (s : Inotify K) (r : FilePath) → HasRoots Q fd s → is_recursive_root s r ≡ true → Q r
  recursive_root s r h e = elim (Option-cases (lookup r s.root_watches)) [
    | inl n ↦ absurd (ground arith)
    | inr (w, f) ↦ h.within r w f
  ]

  kept-All :
      (s : Inotify K) (rs : List FilePath) → HasRoots Q fd s → All Q (keep (is_recursive_root s) rs)
  kept-All s [] h = tt
  kept-All s (r ∷ rs) h =
      kept_one Q (is_recursive_root s r) r (keep (is_recursive_root s) rs) (recursive_root s r h)
        (kept-All s rs h)

  cover-HasRoots :
      (f : ℕ) (ev : InotifyEvent) (path : FilePath) (rec : Bool) (s : Inotify K)
      → HasRoots Q fd s
      → HasRoots Q fd (cover f ev path rec s).1
  unfolding cover
  cover-HasRoots f ev path rec s h =
      let rs = recursive_roots ev.wd s in
      ground
        (arith, add_for_roots-HasRoots f path rs s (kept-All s (roots_at ev.wd s.wd_to_roots) h) h)

  renamed-HasRoots :
      (m : Dict ℕ RenameInfo) (s : Inotify K)
      → HasRoots Q fd s
      → HasRoots Q fd (record s { rename_map = m })
  renamed-HasRoots m s h = record { opened = h.opened; within = h.within }

  move_to-HasRoots :
      (f : ℕ) (ev : InotifyEvent) (path : FilePath) (rec : Bool) (s : Inotify K)
      → HasRoots Q fd s
      → HasRoots Q fd (move_to f ev path rec s).1
  unfolding move_to
  move_to-HasRoots f ev path rec s h =
      let m = Dict.erase ev.cookie s.rename_map in
      elim (Option-cases (lookup ev.cookie s.rename_map)) [
        | inl e ↦ ground (arith, cover-HasRoots f ev path rec s h)
        | inr (i, e) ↦ ground (
          arith,
          cover-HasRoots f ev path rec (record s { rename_map = m }) (renamed-HasRoots m s h),
        )
      ]

  report-HasRoots :
      (f : ℕ) (ev : InotifyEvent) (path : FilePath) (rec : Bool) (s : Inotify K)
      → HasRoots Q fd s
      → HasRoots Q fd (report f ev path rec s).1
  unfolding report
  report-HasRoots f ev path rec s h = ground (
    arith,
    cover-HasRoots f ev path rec s h,
    move_to-HasRoots f ev path rec s h,
    renamed-HasRoots (report f ev path rec s).1.rename_map s h,
  )

  drop_ignored-HasRoots :
      (wd : ℕ) (s : Inotify K) → HasRoots Q fd s → HasRoots Q fd (drop_ignored wd s)
  unfolding drop_ignored
  drop_ignored-HasRoots wd s h = record {
    opened = h.opened;
    within = λ r w e. elim (Option-cases (lookup r s.root_watches)) [
      | inl n ↦ absurd (unlink-old wd (roots_at wd s.wd_to_roots) s.root_watches r w e n)
      | inr (v, f) ↦ h.within r v f
    ];
  }

  pub process_event-HasRoots :
      (f : ℕ) (ev : InotifyEvent) (s : Inotify K)
      → HasRoots Q fd s
      → HasRoots Q fd (process_event f ev s).1
  unfolding process_event
  process_event-HasRoots f ev s h = elim (Option-cases (lookup ev.wd s.watch_map)) [
    | inl e ↦ ground (arith, drop_ignored-HasRoots ev.wd s h)
    | inr (base, e) ↦ ground (
      arith,
      drop_ignored-HasRoots ev.wd s h,
      report-HasRoots f ev (event_path base ev) (flag_at ev.wd s.watch_recursive) s h,
    )
  ]
