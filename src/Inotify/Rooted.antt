-- ===== src/Inotify/Rooted.antt =====
-- Which roots `InotifyWatcher` (src/core/InotifyWatcher.cpp) holds after `addWatch` and `removeWatch`.
use libfilewatch.Base.{
  ℕ, ◌≡◌, ◌≢◌, refl, ◌⊎◌, inl, inr, Bool, true, false, List, [], ◌∷◌, nat_eq, text_eq, Option-cases,
  arith,
}
use libfilewatch.Base.Dict
use libfilewatch.Base.Dict.{Dict, lookup}
use libfilewatch.Path.{FilePath, normalize_path}
use libfilewatch.Inotify.{
  Kernel, Inotify, RootWatch, add_directory_watch, add_watch, forget, forget_all, release_all,
  remove_root, remove_single, remove_watch,
}
use libfilewatch.Inotify.Roots.{
  HasRoots, insert_old, erase_old, add_directory_watch-HasRoots, add_recursive_watches-HasRoots,
}

abbrev pub OrRoot : (FilePath → Type 0) → FilePath → FilePath → Type 0
OrRoot Q norm r = (r ≡ norm) ⊎ Q r

-- What `addWatch` leaves: a root more where it succeeds, and none where it fails.
module _ {K : Kernel} where
  entered-HasRoots :
      (Q : FilePath → Type 0) (fd : ℕ) (norm : FilePath) (watch : RootWatch) (s : Inotify K)
      → HasRoots Q fd s
      → HasRoots
          (OrRoot Q norm)
          fd
          (record s { root_watches = Dict.insert norm watch s.root_watches })
  entered-HasRoots Q fd norm watch s h = record {
    opened = h.opened;
    within = λ r w e. elim (text_eq.dec r norm) [
      | yes same ↦ inl same
      | no other ↦ inr (h.within r w (insert_old norm r watch w s.root_watches other e))
    ];
  }

  erased-HasRoots :
      (Q : FilePath → Type 0) (fd : ℕ) (norm : FilePath) (s : Inotify K)
      → HasRoots (OrRoot Q norm) fd s
      → HasRoots
          (λ r. Q r × (r ≢ norm))
          fd
          (record s { root_watches = Dict.erase norm s.root_watches })
  erased-HasRoots Q fd norm s h = record {
    opened = h.opened;
    within = λ r w e.
        let (other, old) = erase_old norm r w s.root_watches e in
        (elim (h.within r w old) [ inl same ↦ absurd (other same) | inr q ↦ q ], other);
  }

  forget_all-HasRoots :
      (Q : FilePath → Type 0) (fd : ℕ) (wds : List ℕ) (s : Inotify K)
      → HasRoots Q fd s
      → HasRoots Q fd (forget_all wds s)
  unfolding forget_all forget
  forget_all-HasRoots Q fd [] s h = h
  forget_all-HasRoots Q fd (wd ∷ wds) s h =
      forget_all-HasRoots Q fd wds (forget wd s) (record { opened = h.opened; within = h.within })

  pub remove_watch-HasRoots :
      (Q : FilePath → Type 0) (fd : ℕ) (path : FilePath) (s : Inotify K)
      → HasRoots Q fd s
      → HasRoots (λ r. Q r × (r ≢ normalize_path path)) fd (remove_watch path s).1
  unfolding remove_watch remove_root remove_single
  remove_watch-HasRoots Q fd path s h =
      let norm = normalize_path path in
      let R : FilePath → Type 0 = λ r. Q r × (r ≢ norm) in
      elim (Option-cases (lookup norm s.root_watches)) [
        | inr (w, e) ↦
            let r = release_all norm w.associated_wds s.wd_to_roots in
            ground (
              arith,
              h.opened,
              forget_all-HasRoots R fd r.0
                  (record s { wd_to_roots = r.1; root_watches = Dict.erase norm s.root_watches })
                  (erased-HasRoots Q fd norm (record s { wd_to_roots = r.1 })
                    (record { opened = h.opened; within = λ x y z. inr (h.within x y z) })),
            )
        | inl e ↦
            let kept : HasRoots R fd s = record {
              opened = h.opened;
              within = λ r w f. (h.within r w f, λ same. ground arith);
            } in
            elim (Option-cases (lookup norm s.path_watch_map)) [
              | inl n ↦ ground (arith, h.opened)
              | inr (wd, n) ↦ ground (
                arith,
                h.opened,
                forget_all-HasRoots R fd (wd ∷ [])
                    (record s { wd_to_roots = Dict.erase wd s.wd_to_roots })
                    (record { opened = kept.opened; within = kept.within }),
              )
            ]
      ]

  -- What `addWatch` leaves, where it answers true and where it answers false.
  pub add_watch-HasRoots :
      (Q : FilePath → Type 0) (fd f : ℕ) (path : FilePath) (rec : Bool) (s : Inotify K)
      → HasRoots Q fd s
      → let norm = normalize_path path in
        let r = add_watch f path rec s in
        ((r.0 ≡ true) × HasRoots (OrRoot Q norm) fd r.1)
        ⊎ ((r.0 ≡ false) × HasRoots (λ x. Q x × (x ≢ norm)) fd r.1)
  unfolding add_watch
  add_watch-HasRoots Q fd f path rec s h =
      let norm = normalize_path path in
      let watch : RootWatch = record { root_path = norm; recursive = rec; associated_wds = [] } in
      let entered : Inotify K = record s { root_watches = Dict.insert norm watch s.root_watches } in
      let first = add_directory_watch norm norm rec entered in
      let R = OrRoot Q norm in
      let top =
        add_directory_watch-HasRoots R fd norm norm rec entered (inl refl)
          (entered-HasRoots Q fd norm watch s h) in
      let opened = h.opened in
      elim (Option-cases first.0) [
        | inl e ↦ inr (ground arith, ground (arith, erased-HasRoots Q fd norm first.1 top))
        | inr (wd, e) ↦ inl (
          ground arith,
          ground
              (arith, top, add_recursive_watches-HasRoots R fd f norm norm first.1 (inl refl) top),
        )
      ]
