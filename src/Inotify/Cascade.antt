-- ===== src/Inotify/Cascade.antt =====
-- `removeWatch` on a root: which descriptors stay, and what holds behind it.
use libfilewatch.Base.{
  ℕ, ◌≡◌, refl, sym, ap, ◌∙◌, subst, ◌≢◌, ◌↔◌, inl, List, [], ◌∷◌, Nodup, In, In-erase, contains,
  contains_iff, erase, if◌then◌else◌, nat_eq, text_eq, none, some, arith,
}
use libfilewatch.Base.Dict
use libfilewatch.Base.Dict.{Dict, lookup}
use libfilewatch.Path.{FilePath}
use libfilewatch.Inotify.{Kernel, Inotify, RootWatch, root_at, roots_at, release_all, remove_root}
use libfilewatch.Inotify.Invariant.{IsConsistent, root_at-erase}
use libfilewatch.Inotify.Release.{
  freed_last, rm_each, release_all-Nodup, forget_all-kernel, roots_at-release_all, In-release_all,
  forget_all-IsKnown, lookup-forget_all, forget_all_rest,
}

erase_all : (r : FilePath) (xs : List FilePath) → xs ≢ [] → erase r xs ≡ [] → In r xs
erase_all r [] n e = absurd (n refl)
erase_all r (x ∷ xs) n e = ground arith

some_other :
    (r : FilePath) (xs ys : List FilePath)
    → erase r xs ≡ ys
    → ys ≢ []
    → (x : FilePath) × (x ≢ r) × In x xs
some_other r xs [] e n = absurd (n refl)
some_other r xs (y ∷ ys) e n =
    let (at, other) = (In-erase y r xs).0 (subst (In y) (sym e) (inl refl)) in (y, other, at)

module _ {K : Kernel} (norm : FilePath) (watch : RootWatch) (s : Inotify K) (c : IsConsistent s)
    (root : lookup norm s.root_watches ≡ some watch) where
  left : Inotify K
  left = remove_root norm watch s

  freed : List ℕ
  freed = (release_all norm watch.associated_wds s.wd_to_roots).0

  listed : (wd : ℕ) → In norm (roots_at wd s.wd_to_roots) → In wd watch.associated_wds
  listed wd m = let own = c.owned wd norm m in ground arith

  left_map :
      (wd : ℕ)
      → lookup wd left.watch_map ≡ (if contains freed wd then none else lookup wd s.watch_map)
  unfolding left freed remove_root
  left_map wd = lookup-forget_all freed _ wd

  left_roots :
      (wd : ℕ)
      → roots_at wd left.wd_to_roots ≡ (
          if contains watch.associated_wds wd
          then erase norm (roots_at wd s.wd_to_roots)
          else roots_at wd s.wd_to_roots)
  unfolding left freed remove_root
  left_roots wd =
      ap (roots_at wd) (forget_all_rest freed _).1
      ∙ roots_at-release_all norm watch.associated_wds wd s.wd_to_roots

  -- A root still stands among the holders of a descriptor exactly if it did and is not the removed one.
  left_holders :
      (wd : ℕ) (r : FilePath)
      → In r (roots_at wd left.wd_to_roots) ↔ (In r (roots_at wd s.wd_to_roots) × (r ≢ norm))
  left_holders wd r = ground (
    arith,
    left_roots wd,
    In-erase r norm (roots_at wd s.wd_to_roots),
    contains_iff watch.associated_wds wd,
    listed wd,
  )

  freed_iff :
      (wd : ℕ) (p : FilePath)
      → lookup wd s.watch_map ≡ some p
      → In wd freed ↔ (erase norm (roots_at wd s.wd_to_roots) ≡ [])
  unfolding freed
  freed_iff wd p e =
      let n = c.held wd p e in
      let all = In-release_all norm watch.associated_wds wd s.wd_to_roots n in
      (λ m. (all.0 m).1, λ q. all.1 (listed wd (erase_all norm (roots_at wd s.wd_to_roots) n q), q))

  stays :
      (wd : ℕ) (p : FilePath)
      → (lookup wd left.watch_map ≡ some p) ↔ (
          (lookup wd s.watch_map ≡ some p)
          × ((r : FilePath) × (r ≢ norm) × In r (roots_at wd s.wd_to_roots)))
  stays wd p = (
    λ h.
        let at : lookup wd s.watch_map ≡ some p = ground (arith, left_map wd) in
        (
          at,
          some_other norm (roots_at wd s.wd_to_roots) _ refl
              (λ e. ground (arith, left_map wd, freed_iff wd p at, contains_iff freed wd)),
        ),
    λ (at, (r, other, m)). ground (
      arith,
      left_map wd,
      freed_iff wd p at,
      contains_iff freed wd,
      In-erase r norm (roots_at wd s.wd_to_roots),
    ),
  )

  left_root_watches : left.root_watches ≡ Dict.erase norm s.root_watches
  unfolding left freed remove_root
  left_root_watches = (forget_all_rest freed _).0

  left_known :
      (wd : ℕ) (p : FilePath)
      → lookup wd left.watch_map ≡ some p
      → lookup p left.path_watch_map ≡ some wd
  unfolding left freed remove_root
  left_known = forget_all-IsKnown freed _ c.known

  not_empty : (r : FilePath) (xs : List FilePath) → In r xs → xs ≢ []
  not_empty r [] m = λ e. m
  not_empty r (x ∷ xs) m = λ e. cc

  pub remove_root-IsConsistent : IsConsistent (remove_root norm watch s)
  unfolding left
  remove_root-IsConsistent = record {
    known = left_known;
    held = λ wd p h.
        let (r, other, m) = ((stays wd p).0 h).1 in
        not_empty r (roots_at wd left.wd_to_roots) ((left_holders wd r).1 (m, other));
    owned = λ wd r m.
        let (at, other) = (left_holders wd r).0 m in
        subst (λ d. In wd (root_at K.unset r d).associated_wds) (sym left_root_watches)
          (subst (λ w. In wd w.associated_wds)
            (sym (root_at-erase K.unset norm r s.root_watches other)) (c.owned wd r at));
  }

  left_kernel : left.kernel ≡ rm_each K freed s.kernel
  unfolding left freed remove_root
  left_kernel = forget_all-kernel freed _

  freed_gone :
      (wd : ℕ) (p : FilePath)
      → lookup wd s.watch_map ≡ some p
      → In wd freed ↔ (lookup wd left.watch_map ≡ none)
  freed_gone wd p e = ground (arith, left_map wd, contains_iff freed wd)

  -- On consistent tables, to remove a root is to remove from them the descriptors that it alone holds,
  -- wherever they lie below it, and no other; afterwards no descriptor is held by it, the other
  -- holders stand, and the root is unknown. What happens to the kernel meanwhile is that
  -- `inotify_rm_watch` is called, once each, for descriptors that the root lists, among those with a
  -- path exactly for the ones that are removed from the tables.
  pub remove_root_cascades :
      let s' = remove_root norm watch s in
      ((wd : ℕ) (p : FilePath)
        → (lookup wd s'.watch_map ≡ some p) ↔ (
            (lookup wd s.watch_map ≡ some p)
            × ((r : FilePath) × (r ≢ norm) × In r (roots_at wd s.wd_to_roots))))
      × ((wd : ℕ) (r : FilePath)
          → In r (roots_at wd s'.wd_to_roots) ↔ (In r (roots_at wd s.wd_to_roots) × (r ≢ norm)))
      × (lookup norm s'.root_watches ≡ none)
      × ((released : List ℕ) × Nodup released
          × ((wd : ℕ) → In wd released → In wd watch.associated_wds)
          × ((wd : ℕ) (p : FilePath)
              → lookup wd s.watch_map ≡ some p
              → In wd released ↔ (lookup wd s'.watch_map ≡ none))
          × (s'.kernel ≡ rm_each K released s.kernel))
  unfolding left freed
  remove_root_cascades = (
    stays,
    left_holders,
    ap (lookup norm) left_root_watches ∙ ground (arith, Dict.lookup-erase norm norm s.root_watches),
    (
      freed,
      release_all-Nodup norm watch.associated_wds s.wd_to_roots,
      λ wd m. (freed_last norm watch.associated_wds wd s.wd_to_roots m).0,
      freed_gone,
      left_kernel,
    ),
  )
