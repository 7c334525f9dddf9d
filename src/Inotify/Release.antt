-- ===== src/Inotify/Release.antt =====
-- `removeWatch`: the release of a root's descriptors.
use libfilewatch.Base.{
  ℕ, ◌≡◌, refl, sym, ap, subst, ◌∙◌, ◌≢◌, ◌↔◌, inl, inr, Bool, true, false, List, Nodup, Bool-cases,
  [], ◌∷◌, is_empty, In, contains, erase, if◌then◌else◌, ◌==◌, nat_eq, text_eq, none, some,
  Option-cases, arith,
}
use libfilewatch.Base.Dict
use libfilewatch.Base.Dict.{Dict, lookup}
use libfilewatch.Path.{FilePath}
use libfilewatch.Inotify.{Kernel, Inotify, roots_at, release_all, forget, forget_all}
use libfilewatch.Inotify.Invariant.{roots_at-insert, roots_at-erase}

erase_idem : (r : FilePath) (xs : List FilePath) → erase r (erase r xs) ≡ erase r xs
erase_idem r [] = refl
erase_idem r (x ∷ xs) = ground (arith, erase_idem r xs)

-- The table behind the visit of one descriptor.
visit : FilePath → ℕ → Dict ℕ (List FilePath) → Dict ℕ (List FilePath)
visit root wd d =
    let rest = erase root (roots_at wd d) in
    elim (lookup wd d) [
      | none ↦ d
      | some _ ↦ if is_empty rest then Dict.erase wd d else Dict.insert wd rest d
    ]

roots_at-visit :
    (root : FilePath) (k wd : ℕ) (d : Dict ℕ (List FilePath))
    → roots_at wd (visit root k d) ≡ (if wd == k then erase root (roots_at k d) else roots_at wd d)
unfolding visit
roots_at-visit root k wd d =
    ground (arith, roots_at-insert k wd (erase root (roots_at k d)) d, roots_at-erase k wd d)

is_freed : FilePath → ℕ → Dict ℕ (List FilePath) → Bool
is_freed root wd d = elim (lookup wd d) [ none ↦ false | some l ↦ is_empty (erase root l) ]

release_cons :
    (root : FilePath) (wd : ℕ) (wds : List ℕ) (d : Dict ℕ (List FilePath))
    → ((release_all root (wd ∷ wds) d).1 ≡ (release_all root wds (visit root wd d)).1)
      × ((release_all root (wd ∷ wds) d).0 ≡ (
          if is_freed root wd d
          then wd ∷ (release_all root wds (visit root wd d)).0
          else (release_all root wds (visit root wd d)).0))
unfolding release_all visit is_freed
release_cons root wd wds d = ground arith

-- The root is taken from the sets of its descriptors.
pub roots_at-release_all :
    (root : FilePath) (wds : List ℕ) (wd : ℕ) (d : Dict ℕ (List FilePath))
    → roots_at wd (release_all root wds d).1
      ≡ (if contains wds wd then erase root (roots_at wd d) else roots_at wd d)
roots_at-release_all root [] wd d = unfold release_all in refl
roots_at-release_all root (k ∷ wds) wd d =
    ap (roots_at wd) (release_cons root k wds d).0
    ∙ roots_at-release_all root wds wd (visit root k d)
    ∙ ground (
      arith,
      roots_at-visit root k wd d,
      erase_idem root (roots_at k d),
      erase_idem root (roots_at wd d),
    )

pub freed_last :
    (root : FilePath) (wds : List ℕ) (wd : ℕ) (d : Dict ℕ (List FilePath))
    → In wd (release_all root wds d).0
    → In wd wds × (erase root (roots_at wd d) ≡ [])
unfolding is_freed
freed_last root [] wd d m = absurd (unfold release_all in m)
freed_last root (k ∷ wds) wd d m = ground (
  arith,
  release_cons root k wds d,
  freed_last root wds wd (visit root k d),
  roots_at-visit root k wd d,
  erase_idem root (roots_at k d),
)

last_freed :
    (root : FilePath) (wds : List ℕ) (wd : ℕ) (d : Dict ℕ (List FilePath))
    → roots_at wd d ≢ []
    → In wd wds
    → erase root (roots_at wd d) ≡ []
    → In wd (release_all root wds d).0
unfolding is_freed
last_freed root [] wd d n m e = absurd m
last_freed root (k ∷ wds) wd d n m e = ground (
  arith,
  release_cons root k wds d,
  last_freed root wds wd (visit root k d),
  roots_at-visit root k wd d,
)

-- Freed are the descriptors that no other root held.
pub In-release_all :
    (root : FilePath) (wds : List ℕ) (wd : ℕ) (d : Dict ℕ (List FilePath))
    → roots_at wd d ≢ []
    → In wd (release_all root wds d).0 ↔ (In wd wds × (erase root (roots_at wd d) ≡ []))
In-release_all root wds wd d n = (freed_last root wds wd d, λ m. last_freed root wds wd d n m.0 m.1)

visit-none :
    (root : FilePath) (k wd : ℕ) (d : Dict ℕ (List FilePath))
    → lookup wd d ≡ none
    → lookup wd (visit root k d) ≡ none
unfolding visit
visit-none root k wd d e =
    ground (arith, Dict.lookup-insert k wd (erase root (roots_at k d)) d, Dict.lookup-erase k wd d)

visit-freed :
    (root : FilePath) (k : ℕ) (d : Dict ℕ (List FilePath))
    → is_freed root k d ≡ true
    → lookup k (visit root k d) ≡ none
unfolding visit is_freed
visit-freed root k d e = ground (arith, Dict.lookup-erase k k d)

never_freed :
    (root : FilePath) (wds : List ℕ) (wd : ℕ) (d : Dict ℕ (List FilePath))
    → lookup wd d ≡ none
    → ¬ In wd (release_all root wds d).0
unfolding is_freed
never_freed root [] wd d n m = absurd (unfold release_all in m)
never_freed root (k ∷ wds) wd d n m = ground (
  arith,
  release_cons root k wds d,
  never_freed root wds wd (visit root k d) (visit-none root k wd d n),
)

-- Each descriptor is freed once.
pub release_all-Nodup :
    (root : FilePath) (wds : List ℕ) (d : Dict ℕ (List FilePath)) → Nodup (release_all root wds d).0
release_all-Nodup root [] d = unfold release_all in tt
release_all-Nodup root (k ∷ wds) d =
    let later = release_all-Nodup root wds (visit root k d) in
    elim (Bool-cases (is_freed root k d)) [
      | inl y ↦
          let e : (release_all root (k ∷ wds) d).0 ≡ k ∷ (release_all root wds (visit root k d)).0 =
            ground (arith, release_cons root k wds d) in
          subst Nodup (sym e)
            (never_freed root wds k (visit root k d) (visit-freed root k d y), later)
      | inr n ↦
          let e : (release_all root (k ∷ wds) d).0 ≡ (release_all root wds (visit root k d)).0 =
            ground (arith, release_cons root k wds d) in
          subst Nodup (sym e) later
    ]

-- The kernel is told to drop descriptors, in turn.
abbrev pub rm_each : (K : Kernel) → List ℕ → K.State → K.State
rm_each K [] k = k
rm_each K (wd ∷ wds) k = rm_each K wds (K.inotify_rm_watch wd k)

module _ {K : Kernel} where
  abbrev pub IsKnown : Inotify K → Type 0
  IsKnown s =
      (wd : ℕ) (p : FilePath) → lookup wd s.watch_map ≡ some p → lookup p s.path_watch_map ≡ some wd

  forget-IsKnown : (k : ℕ) (s : Inotify K) → IsKnown s → IsKnown (forget k s)
  unfolding forget
  forget-IsKnown k s h wd p e = elim (Option-cases (lookup k s.watch_map)) [
    | inl n ↦ ground (arith, h wd p, Dict.lookup-erase k wd s.watch_map)
    | inr (q, m) ↦ ground (
      arith,
      h wd p,
      h k q m,
      Dict.lookup-erase k wd s.watch_map,
      Dict.lookup-erase q p s.path_watch_map,
    )
  ]

  pub forget_all-IsKnown : (ks : List ℕ) (s : Inotify K) → IsKnown s → IsKnown (forget_all ks s)
  unfolding forget_all
  forget_all-IsKnown [] s h = h
  forget_all-IsKnown (k ∷ ks) s h = forget_all-IsKnown ks (forget k s) (forget-IsKnown k s h)

  pub lookup-forget_all :
      (ks : List ℕ) (s : Inotify K) (wd : ℕ)
      → lookup wd (forget_all ks s).watch_map
        ≡ (if contains ks wd then none else lookup wd s.watch_map)
  unfolding forget_all
  lookup-forget_all [] s wd = refl
  lookup-forget_all (k ∷ ks) s wd =
      ground (arith, lookup-forget_all ks (forget k s) wd, Dict.lookup-erase k wd s.watch_map)

  -- What the kernel is told.
  pub forget_all-kernel :
      (ks : List ℕ) (s : Inotify K) → (forget_all ks s).kernel ≡ rm_each K ks s.kernel
  unfolding forget_all forget
  forget_all-kernel [] s = refl
  forget_all-kernel (k ∷ ks) s = forget_all-kernel ks (forget k s)

  pub forget_all_rest :
      (ks : List ℕ) (s : Inotify K)
      → ((forget_all ks s).root_watches ≡ s.root_watches)
        × ((forget_all ks s).wd_to_roots ≡ s.wd_to_roots)
  unfolding forget_all
  forget_all_rest [] s = (refl, refl)
  forget_all_rest (k ∷ ks) s = forget_all_rest ks (forget k s)
