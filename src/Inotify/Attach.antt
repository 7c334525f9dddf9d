-- ===== src/Inotify/Attach.antt =====
-- `addDirectoryWatch`: a descriptor is obtained and entered under a root.
use libfilewatch.Base.{
  ℕ, ◌≡◌, refl, sym, subst, ◌≢◌, ◌⊎◌, inl, inr, Bool, true, false, List, [], ◌∷◌, In, In-insert,
  insert, if◌then◌else◌, nat_eq, text_eq, zero, suc, Option, none, some, Option-cases, arith,
}
use libfilewatch.Base.Dict
use libfilewatch.Base.Dict.{Dict, lookup}
use libfilewatch.Path.{FilePath}
use libfilewatch.Inotify.{
  Kernel, Inotify, root_at, roots_at, attach, add_directory_watch, is_dots, child_path, walk,
  add_recursive_watches,
}
use libfilewatch.Inotify.Invariant.{IsConsistent, roots_at-insert, root_at-insert}

filled : (root : FilePath) (l : List FilePath) → insert root l ≢ []
filled root l = ground (arith, In-insert root root l)

module _ {K : Kernel} where
  -- What `addDirectoryWatch` does to the tables, told apart by what was known.
  pub added_cases :
      (path root : FilePath) (rec : Bool) (s : Inotify K)
      → let r = add_directory_watch path root rec s in
        let k = K.inotify_add_watch path s.kernel in
        ((wd : ℕ) × (lookup path s.path_watch_map ≡ some wd)
          × (r ≡ (some wd, attach wd root rec s)))
        ⊎ ((lookup path s.path_watch_map ≡ none)
            × (k.0 ≡ none)
            × (r ≡ (none, record s { kernel = k.1 })))
        ⊎ ((wd : ℕ) × (lookup path s.path_watch_map ≡ none)
            × (k.0 ≡ some wd)
            × (r ≡ (
              some wd,
              attach wd root rec (record s {
                kernel = k.1;
                watch_map = Dict.insert wd path s.watch_map;
                path_watch_map = Dict.insert path wd s.path_watch_map;
              }),
            )))
  unfolding add_directory_watch
  added_cases path root rec s = elim (Option-cases (lookup path s.path_watch_map)) [
    | inr (wd, e) ↦ inl (wd, e, ground arith)
    | inl e ↦ elim (Option-cases (K.inotify_add_watch path s.kernel).0) [
      | inl n ↦ inr (inl (e, n, ground arith))
      | inr (wd, a) ↦ inr (inr (wd, e, a, ground arith))
    ]
  ]

  attach-IsConsistent :
      (wd : ℕ) (root : FilePath) (rec : Bool) (s : Inotify K)
      → ((k : ℕ) (p : FilePath)
          → lookup k s.watch_map ≡ some p
          → lookup p s.path_watch_map ≡ some k)
      → ((k : ℕ) (p : FilePath)
          → k ≢ wd
          → lookup k s.watch_map ≡ some p
          → roots_at k s.wd_to_roots ≢ [])
      → ((k : ℕ) (r : FilePath)
          → In r (roots_at k s.wd_to_roots)
          → In k (root_at K.unset r s.root_watches).associated_wds)
      → IsConsistent (attach wd root rec s)
  unfolding attach
  attach-IsConsistent wd root rec s known held owned = record {
    known = known;
    held = λ k p e. ground (
      arith,
      held k p,
      roots_at-insert wd k (insert root (roots_at wd s.wd_to_roots)) s.wd_to_roots,
      filled root (roots_at wd s.wd_to_roots),
    );
    owned = λ k r m. ground (
      arith,
      owned k r,
      roots_at-insert wd k (insert root (roots_at wd s.wd_to_roots)) s.wd_to_roots,
      In-insert r root (roots_at wd s.wd_to_roots),
      root_at-insert K.unset root r
          (record (root_at K.unset root s.root_watches) {
            associated_wds = insert wd (root_at K.unset root s.root_watches).associated_wds;
          })
          s.root_watches,
      In-insert k wd (root_at K.unset root s.root_watches).associated_wds,
    );
  }

  -- Whatever descriptor the kernel answers, also one it gave for another path before, the call keeps
  -- the tables consistent.
  pub add_directory_watch-IsConsistent :
      (path root : FilePath) (rec : Bool) (s : Inotify K)
      → IsConsistent s
      → IsConsistent (add_directory_watch path root rec s).1
  add_directory_watch-IsConsistent path root rec s c = elim (added_cases path root rec s) [
    | inl (wd, e, h) ↦
        subst (λ r. IsConsistent r.1) (sym h)
          (attach-IsConsistent wd root rec s c.known (λ k p n. c.held k p) c.owned)
    | inr (inl (e, n, h)) ↦
        subst (λ r. IsConsistent r.1) (sym h)
          (record { known = c.known; held = c.held; owned = c.owned })
    | inr (inr (wd, e, a, h)) ↦
        subst (λ r. IsConsistent r.1) (sym h)
          (attach-IsConsistent wd root rec _
            (λ k p m. ground (
              arith,
              c.known k p,
              Dict.lookup-insert wd k path s.watch_map,
              Dict.lookup-insert path p wd s.path_watch_map,
            ))
            (λ k p n m. ground (arith, c.held k p, Dict.lookup-insert wd k path s.watch_map))
            c.owned)
  ]

  module _ (P : Inotify K → Type 0) where
    pub kept_if : {s t : Inotify K} (b : Bool) → P s → P t → P (if b then s else t)
    kept_if true p q = p
    kept_if false p q = q

    pub kept_dir :
        {s t : Inotify K} (o : Option Bool)
        → P s
        → P t
        → P (elim o [ some true ↦ s | some false ↦ t | none ↦ t ])
    kept_dir none p q = q
    kept_dir (some true) p q = p
    kept_dir (some false) p q = q

    pub kept_list :
        {s : Inotify K} {g : List FilePath → Inotify K} (o : Option (List FilePath))
        → P s
        → ((l : List FilePath) → P (g l))
        → P (elim o [ none ↦ s | some l ↦ g l ])
    kept_list none p q = p
    kept_list (some l) p q = q l

    pub kept_answer :
        {s t : Inotify K} (o : Option ℕ)
        → (o ≡ none → P s)
        → P t
        → P (elim o as (λ _. Bool × Inotify K) [ none ↦ (false, s) | some _ ↦ (true, t) ]).1
    kept_answer none p q = p refl
    kept_answer (some wd) p q = q

    pub kept_fd :
        {s : Inotify K} (t : Bool × Inotify K) (o : Option ℕ)
        → P s
        → P t.1
        → P (elim o as (λ _. Bool × Inotify K) [ none ↦ (false, s) | some _ ↦ t ]).1
    kept_fd t none p q = p
    kept_fd t (some wd) p q = q

  -- A predicate of states that the call on one directory keeps is kept by the whole walk.
  pub walk-keeps :
      (P : Inotify K → Type 0) (down : FilePath → Inotify K → Inotify K)
      → ((p : FilePath) (t : Inotify K) → P t → P (down p t))
      → (path : FilePath) (names : List FilePath) (s : Inotify K) → P s
      → P (walk down path names s)
  unfolding walk
  walk-keeps P down keep path [] s h = h
  walk-keeps P down keep path (name ∷ names) s h =
      let skipped = walk-keeps P down keep path names s h in
      kept_if P (is_dots name) skipped (
        kept_dir P (K.stat_dir s.kernel (child_path path name))
          (walk-keeps P down keep path names _ (keep (child_path path name) s h)) skipped)

  pub add_recursive_watches-keeps :
      (P : Inotify K → Type 0)
      → ((path root : FilePath) (t : Inotify K) → P t → P (add_directory_watch path root true t).1)
      → (f : ℕ) (path root : FilePath) (s : Inotify K) → P s
      → P (add_recursive_watches f path root s)
  unfolding add_recursive_watches
  add_recursive_watches-keeps P keep zero path root s h = h
  add_recursive_watches-keeps P keep (suc f) path root s h =
      kept_list P (K.list_dir (add_directory_watch path root true s).1.kernel path)
        (keep path root s h)
        (λ names.
          walk-keeps P _ (λ p t q. add_recursive_watches-keeps P keep f p root t q) path names _
            (keep path root s h))

  pub add_recursive_watches-IsConsistent :
      (f : ℕ) (path root : FilePath) (s : Inotify K)
      → IsConsistent s
      → IsConsistent (add_recursive_watches f path root s)
  add_recursive_watches-IsConsistent =
      add_recursive_watches-keeps IsConsistent
        (λ path root t c. add_directory_watch-IsConsistent path root true t c)
