-- ===== src/Inotify/Watched.antt =====
-- `addDirectoryWatch`, `addRecursiveWatches` and `addWatch` (src/core/InotifyWatcher.cpp): which
-- paths are watched for a root.
use libfilewatch.Base.{
  ℕ, zero, suc, ◌≡◌, refl, sym, subst, ◌⊎◌, inl, inr, Bool, true, false, List, [], ◌∷◌, In,
  In-insert, insert, nat_eq, text_eq, some, arith,
}
use libfilewatch.Base.Dict
use libfilewatch.Base.Dict.{lookup}
use libfilewatch.Path.{FilePath, normalize_path}
use libfilewatch.Inotify.{
  Kernel, Inotify, RootWatch, add_watch, roots_at, is_dots, child_path, attach, add_directory_watch,
  walk, add_recursive_watches,
}
use libfilewatch.Inotify.Invariant.{roots_at-insert}
use libfilewatch.Inotify.Attach.{added_cases, add_recursive_watches-keeps}

-- A directory at less than the given depth below another, in the tree of a state of the kernel.
abbrev pub Reaches : (K : Kernel) → K.State → ℕ → FilePath → FilePath → Type 0
Reaches K k zero p q = ⊥
Reaches K k (suc f) p q =
    (q ≡ p)
    ⊎ ((names : List FilePath) × (name : FilePath) × (K.list_dir k p ≡ some names)
        × In name names
        × (is_dots name ≡ false)
        × (K.stat_dir k (child_path p name) ≡ some true)
        × Reaches K k f (child_path p name) q)

module _ {K : Kernel} where
  -- The tree of a state is that of another.
  abbrev pub SameTree : K.State → Inotify K → Type 0
  SameTree k s =
      ((p : FilePath) → K.list_dir s.kernel p ≡ K.list_dir k p)
      × ((p : FilePath) → K.stat_dir s.kernel p ≡ K.stat_dir k p)

  -- A path has a descriptor that the root holds.
  pub record IsWatched (root q : FilePath) (s : Inotify K) : Type 0 where
    pub descriptor : ℕ
    pub known : lookup q s.path_watch_map ≡ some descriptor
    pub held : In root (roots_at descriptor s.wd_to_roots)

  pub attach-IsWatched :
      (wd : ℕ) (root r q : FilePath) (rec : Bool) (s : Inotify K)
      → IsWatched r q s
      → IsWatched r q (attach wd root rec s)
  unfolding attach
  attach-IsWatched wd root r q rec s w = record {
    descriptor = w.descriptor;
    known = w.known;
    held = ground (
      arith,
      w.held,
      roots_at-insert wd w.descriptor (insert root (roots_at wd s.wd_to_roots)) s.wd_to_roots,
      In-insert r root (roots_at wd s.wd_to_roots),
    );
  }

  pub attached :
      (wd : ℕ) (root q : FilePath) (rec : Bool) (s : Inotify K)
      → lookup q s.path_watch_map ≡ some wd
      → IsWatched root q (attach wd root rec s)
  unfolding attach
  attached wd root q rec s e = record {
    descriptor = wd;
    known = e;
    held = ground (
      arith,
      roots_at-insert wd wd (insert root (roots_at wd s.wd_to_roots)) s.wd_to_roots,
      In-insert root root (roots_at wd s.wd_to_roots),
    );
  }

  pub add_directory_watch-keeps :
      (path root r q : FilePath) (s : Inotify K)
      → IsWatched r q s
      → IsWatched r q (add_directory_watch path root true s).1
  add_directory_watch-keeps path root r q s w = elim (added_cases path root true s) [
    | inl (wd, e, h) ↦
        subst (λ t. IsWatched r q t.1) (sym h) (attach-IsWatched wd root r q true s w)
    | inr (inl (e, n, h)) ↦
        subst (λ t. IsWatched r q t.1) (sym h)
          (record { descriptor = w.descriptor; known = w.known; held = w.held })
    | inr (inr (wd, e, n, h)) ↦
        subst (λ t. IsWatched r q t.1) (sym h)
          (attach-IsWatched wd root r q true _ (record {
            descriptor = w.descriptor;
            known = ground (arith, w.known, Dict.lookup-insert path q wd s.path_watch_map);
            held = w.held;
          }))
  ]

  pub reach-keeps :
      (f : ℕ) (path root r q : FilePath) (s : Inotify K)
      → IsWatched r q s
      → IsWatched r q (add_recursive_watches f path root s)
  reach-keeps f path root r q s =
      add_recursive_watches-keeps (IsWatched r q) (λ p x t. add_directory_watch-keeps p x r q t) f
        path root s

  pub walk_into :
      (down : FilePath → Inotify K → Inotify K) (path x : FilePath) (names : List FilePath)
      (s : Inotify K)
      → is_dots x ≡ false
      → K.stat_dir s.kernel (child_path path x) ≡ some true
      → walk down path (x ∷ names) s ≡ walk down path names (down (child_path path x) s)
  unfolding walk
  walk_into down path x names s d k = rw (d, k) refl

  pub reach_into :
      (f : ℕ) (path root : FilePath) (names : List FilePath) (s : Inotify K)
      → let t = (add_directory_watch path root true s).1 in
        K.list_dir t.kernel path ≡ some names
        → add_recursive_watches (suc f) path root s
          ≡ walk (λ p. add_recursive_watches f p root) path names t
  unfolding add_recursive_watches
  reach_into f path root names s e = rw (add_recursive_watches, e) refl

  pub add_watch_into :
      (f fd wd : ℕ) (path : FilePath) (s : Inotify K)
      → let norm = normalize_path path in
        let watch : RootWatch = record {
          root_path = norm;
          recursive = true;
          associated_wds = [];
        } in
        let entered : Inotify K = record s {
          root_watches = Dict.insert norm watch s.root_watches;
        } in
        let first = add_directory_watch norm norm true entered in
        s.inotify_fd ≡ some fd
        → first.0 ≡ some wd
        → add_watch f path true s ≡ (true, add_recursive_watches f norm norm first.1)
  unfolding add_watch
  add_watch_into f fd wd path s opened e = ground arith
