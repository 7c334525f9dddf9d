-- ===== src/Inotify/Reach.antt =====
-- `addRecursiveWatches` (src/core/InotifyWatcher.cpp) and the directories that it reaches.
use libfilewatch.Base.{
  ℕ, zero, suc, ◌≡◌, sym, ◌∙◌, subst, ◌≢◌, inl, inr, true, false, List, [], ◌∷◌, In, nat_eq,
  text_eq, Option, none, some, arith,
}
use libfilewatch.Base.Dict
use libfilewatch.Base.Dict.{lookup}
use libfilewatch.Path.{FilePath}
use libfilewatch.Inotify.{
  Kernel, Inotify, roots_at, is_dots, child_path, attach, add_directory_watch, walk,
  add_recursive_watches,
}
use libfilewatch.Inotify.Attach.{
  added_cases, kept_if, kept_dir, kept_list, walk-keeps, add_recursive_watches-keeps,
}
use libfilewatch.Inotify.Watched.{
  Reaches, SameTree, IsWatched, attached, reach-keeps, walk_into, reach_into,
}

-- What the kernel is relied on for. `given` is its own table of the watches: a directory that is there
-- can be watched (the limit of watches is not reached), the answer is what the path has been given
-- from then on, no two paths are given the same, and to watch a path changes no directory.
pub record Watches (K : Kernel) : Type 0 where
  pub given : K.State → FilePath → Option ℕ
  pub answers :
      (p : FilePath) (k : K.State) → K.stat_dir k p ≡ some true → (K.inotify_add_watch p k).0 ≢ none
  pub gives :
      (p : FilePath) (wd : ℕ) (k : K.State)
      → (K.inotify_add_watch p k).0 ≡ some wd
      → given (K.inotify_add_watch p k).1 p ≡ some wd
  pub keeps :
      (p q : FilePath) (wd : ℕ) (k : K.State)
      → given k q ≡ some wd
      → given (K.inotify_add_watch p k).1 q ≡ some wd
  pub apart :
      (p q : FilePath) (wd : ℕ) (k : K.State) → given k p ≡ some wd → given k q ≡ some wd → p ≡ q
  pub listing :
      (p q : FilePath) (k : K.State) → K.list_dir (K.inotify_add_watch p k).1 q ≡ K.list_dir k q
  pub kinds :
      (p q : FilePath) (k : K.State) → K.stat_dir (K.inotify_add_watch p k).1 q ≡ K.stat_dir k q

module _ {K : Kernel} where
  module _ (A : Watches K) where
    -- Each path with a descriptor has been given it by the kernel, and the descriptor leads back.
    abbrev pub IsAgreed : Inotify K → Type 0
    IsAgreed s =
        (q : FilePath) (d : ℕ)
        → lookup q s.path_watch_map ≡ some d
        → (A.given s.kernel q ≡ some d) × (lookup d s.watch_map ≡ some q)

    -- A path has a descriptor that the kernel has given it, that leads back, and that the root holds.
    pub record IsCovered (root q : FilePath) (s : Inotify K) : Type 0 where
      pub descriptor : ℕ
      pub known : lookup q s.path_watch_map ≡ some descriptor
      pub given : A.given s.kernel q ≡ some descriptor
      pub back : lookup descriptor s.watch_map ≡ some q
      pub held : In root (roots_at descriptor s.wd_to_roots)

    add_directory_watch-SameTree :
        (k : K.State) (path root : FilePath) (s : Inotify K)
        → SameTree k s
        → SameTree k (add_directory_watch path root true s).1
    add_directory_watch-SameTree k path root s same = elim (added_cases path root true s) [
      | inl (wd, e, h) ↦ subst (λ t. SameTree k t.1) (sym h) (unfold attach in same)
      | inr (inl (e, n, h)) ↦
          subst (λ t. SameTree k t.1) (sym h)
            (λ q. A.listing path q s.kernel ∙ same.0 q, λ q. A.kinds path q s.kernel ∙ same.1 q)
      | inr (inr (wd, e, n, h)) ↦
          subst (λ t. SameTree k t.1) (sym h)
            (unfold attach in
              (λ q. A.listing path q s.kernel ∙ same.0 q, λ q. A.kinds path q s.kernel ∙ same.1 q))
    ]

    add_directory_watch-IsWatched :
        (path root : FilePath) (s : Inotify K)
        → K.stat_dir s.kernel path ≡ some true
        → IsWatched root path (add_directory_watch path root true s).1
    add_directory_watch-IsWatched path root s dir = elim (added_cases path root true s) [
      | inl (wd, e, h) ↦
          subst (λ t. IsWatched root path t.1) (sym h) (attached wd root path true s e)
      | inr (inl (e, n, h)) ↦ absurd (A.answers path s.kernel dir n)
      | inr (inr (wd, e, n, h)) ↦
          subst (λ t. IsWatched root path t.1) (sym h)
            (attached wd root path true _
              (ground (arith, Dict.lookup-insert path path wd s.path_watch_map)))
    ]

    reach-SameTree :
        (k : K.State) (f : ℕ) (path root : FilePath) (s : Inotify K)
        → SameTree k s
        → SameTree k (add_recursive_watches f path root s)
    reach-SameTree k = add_recursive_watches-keeps (SameTree k) (add_directory_watch-SameTree k)

    -- The loop over the entries comes to each of them.
    walk-IsWatched :
        (k : K.State) (down : FilePath → Inotify K → Inotify K) (path root q name : FilePath)
        (names : List FilePath) (s : Inotify K)
        → ((p : FilePath) (t : Inotify K) → SameTree k t → SameTree k (down p t))
        → ((p : FilePath) (t : Inotify K) → IsWatched root q t → IsWatched root q (down p t))
        → ((t : Inotify K) → SameTree k t → IsWatched root q (down (child_path path name) t))
        → In name names
        → is_dots name ≡ false
        → K.stat_dir k (child_path path name) ≡ some true
        → SameTree k s
        → IsWatched root q (walk down path names s)
    unfolding walk
    walk-IsWatched k down path root q name [] s same keeps comes at dots kind tree = absurd at
    walk-IsWatched k down path root q name (x ∷ names) s same keeps comes (inl e) dots kind tree =
        let into = walk_into down path x names s (subst (λ n. is_dots n ≡ false) e dots) (
          tree.1 (child_path path x)
          ∙ subst (λ n. K.stat_dir k (child_path path n) ≡ some true) e kind) in
        subst (IsWatched root q) (sym into) (
          walk-keeps (IsWatched root q) down keeps path names _
            (subst (λ n. IsWatched root q (down (child_path path n) s)) e (comes s tree)))
    walk-IsWatched k down path root q name (x ∷ names) s same keeps comes (inr at) dots kind tree =
        kept_if (IsWatched root q) (is_dots x)
          (walk-IsWatched k down path root q name names s same keeps comes at dots kind tree)
          (kept_dir (IsWatched root q) (K.stat_dir s.kernel (child_path path x))
            (walk-IsWatched k down path root q name names _ same keeps comes at dots kind
              (same (child_path path x) s tree))
            (walk-IsWatched k down path root q name names s same keeps comes at dots kind tree))

    -- With fuel for its depth, the recursive walk of a root leaves each directory that can be reached
    -- below the path watched for the root.
    pub reachable-IsWatched :
        (f : ℕ) (path root q : FilePath) (k : K.State) (s : Inotify K)
        → SameTree k s
        → K.stat_dir k path ≡ some true
        → Reaches K k f path q
        → IsWatched root q (add_recursive_watches f path root s)
    unfolding add_recursive_watches
    reachable-IsWatched zero path root q k s tree dir r = absurd r
    reachable-IsWatched (suc f) path root q k s tree dir (inl e) =
        let top =
          subst (λ n. IsWatched root n (add_directory_watch path root true s).1) (sym e)
            (add_directory_watch-IsWatched path root s (tree.1 path ∙ dir)) in
        kept_list (IsWatched root q)
          (K.list_dir (add_directory_watch path root true s).1.kernel path) top
          (λ names.
            walk-keeps (IsWatched root q) _ (λ p t. reach-keeps f p root root q t) path names _ top)
    reachable-IsWatched (suc f) path root q k s tree dir (inr (names, name, l, at, dots, kind, r)) =
        let opened = add_directory_watch-SameTree k path root s tree in
        subst (IsWatched root q) (sym (reach_into f path root names s (opened.0 path ∙ l))) (
          walk-IsWatched k _ path root q name names _ (λ p t. reach-SameTree k f p root t)
            (λ p t. reach-keeps f p root root q t)
            (λ t h. reachable-IsWatched f (child_path path name) root q k t h kind r) at dots kind
            opened)
