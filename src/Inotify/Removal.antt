-- ===== src/Inotify/Removal.antt =====
-- `removeWatch` (src/core/InotifyWatcher.cpp) as a whole, for a root and for any other path.
use libfilewatch.Base.{
  ℕ, ◌≡◌, refl, inl, inr, Bool, true, false, [], ◌∷◌, nat_eq, text_eq, Option, none, some,
  Option-cases, arith,
}
use libfilewatch.Base.Dict
use libfilewatch.Base.Dict.{lookup}
use libfilewatch.Path.{FilePath, normalize_path}
use libfilewatch.Inotify.{
  Kernel, RootWatch, Inotify, forget, forget_all, remove_root, remove_single, remove_watch,
}
use libfilewatch.Inotify.Invariant.{IsConsistent, roots_at-erase}
use libfilewatch.Inotify.Attach.{kept_fd}
use libfilewatch.Inotify.Cascade.{remove_root-IsConsistent}

module _ {K : Kernel} where
  -- A descriptor that no root holds may be released.
  released-IsConsistent :
      (wd : ℕ) (s : Inotify K)
      → IsConsistent s
      → IsConsistent (forget wd (record s { wd_to_roots = Dict.erase wd s.wd_to_roots }))
  unfolding forget
  released-IsConsistent wd s c = record {
    known = λ k p e. elim (Option-cases (lookup wd s.watch_map)) [
      | inl n ↦ ground (arith, c.known k p, Dict.lookup-erase wd k s.watch_map)
      | inr (q, n) ↦ ground (
        arith,
        c.known k p,
        c.known wd q,
        Dict.lookup-erase wd k s.watch_map,
        Dict.lookup-erase q p s.path_watch_map,
      )
    ];
    held = λ k p e.
        ground (
          arith,
          c.held k p,
          Dict.lookup-erase wd k s.watch_map,
          roots_at-erase wd k s.wd_to_roots,
        );
    owned = λ k r m. ground (arith, c.owned k r, roots_at-erase wd k s.wd_to_roots);
  }

  found_wd :
      (s : Inotify K) (o : Option ℕ)
      → IsConsistent s
      → IsConsistent
          (elim o as (λ _. Bool × Inotify K) [
            | none ↦ (false, s)
            | some wd ↦ (
              true,
              forget_all (wd ∷ []) (record s { wd_to_roots = Dict.erase wd s.wd_to_roots }),
            )
          ]).1
  unfolding forget_all
  found_wd s none c = c
  found_wd s (some wd) c = released-IsConsistent wd s c

  remove_single-IsConsistent :
      (norm : FilePath) (s : Inotify K) → IsConsistent s → IsConsistent (remove_single norm s).1
  unfolding remove_single
  remove_single-IsConsistent norm s c = found_wd s (lookup norm s.path_watch_map) c

  found_root :
      (norm : FilePath) (s : Inotify K) (o : Option RootWatch)
      → lookup norm s.root_watches ≡ o
      → IsConsistent s
      → IsConsistent
          (elim o as (λ _. Bool × Inotify K) [
            | some watch ↦ (true, remove_root norm watch s)
            | none ↦ remove_single norm s
          ]).1
  found_root norm s none e c = remove_single-IsConsistent norm s c
  found_root norm s (some watch) e c = remove_root-IsConsistent norm watch s c e

  -- To remove a watch keeps the tables consistent, whether the path is a root with all that hangs on
  -- it, any other watched path, or not watched at all.
  pub remove_watch-IsConsistent :
      (path : FilePath) (s : Inotify K) → IsConsistent s → IsConsistent (remove_watch path s).1
  unfolding remove_watch
  remove_watch-IsConsistent path s c =
      kept_fd IsConsistent _ s.inotify_fd c (found_root (normalize_path path) s _ refl c)
