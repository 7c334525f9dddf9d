-- ===== src/Inotify/Stale.antt =====
-- `addDirectoryWatch` and `removeWatch` (src/core/InotifyWatcher.cpp) when the kernel answers a
-- descriptor that another path has, as it does for a directory that was renamed.
use libfilewatch.Base.{ℕ, ◌≡◌, ◌≢◌, inl, inr, Bool, none, some, nat_eq, text_eq, arith}
use libfilewatch.Base.Dict
use libfilewatch.Base.Dict.{lookup}
use libfilewatch.Path.{FilePath}
use libfilewatch.Inotify.{Kernel, Inotify, obtain, attach, add_directory_watch, forget}
use libfilewatch.Inotify.Attach.{added_cases}

module _ {K : Kernel} where
  -- A path that is known is not asked of the kernel again.
  known_path :
      (wd : ℕ) (path root : FilePath) (rec : Bool) (s : Inotify K)
      → lookup path s.path_watch_map ≡ some wd
      → add_directory_watch path root rec s ≡ (some wd, attach wd root rec s)
  known_path wd path root rec s e = elim (added_cases path root rec s) [
    | inl (wd', e', h) ↦ ground arith
    | inr (inl (e', n, h)) ↦ cc
    | inr (inr (wd', e', n, h)) ↦ cc
  ]

  renamed_tables :
      (wd : ℕ) (old new root : FilePath) (rec : Bool) (s : Inotify K)
      → lookup old s.path_watch_map ≡ some wd
      → lookup new s.path_watch_map ≡ none
      → (K.inotify_add_watch new s.kernel).0 ≡ some wd
      → let t = (add_directory_watch new root rec s).1 in
        (lookup wd t.watch_map ≡ some new) × (lookup old t.path_watch_map ≡ some wd)
  unfolding add_directory_watch obtain attach
  renamed_tables wd old new root rec s eo en k = ground (
    arith,
    Dict.lookup-insert wd wd new s.watch_map,
    Dict.lookup-insert new old wd s.path_watch_map,
  )

  forget_lem :
      (wd : ℕ) (old new : FilePath) (t : Inotify K)
      → lookup wd t.watch_map ≡ some new
      → lookup old t.path_watch_map ≡ some wd
      → old ≢ new
      → (lookup wd (forget wd t).watch_map ≡ none)
        × (lookup old (forget wd t).path_watch_map ≡ some wd)
  unfolding forget
  forget_lem wd old new t e o n =
      ground
        (arith, Dict.lookup-erase wd wd t.watch_map, Dict.lookup-erase new old t.path_watch_map)

  -- If the kernel answers, for a path that is not known, the descriptor that another path has, as
  -- for a directory that was renamed, then the descriptor's path is the new one while the old path
  -- keeps the descriptor. A call for a directory at the old path is then answered from the table,
  -- without the kernel, before and also after the descriptor is released, when the descriptor has
  -- no path any more.
  pub renamed_directory_stale :
      (wd : ℕ) (old new root root2 : FilePath) (rec rec2 : Bool) (s : Inotify K)
      → lookup old s.path_watch_map ≡ some wd
      → lookup new s.path_watch_map ≡ none
      → (K.inotify_add_watch new s.kernel).0 ≡ some wd
      → let t = (add_directory_watch new root rec s).1 in
        let freed = forget wd t in
        (lookup wd t.watch_map ≡ some new)
        × (lookup old t.path_watch_map ≡ some wd)
        × (add_directory_watch old root2 rec2 t ≡ (some wd, attach wd root2 rec2 t))
        × (lookup wd freed.watch_map ≡ none)
        × (add_directory_watch old root2 rec2 freed ≡ (some wd, attach wd root2 rec2 freed))
  renamed_directory_stale wd old new root root2 rec rec2 s eo en k =
      let t = (add_directory_watch new root rec s).1 in
      let tables = renamed_tables wd old new root rec s eo en k in
      let freed = forget_lem wd old new t tables.0 tables.1 (λ e. cc) in
      (
        tables.0,
        tables.1,
        known_path wd old root2 rec2 t tables.1,
        freed.0,
        known_path wd old root2 rec2 (forget wd t) freed.1,
      )
