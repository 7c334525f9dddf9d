-- ===== src/Mac/Blocked.antt =====
-- The mutex of `MacOSWatcher` in `addWatch` and `removeWatch` (src/core/MacOSWatcher.cpp).
use libfilewatch.Base.{ℕ, ◌≡◌, ◌↔◌, Bool, true, false, contains, text_eq, Option, none, some, arith}
use libfilewatch.Path.{FilePath}
use libfilewatch.Mac.{
  MacOs, Mac, lock, start_fs_events, stop_fs_events, restart, add_locked, remove_locked, add_watch,
  remove_watch,
}

module _ {M : MacOs} where
  -- A call that never returns exactly under a condition, and that leaves the mutex free where it
  -- returns.
  abbrev pub HangsIf : Type 0 → Option (Bool × Mac M) → Type 0
  HangsIf C o = ((o ≡ none) ↔ C) × ((r : Bool × Mac M) → o ≡ some r → r.1.mutex_held ≡ false)

  -- On a watcher whose mutex is free, `addWatch` never returns exactly if the watcher runs and the path
  -- is a readable directory that is to be watched recursively, and `removeWatch` exactly if the watcher
  -- runs and the path is one that it watches recursively; a call of either that returns leaves the
  -- mutex free.
  pub running_blocks :
      (f : ℕ) (path : FilePath) (recursive : Bool) (s : Mac M)
      → s.mutex_held ≡ false
      → HangsIf
          ((s.running ≡ true)
            × (M.files.stat_dir path ≡ some true)
            × (M.readable path ≡ true)
            × (recursive ≡ true))
          (add_watch f path recursive s)
        × HangsIf
            ((s.running ≡ true) × (contains s.fsevents_watch_list path ≡ true))
            (remove_watch path s)
  unfolding add_watch remove_watch add_locked remove_locked restart lock start_fs_events
      stop_fs_events
  running_blocks f path recursive s free =
      ((ground arith, λ r e. ground arith), (ground arith, λ r e. ground arith))
