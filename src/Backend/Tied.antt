-- ===== src/Backend/Tied.antt =====
-- How the table of the file watcher (src/FileWatcher.cpp) and those of the inotify watcher
-- (src/core/InotifyWatcher.cpp) hang together.
use libfilewatch.Base.{
  ℕ, ◌≡◌, ◌≢◌, subst, ◌⊎◌, inl, inr, Bool, true, if◌then◌else◌, nat_eq, text_eq, none, Option-cases,
  arith,
}
use libfilewatch.Base.Dict
use libfilewatch.Base.Dict.{Dict, lookup, has_key}
use libfilewatch.Path.{FilePath, normalize_path}
use libfilewatch.Watcher.{WatchEntry}
use libfilewatch.Inotify
use libfilewatch.Inotify.{Kernel, Inotify, RootWatch, new_inotify}
use libfilewatch.Inotify.Events
use libfilewatch.Inotify.Events.{InotifyEvent}
use libfilewatch.Inotify.Loop
use libfilewatch.Inotify.Invariant.{IsConsistent}
use libfilewatch.Inotify.Adding.{add_watch-IsConsistent}
use libfilewatch.Inotify.Removal.{remove_watch-IsConsistent}
use libfilewatch.Inotify.Processing.{process_event-IsConsistent}
use libfilewatch.Inotify.Roots.{HasRoots, process_event-HasRoots}
use libfilewatch.Inotify.Rooted.{OrRoot, add_watch-HasRoots, remove_watch-HasRoots}

widened :
    {K : Kernel} (Q R : FilePath → Type 0) (fd : ℕ) (i : Inotify K)
    → ((r : FilePath) → Q r → R r)
    → HasRoots Q fd i
    → HasRoots R fd i
widened Q R fd i f h = record { opened = h.opened; within = λ r w e. f r (h.within r w e) }

module _ {W : Type 0} where
  key_kept :
      (norm r : FilePath) (e : WatchEntry W) (watches : Dict FilePath (WatchEntry W))
      → (r ≡ norm) ⊎ (has_key r watches ≡ true)
      → has_key r (Dict.insert norm e watches) ≡ true
  key_kept norm r e watches h = ground (arith, Dict.lookup-insert norm r e watches)

  key_left :
      (norm r : FilePath) (watches : Dict FilePath (WatchEntry W))
      → (has_key r watches ≡ true) × (r ≢ norm)
      → has_key r (Dict.erase norm watches) ≡ true
  key_left norm r watches h = ground (arith, Dict.lookup-erase norm r watches)

  key_back :
      (norm r : FilePath) (e : WatchEntry W) (watches : Dict FilePath (WatchEntry W))
      → (has_key r watches ≡ true) × (r ≢ norm)
      → has_key r (Dict.erase norm (Dict.insert norm e watches)) ≡ true
  key_back norm r e watches h =
      key_left norm r (Dict.insert norm e watches) (key_kept norm r e watches (inr h.0), h.1)

module _ {K : Kernel} {W : Type 0} where
  -- The tables of the backend hang together, and it has no root that the file watcher does not watch.
  pub record IsTied (fd : ℕ) (i : Inotify K) (watches : Dict FilePath (WatchEntry W)) : Type 0 where
    pub consistent : IsConsistent i
    pub roots : HasRoots (λ r. has_key r watches ≡ true) fd i

  not_root :
      (fd : ℕ) (norm : FilePath) (i : Inotify K) (watches : Dict FilePath (WatchEntry W))
      → IsTied fd i watches
      → lookup norm watches ≡ none
      → lookup norm i.root_watches ≡ none
  not_root fd norm i watches h n = elim (Option-cases (lookup norm i.root_watches)) [
    | inl e ↦ e
    | inr (w, e) ↦ let k = h.roots.within norm w e in absurd (ground arith)
  ]

  added_roots :
      (fd f : ℕ) (norm : FilePath) (rec : Bool) (e : WatchEntry W) (i : Inotify K)
      (watches : Dict FilePath (WatchEntry W))
      → normalize_path norm ≡ norm
      → HasRoots (λ r. has_key r watches ≡ true) fd i
      → let r = Inotify.add_watch f norm rec i in
        HasRoots
          (λ x.
            has_key x (
              if r.0
              then Dict.insert norm e watches
              else Dict.erase norm (Dict.insert norm e watches))
            ≡ true)
          fd
          r.1
  added_roots fd f norm rec e i watches at h =
      let Q : FilePath → Type 0 = λ r. has_key r watches ≡ true in
      elim (add_watch-HasRoots Q fd f norm rec i h) [
        | inl (done, k) ↦
            rw done (
              widened _ _ fd _ (λ r q. key_kept norm r e watches (subst (λ n. OrRoot Q n r) at q))
                k)
        | inr (failed, k) ↦ rw failed (
            widened _ _ fd _ (λ r q. key_back norm r e watches (subst (λ n. Q r × (r ≢ n)) at q)) k)
      ]

  pub added-IsTied :
      (fd f : ℕ) (norm : FilePath) (rec : Bool) (e : WatchEntry W) (i : Inotify K)
      (watches : Dict FilePath (WatchEntry W))
      → normalize_path norm ≡ norm
      → IsTied fd i watches
      → lookup norm watches ≡ none
      → let r = Inotify.add_watch f norm rec i in
        IsTied fd r.1
          (if r.0 then Dict.insert norm e watches else Dict.erase norm (Dict.insert norm e watches))
  added-IsTied fd f norm rec e i watches at h n = record {
    consistent =
        add_watch-IsConsistent f norm rec i (rw at (not_root fd norm i watches h n)) h.consistent;
    roots = added_roots fd f norm rec e i watches at h.roots;
  }

  pub removed-IsTied :
      (fd : ℕ) (norm : FilePath) (i : Inotify K) (watches : Dict FilePath (WatchEntry W))
      → normalize_path norm ≡ norm
      → IsTied fd i watches
      → IsTied fd (Inotify.remove_watch norm i).1 (Dict.erase norm watches)
  removed-IsTied fd norm i watches at h =
      let Q : FilePath → Type 0 = λ r. has_key r watches ≡ true in
      record {
        consistent = remove_watch-IsConsistent norm i h.consistent;
        roots =
            widened _ _ fd _ (λ r q. key_left norm r watches (subst (λ n. Q r × (r ≢ n)) at q))
              (remove_watch-HasRoots Q fd norm i h.roots);
      }

  pub event-IsTied :
      (fd f : ℕ) (ev : InotifyEvent) (i : Inotify K) (watches : Dict FilePath (WatchEntry W))
      → IsTied fd i watches
      → IsTied fd (Events.process_event f ev i).1 watches
  event-IsTied fd f ev i watches h = record {
    consistent = process_event-IsConsistent f ev i h.consistent;
    roots = process_event-HasRoots (λ r. has_key r watches ≡ true) fd f ev i h.roots;
  }

  -- The tables that the two need are the same.
  pub same-IsTied :
      (fd : ℕ) (i j : Inotify K) (watches : Dict FilePath (WatchEntry W))
      → (j.watch_map ≡ i.watch_map)
        × (j.path_watch_map ≡ i.path_watch_map)
        × (j.root_watches ≡ i.root_watches)
        × (j.wd_to_roots ≡ i.wd_to_roots)
        × (j.inotify_fd ≡ i.inotify_fd)
      → IsTied fd i watches
      → IsTied fd j watches
  same-IsTied fd i j watches e h =
      let c = h.consistent in
      record {
        consistent = record {
          known = λ wd p m. ground (arith, c.known wd p);
          held = λ wd p m. ground (arith, c.held wd p);
          owned = λ wd r m. ground (arith, c.owned wd r);
        };
        roots = record {
          opened = ground (arith, h.roots.opened);
          within = λ r w m. h.roots.within r w (ground arith);
        };
      }

  pub start-IsTied :
      (fd : ℕ) (i : Inotify K) (watches : Dict FilePath (WatchEntry W))
      → IsTied fd i watches
      → IsTied fd (Loop.start i).1 watches
  unfolding Loop.start
  start-IsTied fd i watches h = same-IsTied fd i (Loop.start i).1 watches (ground arith) h

  pub stop-IsTied :
      (fd : ℕ) (i : Inotify K) (watches : Dict FilePath (WatchEntry W))
      → IsTied fd i watches
      → IsTied fd (Loop.stop i) watches
  unfolding Loop.stop Loop.wakeup
  stop-IsTied fd i watches h = same-IsTied fd i (Loop.stop i) watches (ground arith) h
