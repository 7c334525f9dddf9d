-- ===== src/Inotify/Runs.antt =====
-- Runs of `InotifyWatcher` (src/core/InotifyWatcher.cpp): calls of the client and events of the kernel
-- in any order.
use libfilewatch.Base.{
  ℕ, zero, suc, ◌≡◌, refl, Bool, true, false, List, [], if◌then◌else◌, length, nat_eq, text_eq,
  Option, none, Option-cases, arith, inl, inr,
}
use libfilewatch.Base.Dict.{lookup}
use libfilewatch.Path.{FilePath, normalize_path}
use libfilewatch.Event.{FileEvent}
use libfilewatch.Inotify.{Kernel, Inotify, new_inotify, add_watch, remove_watch}
use libfilewatch.Inotify.Events.{process_event}
use libfilewatch.Inotify.Loop.{Ready, read_event, wakeup, start, stop, process_bytes, serve, is_fd}
use libfilewatch.Inotify.Invariant.{IsConsistent, new-IsConsistent}
use libfilewatch.Inotify.Adding.{add_watch-IsConsistent}
use libfilewatch.Inotify.Removal.{remove_watch-IsConsistent}
use libfilewatch.Inotify.Processing.{process_event-IsConsistent}

module _ {K : Kernel} where
  -- What may happen next; the watcher's client never adds a root twice.
  pub data Step (s : Inotify K) : Inotify K → Type 0 where
    added :
        (f : ℕ) (path : FilePath) (rec : Bool)
        → lookup (normalize_path path) s.root_watches ≡ none
        → Step s (add_watch f path rec s).1
    removed : (path : FilePath) → Step s (remove_watch path s).1
    started : Step s (start s).1
    stopped : Step s (stop s)
    woken : Step s (wakeup s)
    served : (f : ℕ) (r : Ready) → Step s (serve f r s).1

  pub data Reach (s : Inotify K) : Inotify K → Type 0 where
    here : Reach s s
    next : {t u : Inotify K} → Reach s t → Step t u → Reach s u

  -- The tables are the same.
  abbrev SameTables : Inotify K → Inotify K → Type 0
  SameTables s t =
      (t.watch_map ≡ s.watch_map)
      × (t.path_watch_map ≡ s.path_watch_map)
      × (t.root_watches ≡ s.root_watches)
      × (t.wd_to_roots ≡ s.wd_to_roots)

  SameTables-IsConsistent : (s t : Inotify K) → SameTables s t → IsConsistent s → IsConsistent t
  SameTables-IsConsistent s t h c = record {
    known = λ wd p e. ground (arith, c.known wd p);
    held = λ wd p e. ground (arith, c.held wd p);
    owned = λ wd r m. ground (arith, c.owned wd r);
  }

  start-SameTables : (s : Inotify K) → SameTables s (start s).1
  unfolding start
  start-SameTables s = ground arith

  wakeup-SameTables : (s : Inotify K) → SameTables s (wakeup s)
  unfolding wakeup
  wakeup-SameTables s = ground arith

  stop-SameTables : (s : Inotify K) → SameTables s (stop s)
  unfolding stop
  stop-SameTables s = ground arith

  process_bytes-IsConsistent :
      (f n : ℕ) (bytes : List ℕ) (s : Inotify K)
      → IsConsistent s
      → IsConsistent (process_bytes f n bytes s).1
  unfolding process_bytes
  process_bytes-IsConsistent f zero bytes s c = c
  process_bytes-IsConsistent f (suc n) bytes s c = elim (Option-cases (read_event bytes)) [
    | inl e ↦ rw (process_bytes, e) c
    | inr ((ev, rest), e) ↦
        rw (process_bytes, e)
          (process_bytes-IsConsistent f n rest (process_event f ev s).1
            (process_event-IsConsistent f ev s c))
  ]

  served_cases :
      (drain readable : Bool) (s t : Inotify K) (r : List FileEvent × Inotify K)
      → IsConsistent s
      → IsConsistent t
      → IsConsistent r.1
      → IsConsistent (if drain then ([], t) else if readable then r else ([], s)).1
  served_cases true readable s t r a b c = b
  served_cases false true s t r a b c = c
  served_cases false false s t r a b c = a

  serve-IsConsistent :
      (f : ℕ) (r : Ready) (s : Inotify K) → IsConsistent s → IsConsistent (serve f r s).1
  unfolding serve
  serve-IsConsistent f r s c =
      let drained : Inotify K = record s { wakeups = 0 } in
      served_cases (is_fd s.wakeup_fd r.fd) (is_fd s.inotify_fd r.fd) s drained
        (process_bytes f (length r.buffer) r.buffer s) c
        (SameTables-IsConsistent s drained (refl, refl, refl, refl) c)
        (process_bytes-IsConsistent f (length r.buffer) r.buffer s c)

  Step-IsConsistent : {s t : Inotify K} → Step s t → IsConsistent s → IsConsistent t
  Step-IsConsistent {s} (added f path rec e) c = add_watch-IsConsistent f path rec s e c
  Step-IsConsistent {s} (removed path) c = remove_watch-IsConsistent path s c
  Step-IsConsistent {s} started c = SameTables-IsConsistent s _ (start-SameTables s) c
  Step-IsConsistent {s} stopped c = SameTables-IsConsistent s _ (stop-SameTables s) c
  Step-IsConsistent {s} woken c = SameTables-IsConsistent s _ (wakeup-SameTables s) c
  Step-IsConsistent {s} (served f r) c = serve-IsConsistent f r s c

  -- In every state that a new watcher comes to, if no path is added while it is a root, and whatever
  -- the kernel answers and the buffers hold: the path of each descriptor leads back to it, each
  -- descriptor with a path is held by a root, and each root that holds a descriptor lists it.
  pub Reach-IsConsistent :
      (k : K.State) (e i w : Option ℕ) {t : Inotify K}
      → Reach (new_inotify {K = K} k e i w) t
      → IsConsistent t
  Reach-IsConsistent k e i w here = new-IsConsistent k e i w
  Reach-IsConsistent k e i w (next r st) = Step-IsConsistent st (Reach-IsConsistent k e i w r)
