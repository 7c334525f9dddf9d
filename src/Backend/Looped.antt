-- ===== src/Backend/Looped.antt =====
-- The event loop over the file watcher and the inotify watcher (src/FileWatcher.cpp,
-- src/core/InotifyWatcher.cpp) keeps their tables tied.
use mathlib.Core.Path.{ap₂}
use libfilewatch.Base.{
  ℕ, zero, suc, ◌≡◌, refl, sym, subst, inl, inr, Bool, true, false, List, [], ◌∷◌, All, length,
  if◌then◌else◌, some, Option-cases, nat_eq, text_eq, arith,
}
use libfilewatch.Base.Dict.{Dict}
use libfilewatch.Path.{FilePath}
use libfilewatch.Event.{FileEvent}
use libfilewatch.Filter.{Regex}
use libfilewatch.Timer.{Timers}
use libfilewatch.Watcher.{Platform, WatchEntry, process_event}
use libfilewatch.Inotify.{Kernel, Inotify}
use libfilewatch.Inotify.Events
use libfilewatch.Inotify.Loop.{Ready, read_event, process_bytes, serve, is_fd}
use libfilewatch.EventLoop.{Handled, after, Round, Last, watch_loop, some_after}
use libfilewatch.EventLoop.OnInotify.{
  Waited, ready, interrupted, failed, serve_all, handle, inotify_loop,
}
use libfilewatch.EventLoop.Kept.{IsKept, Within, watch_loop-Within}
use libfilewatch.Backend.{inotify_platform, System, on_event, expire}
use libfilewatch.Backend.Hosting.{impl_host}
use libfilewatch.Backend.Tied.{IsTied, event-IsTied, same-IsTied}

either_way :
    {A : Type 0} (Q : A → Type 0) {x y z : A} (b c : Bool)
    → Q x
    → Q y
    → Q z
    → Q (if b then x else if c then y else z)
either_way Q true c p q r = p
either_way Q false true p q r = q
either_way Q false false p q r = r

module _ {K : Kernel} {W : Type 0} (fd f : ℕ) (watches : Dict FilePath (WatchEntry W)) where
  process_bytes-IsTied :
      (n : ℕ) (bytes : List ℕ) (i : Inotify K)
      → IsTied fd i watches
      → IsTied fd (process_bytes f n bytes i).1 watches
  unfolding process_bytes
  process_bytes-IsTied zero bytes i h = h
  process_bytes-IsTied (suc n) bytes i h = elim (Option-cases (read_event bytes)) [
    | inl e ↦ rw (process_bytes, e) h
    | inr ((ev, rest), e) ↦
        rw (process_bytes, e)
          (process_bytes-IsTied n rest (Events.process_event f ev i).1
            (event-IsTied fd f ev i watches h))
  ]

  serve-IsTied :
      (r : Ready) (i : Inotify K) → IsTied fd i watches → IsTied fd (serve f r i).1 watches
  unfolding serve
  serve-IsTied r i h =
      let woken : IsTied fd (record i { wakeups = 0 }) watches =
        same-IsTied fd i (record i { wakeups = 0 }) watches (refl, refl, refl, refl, refl) h in
      either_way (λ (x : List FileEvent × Inotify K). IsTied fd x.1 watches)
        (is_fd i.wakeup_fd r.fd) (is_fd i.inotify_fd r.fd) woken
        (process_bytes-IsTied (length r.buffer) r.buffer i h) h

  serve_all-IsTied :
      (rs : List Ready) (i : Inotify K)
      → IsTied fd i watches
      → IsTied fd (serve_all f rs i).1 watches
  unfolding serve_all
  serve_all-IsTied [] i h = h
  serve_all-IsTied (r ∷ rs) i h = serve_all-IsTied rs (serve f r i).1 (serve-IsTied r i h)

  handle-IsTied :
      (a : Waited) (h : Handled (Inotify K)) (i : Inotify K)
      → handle f a i ≡ some h
      → IsTied fd i watches
      → IsTied fd (after h) watches
  unfolding handle
  handle-IsTied (ready rs) h i e t =
      some_after (λ j. IsTied fd j watches) e (serve_all-IsTied rs i t)
  handle-IsTied interrupted h i e t = some_after (λ j. IsTied fd j watches) e t
  handle-IsTied failed h i e t = some_after (λ j. IsTied fd j watches) e t

on_event-watches :
    {X : Regex} {P : Platform} {W : Type 0} (now : ℕ) (ev : FileEvent) (s : System X P W)
    → let t = on_event now ev s in
      (t.watcher.platform_watcher ≡ s.watcher.platform_watcher)
      × (t.watcher.watches ≡ s.watcher.watches)
unfolding on_event process_event
on_event-watches now ev s = ground arith

module _ {X : Regex} {K : Kernel} {W : Type 0} (fd f : ℕ) where
  abbrev pub IsTiedSystem : System X (inotify_platform K f) W → Type 0
  IsTiedSystem s = IsTied fd s.watcher.platform_watcher s.watcher.watches

  loop_parts :
      (fire : ℕ → ℕ → Timers → Timers)
      → IsKept (inotify_loop f) (impl_host X (inotify_platform K f) W fire) IsTiedSystem
  unfolding expire
  loop_parts fire = record {
    by_handle =
        λ a h v e t. handle-IsTied fd f v.watcher.watches a h v.watcher.platform_watcher e t;
    by_drain = λ v t. t;
    by_callback = λ now ev v t.
        let same = on_event-watches now ev v in
        subst (λ (x : Inotify K × Dict FilePath (WatchEntry W)). IsTied fd x.0 x.1)
          (ap₂ (λ i w. (i, w)) (sym same.0) (sym same.1)) t;
    by_timers = λ now v t. t;
  }

  -- The tables of the inotify watcher and of the file watcher hang together all through the event
  -- loop, if the other threads leave them so: when the loop is over or waits, the path of each watch
  -- descriptor leads back to it, each descriptor with a path is held by a root, each root that holds
  -- a descriptor lists it, and each root is a path that the file watcher watches.
  pub watch_loop-IsTied :
      (fire : ℕ → ℕ → Timers → Timers)
      (rs : List (Round Waited (System X (inotify_platform K f) W))) (last : Last)
      (s : System X (inotify_platform K f) W)
      → All
          (λ r.
            (t : System X (inotify_platform K f) W) → IsTiedSystem t → IsTiedSystem (r.others t))
          rs
      → IsTiedSystem s
      → Within IsTiedSystem
          (watch_loop (inotify_loop f) (impl_host X (inotify_platform K f) W fire) rs last s)
  watch_loop-IsTied fire rs last s others tied =
      watch_loop-Within (inotify_loop f) (impl_host X (inotify_platform K f) W fire)
        (loop_parts fire) rs last s others tied
