-- ===== src/EventLoop/OnInotify.antt =====
-- The loop of `InotifyWatcher` (src/core/InotifyWatcher.cpp).
use libfilewatch.Base.{
  ℕ, zero, suc, ◌+◌, ◌≡◌, refl, ap, ◌∙◌, inl, inr, Bool, true, false, List, [], ◌∷◌, ◌++◌, length,
  nat_eq, text_eq, Option, some, Option-cases, arith,
}
use libfilewatch.Base.Dict
use libfilewatch.Base.Dict.{lookup}
use libfilewatch.Path.{FilePath}
use libfilewatch.Event.{FileEvent}
use libfilewatch.Kqueue.{is_open}
use libfilewatch.Inotify.{Kernel, Inotify, flag_at, add_directory_watch}
use libfilewatch.Inotify.Events.{
  InotifyEvent, drop_ignored, add_for_roots, recursive_roots, cover, move_to, report, event_path,
}
use libfilewatch.Inotify.Events
use libfilewatch.Inotify.Loop.{Ready, read_event, process_bytes, serve, stop, wakeup}
use libfilewatch.Inotify.Attach.{add_recursive_watches-keeps, added_cases}
use libfilewatch.EventLoop.{Handled, over, skipped, served, after, some_after, EventLoop, IsTotal}

-- What `epoll_wait` answers: the ready descriptors, an interruption, or another failure.
pub data Waited : Type 0 where
  ready : List Ready → Waited
  interrupted : Waited
  failed : Waited

module _ {K : Kernel} where
  -- The loop over the descriptors that are ready.
  unfoldable pub serve_all : ℕ → List Ready → Inotify K → List FileEvent × Inotify K
  unfolding serve
  serve_all f [] s = ([], s)
  serve_all f (r ∷ rs) s =
      let first = serve f r s in let more = serve_all f rs first.1 in (first.0 ++ more.0, more.1)

  -- A round of the loop.
  unfoldable pub handle : ℕ → Waited → Inotify K → Option (Handled (Inotify K))
  unfolding serve_all
  handle f (ready rs) s = let r = serve_all f rs s in some (served r.0 r.1)
  handle f interrupted s = some (skipped s)
  handle f failed s = some (over s)

  add_directory_watch-running :
      (path root : FilePath) (rec : Bool) (s : Inotify K)
      → (add_directory_watch path root rec s).1.running ≡ s.running
  unfolding add_directory_watch
  add_directory_watch-running path root rec s = elim (added_cases path root rec s) [
    | inl (wd, e, h) ↦ ap (λ r. r.1.running) h
    | inr (inl (e, n, h)) ↦ ap (λ r. r.1.running) h
    | inr (inr (wd, e, n, h)) ↦ ap (λ r. r.1.running) h
  ]

  add_for_roots-running :
      (f : ℕ) (path : FilePath) (rs : List FilePath) (s : Inotify K)
      → (add_for_roots f path rs s).running ≡ s.running
  unfolding add_for_roots
  add_for_roots-running f path [] s = refl
  add_for_roots-running f path (r ∷ rs) s =
      add_for_roots-running f path rs _
      ∙ add_recursive_watches-keeps (λ t. t.running ≡ s.running)
          (λ p q t e. add_directory_watch-running p q true t ∙ e) f path r s refl

  cover-running :
      (f : ℕ) (ev : InotifyEvent) (path : FilePath) (rec : Bool) (s : Inotify K)
      → (cover f ev path rec s).1.running ≡ s.running
  unfolding cover
  cover-running f ev path rec s =
      ground (arith, add_for_roots-running f path (recursive_roots ev.wd s) s)

  move_to-running :
      (f : ℕ) (ev : InotifyEvent) (path : FilePath) (rec : Bool) (s : Inotify K)
      → (move_to f ev path rec s).1.running ≡ s.running
  unfolding move_to
  move_to-running f ev path rec s = elim (Option-cases (lookup ev.cookie s.rename_map)) [
    | inl e ↦ ground (arith, cover-running f ev path rec s)
    | inr (i, e) ↦ ground (
      arith,
      cover-running f ev path rec (record s { rename_map = Dict.erase ev.cookie s.rename_map }),
    )
  ]

  report-running :
      (f : ℕ) (ev : InotifyEvent) (path : FilePath) (rec : Bool) (s : Inotify K)
      → (report f ev path rec s).1.running ≡ s.running
  unfolding report
  report-running f ev path rec s =
      ground (arith, cover-running f ev path rec s, move_to-running f ev path rec s)

  process_event-running :
      (f : ℕ) (ev : InotifyEvent) (s : Inotify K)
      → (Events.process_event f ev s).1.running ≡ s.running
  unfolding Events.process_event drop_ignored
  process_event-running f ev s = elim (Option-cases (lookup ev.wd s.watch_map)) [
    | inl e ↦ ground arith
    | inr (base, e) ↦
        ground (arith, report-running f ev (event_path base ev) (flag_at ev.wd s.watch_recursive) s)
  ]

  process_bytes-running :
      (f n : ℕ) (bytes : List ℕ) (s : Inotify K) → (process_bytes f n bytes s).1.running ≡ s.running
  unfolding process_bytes
  process_bytes-running f zero bytes s = refl
  process_bytes-running f (suc n) bytes s = elim (Option-cases (read_event bytes)) [
    | inl e ↦ rw (process_bytes, e) refl
    | inr ((ev, rest), e) ↦
        rw (process_bytes, e)
          (process_bytes-running f n rest (Events.process_event f ev s).1
            ∙ process_event-running f ev s)
  ]

  serve-running : (f : ℕ) (r : Ready) (s : Inotify K) → (serve f r s).1.running ≡ s.running
  unfolding serve
  serve-running f r s = ground (arith, process_bytes-running f (length r.buffer) r.buffer s)

  serve_all-running :
      (f : ℕ) (rs : List Ready) (s : Inotify K) → (serve_all f rs s).1.running ≡ s.running
  unfolding serve_all
  serve_all-running f [] s = refl
  serve_all-running f (r ∷ rs) s = serve_all-running f rs (serve f r s).1 ∙ serve-running f r s

  pub handle-running :
      (f : ℕ) (a : Waited) (s : Inotify K) (h : Handled (Inotify K))
      → handle f a s ≡ some h
      → s.running ≡ false
      → (after h).running ≡ false
  unfolding handle
  handle-running f (ready rs) s h e r =
      some_after (λ t. t.running ≡ false) e (serve_all-running f rs s ∙ r)
  handle-running f interrupted s h e r = some_after (λ t. t.running ≡ false) e r
  handle-running f failed s h e r = some_after (λ t. t.running ≡ false) e r

  pub stop-running : (s : Inotify K) → (stop s).running ≡ false
  unfolding stop wakeup
  stop-running s = ground arith

  pub stop-wakeups :
      (s : Inotify K)
      → s.running ≡ true
      → is_open s.wakeup_fd ≡ true
      → (stop s).wakeups ≡ s.wakeups + 1
  unfolding stop wakeup
  stop-wakeups s r w = ground arith

  -- `watchLoop` of the inotify watcher.
  abbrev pub inotify_loop : ℕ → EventLoop (Inotify K)
  inotify_loop f = record {
    Answer = Waited;
    continues = λ s. s.running;
    handle = handle f;
    drain = λ s. ([], s);
    stop = stop;
    wakeups = λ s. s.wakeups;
    can_wake = λ s. is_open s.wakeup_fd;
    continues-stop = stop-running;
    continues-handle = handle-running f;
    wakeups-stop = stop-wakeups;
  }

  -- Each round of the inotify watcher has a result.
  pub inotify_loop-IsTotal : (f : ℕ) → IsTotal (inotify_loop f)
  unfolding handle
  inotify_loop-IsTotal f (ready rs) s = let r = serve_all f rs s in (served r.0 r.1, refl)
  inotify_loop-IsTotal f interrupted s = (skipped s, refl)
  inotify_loop-IsTotal f failed s = (over s, refl)
