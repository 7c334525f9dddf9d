-- ===== src/EventLoop/OnFanotify.antt =====
-- The loop of `FanotifyWatcher` (src/core/FanotifyWatcher.cpp).
use libfilewatch.Base.{
  ℕ, zero, suc, ◌+◌, ◌≡◌, sym, ap, ◌∙◌, inl, inr, true, false, List, [], ◌∷◌, ◌++◌, length, drop,
  nat_eq, text_eq, Option, some, Option-cases, arith,
}
use libfilewatch.Base.Bytes.{◌>>=◌}
use libfilewatch.Event.{FileEvent}
use libfilewatch.Kqueue.{is_open}
use libfilewatch.Inotify.Loop.{Ready}
use libfilewatch.Fanotify.{
  FanKernel, Fanotify, Metadata, read_metadata, process_event, process_bytes, read_buffer, serve,
  stop, wakeup,
}
use libfilewatch.EventLoop.{Handled, over, skipped, served, after, some_after, EventLoop}
use libfilewatch.EventLoop.OnInotify.{Waited, ready, interrupted, failed}

module _ {K : FanKernel} where
  -- The loop over the descriptors that are ready.
  unfoldable pub serve_all : List Ready → Fanotify K → Option (List FileEvent × Fanotify K)
  unfolding serve
  serve_all [] s = some ([], s)
  serve_all (r ∷ rs) s =
      serve r s >>= λ first. serve_all rs first.1 >>= λ more. some (first.0 ++ more.0, more.1)

  -- A round of the loop.
  unfoldable pub handle : Waited → Fanotify K → Option (Handled (Fanotify K))
  unfolding serve_all
  handle (ready rs) s = serve_all rs s >>= λ r. some (served r.0 r.1)
  handle interrupted s = some (skipped s)
  handle failed s = some (over s)

  process_event-running :
      (m : Metadata) (s : Fanotify K) → (process_event m s).1.running ≡ s.running
  unfolding process_event
  process_event-running m s = ground arith

  -- Where a loop has a result, it leaves the flag as it was.
  KeepsFlag : Fanotify K → Option (List FileEvent × Fanotify K) → Type 0
  KeepsFlag s o = (r : List FileEvent × Fanotify K) → o ≡ some r → r.1.running ≡ s.running

  process_bytes-KeepsFlag :
      (n : ℕ) (bytes : List ℕ) (s : Fanotify K) → KeepsFlag s (process_bytes n bytes s)
  unfolding process_bytes KeepsFlag
  process_bytes-KeepsFlag zero bytes s r e = ground arith
  process_bytes-KeepsFlag (suc n) bytes s r e = elim (Option-cases (read_metadata bytes)) [
    | inl none_read ↦ ground arith
    | inr (m, read) ↦
        let t = (process_event m s).1 in
        elim (Option-cases (process_bytes n (drop m.event_len bytes) t)) [
          | inl stuck ↦ ground arith
          | inr (more, rest) ↦ ground (
            arith,
            process_event-running m s,
            process_bytes-KeepsFlag n (drop m.event_len bytes) t more rest,
          )
        ]
  ]

  serve-KeepsFlag : (d : Ready) (s : Fanotify K) → KeepsFlag s (serve d s)
  unfolding serve read_buffer KeepsFlag
  serve-KeepsFlag d s r e = ground (arith, process_bytes-KeepsFlag (length d.buffer) d.buffer s r)

  serve_all-KeepsFlag : (ds : List Ready) (s : Fanotify K) → KeepsFlag s (serve_all ds s)
  unfolding serve_all KeepsFlag
  serve_all-KeepsFlag [] s r e = ground arith
  serve_all-KeepsFlag (d ∷ ds) s r e = elim (Option-cases (serve d s)) [
    | inl stuck ↦ ground arith
    | inr (first, done) ↦ elim (Option-cases (serve_all ds first.1)) [
      | inl stuck ↦ ground arith
      | inr (more, rest) ↦
          ground (arith, serve-KeepsFlag d s first done, serve_all-KeepsFlag ds first.1 more rest)
    ]
  ]

  pub handle-running :
      (a : Waited) (s : Fanotify K) (h : Handled (Fanotify K))
      → handle a s ≡ some h
      → s.running ≡ false
      → (after h).running ≡ false
  unfolding handle KeepsFlag
  handle-running (ready ds) s h e r = elim (Option-cases (serve_all ds s)) [
    | inl stuck ↦ ground arith
    | inr (x, done) ↦
        some_after (λ t. t.running ≡ false) {h = served x.0 x.1}
          (sym (ap (λ o. o >>= λ y. some (served y.0 y.1)) done) ∙ e)
          (serve_all-KeepsFlag ds s x done ∙ r)
  ]
  handle-running interrupted s h e r = some_after (λ t. t.running ≡ false) e r
  handle-running failed s h e r = some_after (λ t. t.running ≡ false) e r

  pub stop-running : (s : Fanotify K) → (stop s).running ≡ false
  unfolding stop wakeup
  stop-running s = ground arith

  pub stop-wakeups :
      (s : Fanotify K)
      → s.running ≡ true
      → is_open s.wakeup_fd ≡ true
      → (stop s).wakeups ≡ s.wakeups + 1
  unfolding stop wakeup
  stop-wakeups s r w = ground arith

  -- `watchLoop` of the fanotify watcher.
  abbrev pub fanotify_loop : EventLoop (Fanotify K)
  fanotify_loop = record {
    Answer = Waited;
    continues = λ s. s.running;
    handle = handle;
    drain = λ s. ([], s);
    stop = stop;
    wakeups = λ s. s.wakeups;
    can_wake = λ s. is_open s.wakeup_fd;
    continues-stop = stop-running;
    continues-handle = handle-running;
    wakeups-stop = stop-wakeups;
  }
