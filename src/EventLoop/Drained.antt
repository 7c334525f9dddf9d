-- ===== src/EventLoop/Drained.antt =====
-- The queue of events of `MacOSWatcher` and its loop (src/core/MacOSWatcher.cpp).
use libfilewatch.Base.{
  ℕ, suc, ◌≡◌, refl, sym, ap, subst, ◌∙◌, inl, inr, Bool, true, List, [], ◌∷◌, ◌++◌, map, Option,
  none, some, append_assoc, append-nil, Bool-cases, All, nat_eq, text_eq, arith,
}
use libfilewatch.Event.{FileEvent}
use libfilewatch.Path.{FilePath}
use libfilewatch.FsEvents.{Flags, process_fs_events}
use libfilewatch.Kqueue.Handle.{Kevent, dispatch_pending_events, wakeup}
use libfilewatch.Mac.{MacOs, Mac, serve, stop, stop_fs_events, event_callback}
use libfilewatch.Mac.Open.{push_events-pending, handle_all-pending}
use libfilewatch.EventLoop.{Round, Last, finish, notify, watch_loop, stamped}
use libfilewatch.EventLoop.Simulated.{recorder, deliver-recorder}
use libfilewatch.EventLoop.Stopping.{resumed, ended_watch, going_watch}
use libfilewatch.EventLoop.OnMac.{
  Answer, kevents, interrupted, failed, continues, handle, drain, mac_loop,
}

abbrev pub Run : MacOs → Type 0
Run M = Mac M × List (ℕ × FileEvent)

abbrev pub events_of : List (ℕ × FileEvent) → List FileEvent
events_of log = map (λ x. x.1) log

-- The first list with more behind it.
abbrev pub Extends : {A : Type 0} → List A → List A → Type 0
Extends {A} xs ys = (more : List A) × (ys ≡ xs ++ more)

Extends-trans : {A : Type 0} (xs ys zs : List A) → Extends xs ys → Extends ys zs → Extends xs zs
Extends-trans xs ys zs (m, e) (n, f) = (m ++ n, f ∙ (ap (λ l. l ++ n) e ∙ append_assoc xs m n))

events_of-stamped :
    (clock : ℕ → ℕ) (es : List FileEvent) (log : List (ℕ × FileEvent))
    → events_of (log ++ stamped clock es) ≡ events_of log ++ es
events_of-stamped clock [] [] = refl
events_of-stamped clock (e ∷ es) [] = ap (λ l. e ∷ l) (events_of-stamped (λ n. clock (suc n)) es [])
events_of-stamped clock es ((_, ev) ∷ log) = ap (λ l. ev ∷ l) (events_of-stamped clock es log)

module _ {M : MacOs} where
  -- What was reported, and behind it what waits to be.
  abbrev pub total : Run M → List FileEvent
  total v = events_of v.1 ++ v.0.kqueue.pending_events

  -- The loop came to its end with nothing waiting, and with what the first list has reported in turn.
  abbrev pub IsDrained : List FileEvent → Run M → Type 0
  IsDrained es u = Extends es (events_of u.1) × (u.0.kqueue.pending_events ≡ [])

  finished :
      (last : Last) (v : Run M) → IsDrained (total v) (finish mac_loop (recorder (Mac M)) last v)
  unfolding finish drain dispatch_pending_events
  finished last v =
      let es = v.0.kqueue.pending_events in
      let s = (drain v.0).1 in
      let d = deliver-recorder last.clock es (s, v.1) in
      (
        (
          [],
          ap (λ (r : Run M). events_of r.1) d
              ∙ (events_of-stamped last.clock es v.1 ∙ sym (append-nil (total v))),
        ),
        ap (λ (r : Run M). r.0.kqueue.pending_events) d,
      )

  served_total :
      (clock : ℕ → ℕ) (now : ℕ) (evs : List Kevent) (v : Run M)
      → let r = serve evs v.0 in
        Extends (total v) (total (notify mac_loop (recorder (Mac M)) clock now r.0 r.1 v))
  unfolding notify serve dispatch_pending_events
  served_total clock now evs v =
      let r = serve evs v.0 in
      let (more, e) = handle_all-pending evs v.0.kqueue in
      let d = deliver-recorder clock r.0 (r.1, v.1) in
      (
        more,
        ap total d
            ∙ (append-nil (events_of (v.1 ++ stamped clock r.0))
                ∙ (events_of-stamped clock r.0 v.1
                    ∙ (ap (λ l. events_of v.1 ++ l) e
                        ∙ sym (append_assoc (events_of v.1) v.0.kqueue.pending_events more)))),
      )

  -- The other threads only add events.
  abbrev pub IsAdding : Round Answer (Run M) → Type 0
  IsAdding r = (v : Run M) → Extends (total v) (total (r.others v))

  stop-pending : (s : Mac M) → (stop s).kqueue.pending_events ≡ s.kqueue.pending_events
  unfolding stop wakeup stop_fs_events
  stop-pending s = ground arith

  pub stop-adds : (v : Run M) → Extends (total v) (total (stop v.0, v.1))
  stop-adds v = ([], ap (λ l. events_of v.1 ++ l) (stop-pending v.0) ∙ sym (append-nil (total v)))

  pub event_callback-adds :
      (items : List (FilePath × Flags)) (v : Run M)
      → Extends (total v) (total (event_callback items v.0, v.1))
  unfolding event_callback
  event_callback-adds items v =
      let es = (process_fs_events M.files items v.0.known).0 in
      (
        es,
        ap (λ l. events_of v.1 ++ l) (push_events-pending es v.0.kqueue)
            ∙ sym (append_assoc (events_of v.1) v.0.kqueue.pending_events es),
      )

  IsDrained-into :
      (es : List FileEvent) (b : Bool) (t u : Run M)
      → ◌≡◌ {A = Option (Bool × Run M)} (some (b, t)) (some (true, u))
      → IsDrained es t
      → IsDrained es u
  IsDrained-into es b t u e h =
      subst
        (λ (o : Option (Bool × Run M)). elim o as (λ _. Type 0) [
          | some x ↦ IsDrained es x.1
          | none ↦ Unit {0}
        ])
        e h

  extended : (xs ys : List FileEvent) (u : Run M) → Extends xs ys → IsDrained ys u → IsDrained xs u
  extended xs ys u f h = (Extends-trans xs ys (events_of u.1) f h.0, h.1)

  -- What the loop does with an answer, where the rest of it drains.
  answered :
      (rs : List (Round Answer (Run M))) (last : Last) (r : Round Answer (Run M)) (a : Answer)
      (t u : Run M)
      → ((v : Run M)
          → watch_loop mac_loop (recorder (Mac M)) rs last v ≡ some (true, u)
          → IsDrained (total v) u)
      → resumed mac_loop (recorder (Mac M)) rs last r t (handle a t.0) ≡ some (true, u)
      → IsDrained (total t) u
  unfolding handle
  answered rs last r (kevents evs) t u rest e =
      let s = serve evs t.0 in
      let n = notify mac_loop (recorder (Mac M)) r.clock r.now s.0 s.1 t in
      extended (total t) (total n) u (served_total r.clock r.now evs t) (rest n e)
  answered rs last r interrupted t u rest e = rest t e
  answered rs last r failed t u rest e =
      IsDrained-into (total t) true (finish mac_loop (recorder (Mac M)) last t) u e
        (finished last t)

  drained :
      (rs : List (Round Answer (Run M))) (last : Last) (v u : Run M)
      → All IsAdding rs
      → watch_loop mac_loop (recorder (Mac M)) rs last v ≡ some (true, u)
      → IsDrained (total v) u
  unfolding watch_loop
  drained [] last v u h e = elim (Bool-cases (continues v.0)) [
    | inl go ↦ absurd (ground arith)
    | inr halt ↦
        IsDrained-into (total v) true (finish mac_loop (recorder (Mac M)) last v) u
          (sym (ended_watch mac_loop (recorder (Mac M)) [] last v halt) ∙ e) (finished last v)
  ]
  drained (r ∷ rs) last v u h e = elim (Bool-cases (continues v.0)) [
    | inl go ↦
        let t = r.others v in
        extended (total v) (total t) u (h.0 v) (
          answered rs last r r.answer t u (λ w. drained rs last w u h.1)
            (sym (going_watch mac_loop (recorder (Mac M)) r rs last v go) ∙ e))
    | inr halt ↦
        IsDrained-into (total v) true (finish mac_loop (recorder (Mac M)) last v) u
          (sym (ended_watch mac_loop (recorder (Mac M)) (r ∷ rs) last v halt) ∙ e) (finished last v)
  ]

  -- When the macOS loop comes to its end, no event waits any more; and what was reported begins, for
  -- any round that was begun, with what had been reported and, in their order, the events that waited
  -- after the other threads had acted in that round, if in the later rounds they only add events. So
  -- an event that waits when `stop` is called is not lost.
  pub pending_delivered :
      (r : Round Answer (Run M)) (rs : List (Round Answer (Run M))) (last : Last) (v u : Run M)
      → All IsAdding rs
      → continues v.0 ≡ true
      → watch_loop mac_loop (recorder (Mac M)) (r ∷ rs) last v ≡ some (true, u)
      → let t = r.others v in
        (u.0.kqueue.pending_events ≡ [])
        × ((more : List FileEvent) × (events_of u.1
              ≡ events_of t.1 ++ t.0.kqueue.pending_events ++ more))
  pending_delivered r rs last v u h go e =
      let t = r.others v in
      let d =
        answered rs last r r.answer t u (λ w. drained rs last w u h)
          (sym (going_watch mac_loop (recorder (Mac M)) r rs last v go) ∙ e) in
      (d.1, d.0)
