-- ===== src/EventLoop/Kept.antt =====
-- What holds of the state while an event loop runs (`watchLoop` of the platform watchers in src/core).
use libfilewatch.Base.{
  ℕ, suc, ◌≡◌, refl, Bool, true, false, List, [], ◌∷◌, if◌then◌else◌, Option, none, some, All,
}
use libfilewatch.Event.{FileEvent}
use libfilewatch.EventLoop.{
  Handled, over, skipped, served, after, EventLoop, Host, Round, Last, deliver, finish, notify,
  watch_loop,
}
use libfilewatch.EventLoop.Stopping.{resumed}

-- Where there is a result, its state has the property.
abbrev pub Within : {A : Type 0} → (A → Type 0) → Option (Bool × A) → Type 0
Within Q none = Unit {0}
Within Q (some (b, v)) = Q v

-- Each part of a round keeps the property.
pub record IsKept {S : Type 0} (L : EventLoop S) (H : Host S) (Q : H.State → Type 0) : Type 0 where
  pub by_handle :
      (a : L.Answer) (h : Handled S) (v : H.State)
      → L.handle a (H.backend v) ≡ some h
      → Q v
      → Q (H.with_backend (after h) v)
  pub by_drain : (v : H.State) → Q v → Q (H.with_backend (L.drain (H.backend v)).1 v)
  pub by_callback : (now : ℕ) (ev : FileEvent) (v : H.State) → Q v → Q (H.callback now ev v)
  pub by_timers : (now : ℕ) (v : H.State) → Q v → Q (H.on_timers now v)

module _ {S : Type 0} (L : EventLoop S) (H : Host S) {Q : H.State → Type 0}
    (kept : IsKept L H Q) where
  deliver_keeps :
      (clock : ℕ → ℕ) (es : List FileEvent) (v : H.State) → Q v → Q (deliver H clock es v)
  unfolding deliver
  deliver_keeps clock [] v q = q
  deliver_keeps clock (ev ∷ es) v q =
      deliver_keeps (λ n. clock (suc n)) es (H.callback (clock 0) ev v)
        (kept.by_callback (clock 0) ev v q)

  finish_keeps : (last : Last) (v : H.State) → Q v → Q (finish L H last v)
  unfolding finish
  finish_keeps last v q =
      let r = L.drain (H.backend v) in
      let w = H.with_backend r.1 v in
      kept.by_timers last.now (deliver H last.clock r.0 w)
        (deliver_keeps last.clock r.0 w (kept.by_drain v q))

  notify_keeps :
      (clock : ℕ → ℕ) (now : ℕ) (es : List FileEvent) (s : S) (v : H.State)
      → Q (H.with_backend s v)
      → Q (notify L H clock now es s v)
  unfolding notify
  notify_keeps clock now es s v q =
      kept.by_timers now (deliver H clock es (H.with_backend s v))
        (deliver_keeps clock es (H.with_backend s v) q)

  resumed-Within :
      (rs : List (Round L.Answer H.State)) (last : Last) (r : Round L.Answer H.State) (t : H.State)
      (o : Option (Handled S))
      → ((h : Handled S) → o ≡ some h → Q (H.with_backend (after h) t))
      → ((v : H.State) → Q v → Within Q (watch_loop L H rs last v))
      → Within Q (resumed L H rs last r t o)
  resumed-Within rs last r t none done further = tt
  resumed-Within rs last r t (some (over s)) done further =
      finish_keeps last (H.with_backend s t) (done (over s) refl)
  resumed-Within rs last r t (some (skipped s)) done further =
      further (H.with_backend s t) (done (skipped s) refl)
  resumed-Within rs last r t (some (served es s)) done further =
      further (notify L H r.clock r.now es s t)
        (notify_keeps r.clock r.now es s t (done (served es s) refl))

  headed-Within :
      (b : Bool) (last : Last) (v : H.State) (x : Option (Bool × H.State))
      → Q v
      → Within Q x
      → Within Q (if b then x else some (true, finish L H last v))
  headed-Within true last v x q h = h
  headed-Within false last v x q h = finish_keeps last v q

  -- A property that the rounds and the other threads keep holds when the loop is over or waits.
  pub watch_loop-Within :
      (rs : List (Round L.Answer H.State)) (last : Last) (v : H.State)
      → All (λ r. (w : H.State) → Q w → Q (r.others w)) rs
      → Q v
      → Within Q (watch_loop L H rs last v)
  unfolding watch_loop
  watch_loop-Within [] last v all q =
      headed-Within (L.continues (H.backend v)) last v (some (false, v)) q q
  watch_loop-Within (r ∷ rs) last v all q =
      let t = r.others v in
      let o = L.handle r.answer (H.backend t) in
      headed-Within (L.continues (H.backend v)) last v (resumed L H rs last r t o) q (
        resumed-Within rs last r t o (λ h e. kept.by_handle r.answer h t e (all.0 v q))
          (λ w p. watch_loop-Within rs last w all.1 p))
