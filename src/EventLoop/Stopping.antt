-- ===== src/EventLoop/Stopping.antt =====
-- `stop` while an event loop runs, for all platform watchers (src/core).
use libfilewatch.Base.{
  ℕ, suc, ◌+◌, ◌≡◌, inl, inr, refl, ap, ◌∙◌, Bool, true, false, List, [], ◌∷◌, Option, none, some,
  Bool-cases,
}
use libfilewatch.Event.{FileEvent}
use libfilewatch.EventLoop.{
  Handled, over, skipped, served, after, EventLoop, IsTotal, Host, Round, Last, deliver, finish,
  notify, watch_loop,
}

module _ {S : Type 0} (H : Host S) where
  backend-deliver :
      (clock : ℕ → ℕ) (es : List FileEvent) (v : H.State)
      → H.backend (deliver H clock es v) ≡ H.backend v
  unfolding deliver
  backend-deliver clock [] v = refl
  backend-deliver clock (ev ∷ es) v =
      backend-deliver (λ n. clock (suc n)) es (H.callback (clock 0) ev v)
      ∙ H.backend-callback (clock 0) ev v

module _ {S : Type 0} (L : EventLoop S) (H : Host S) where
  pub backend-notify :
      (clock : ℕ → ℕ) (now : ℕ) (es : List FileEvent) (s : S) (v : H.State)
      → H.backend (notify L H clock now es s v) ≡ s
  unfolding notify
  backend-notify clock now es s v =
      H.backend-on_timers now (deliver H clock es (H.with_backend s v))
      ∙ (backend-deliver H clock es (H.with_backend s v) ∙ H.backend-with_backend s v)

  -- What the loop does with what a round comes to.
  abbrev pub resumed :
      List (Round L.Answer H.State)
      → Last
      → Round L.Answer H.State
      → H.State
      → Option (Handled S)
      → Option (Bool × H.State)
  resumed rs last r t o = elim o [
    | none ↦ none
    | some (over s) ↦ some (true, finish L H last (H.with_backend s t))
    | some (skipped s) ↦ watch_loop L H rs last (H.with_backend s t)
    | some (served es s) ↦ watch_loop L H rs last (notify L H r.clock r.now es s t)
  ]

  -- The loop is over in every continuation, in one state.
  abbrev Ends : (List (Round L.Answer H.State) → Option (Bool × H.State)) → Type 0
  Ends f = (v : H.State) × ((rs : List (Round L.Answer H.State)) → f rs ≡ some (true, v))

  pub ended_watch :
      (rs : List (Round L.Answer H.State)) (last : Last) (v : H.State)
      → L.continues (H.backend v) ≡ false
      → watch_loop L H rs last v ≡ some (true, finish L H last v)
  unfolding watch_loop
  ended_watch [] last v h = rw h refl
  ended_watch (r ∷ rs) last v h = rw h refl

  pub going_watch :
      (r : Round L.Answer H.State) (rs : List (Round L.Answer H.State)) (last : Last) (v : H.State)
      → L.continues (H.backend v) ≡ true
      → let t = r.others v in
        watch_loop L H (r ∷ rs) last v ≡ resumed rs last r t (L.handle r.answer (H.backend t))
  unfolding watch_loop
  going_watch r rs last v h = rw h refl

  ended :
      (last : Last) (v : H.State)
      → L.continues (H.backend v) ≡ false
      → Ends (λ rs. watch_loop L H rs last v)
  ended last v h = (finish L H last v, λ rs. ended_watch rs last v h)

  ended_round :
      (r : Round L.Answer H.State) (last : Last) (t : H.State) (h : Handled S)
      → L.continues (after h) ≡ false
      → Ends (λ rs. resumed rs last r t (some h))
  ended_round r last t (over s) e = (finish L H last (H.with_backend s t), λ rs. refl)
  ended_round r last t (skipped s) e =
      ended last (H.with_backend s t) (ap L.continues (H.backend-with_backend s t) ∙ e)
  ended_round r last t (served es s) e =
      ended last (notify L H r.clock r.now es s t)
        (ap L.continues (backend-notify r.clock r.now es s t) ∙ e)

  -- On a platform whose rounds have a result whatever the system answers: when `stop` is called while
  -- the loop waits, then whatever the system answers, and whatever would come after that, the loop
  -- comes to its end after the round, in a state that does not depend on what would come; and if the
  -- loop was to go on and the platform can be woken up, the call adds a wake-up.
  pub stop_ends_loop :
      (r : Round L.Answer H.State) (last : Last) (v : H.State)
      → IsTotal L
      → H.backend (r.others v) ≡ L.stop (H.backend v)
      → ((t : H.State) × ((rs : List (Round L.Answer H.State))
            → watch_loop L H (r ∷ rs) last v ≡ some (true, t)))
        × (L.continues (H.backend v) ≡ true
            → L.can_wake (H.backend v) ≡ true
            → L.wakeups (H.backend (r.others v)) ≡ L.wakeups (H.backend v) + 1)
  stop_ends_loop r last v total e =
      let t = r.others v in
      let (h, done) = total r.answer (H.backend t) in
      let halted =
        L.continues-handle r.answer (H.backend t) h done
          (ap L.continues e ∙ L.continues-stop (H.backend v)) in
      let (u, ends) = ended_round r last t h halted in
      (
        elim (Bool-cases (L.continues (H.backend v))) [
          | inl go ↦ (
            u,
            λ rs. going_watch r rs last v go ∙ (ap (λ o. resumed rs last r t o) done ∙ ends rs),
          )
          | inr halt ↦ (finish L H last v, λ rs. ended_watch (r ∷ rs) last v halt)
        ],
        λ go can. ap L.wakeups e ∙ L.wakeups-stop (H.backend v) go can,
      )
