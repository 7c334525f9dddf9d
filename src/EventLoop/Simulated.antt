-- ===== src/EventLoop/Simulated.antt =====
-- One loop under two hosts (`watchLoop` of the platform watchers in src/core).
use mathlib.Core.Path.{ap₂}
use libfilewatch.Base.{
  ℕ, suc, ◌≡◌, refl, sym, ap, subst, Bool, true, false, List, [], ◌∷◌, ◌++◌, map, if◌then◌else◌,
  Option, none, some, append_assoc, append-nil, ◌∙◌,
}
use libfilewatch.Event.{FileEvent}
use libfilewatch.EventLoop.{
  Handled, over, skipped, served, EventLoop, Host, Round, Last, deliver, finish, notify, watch_loop,
  stamped,
}
use libfilewatch.EventLoop.Stopping.{resumed}

-- A round in which the other threads act on the platform watcher alone.
pub record BackendRound (A S : Type 0) : Type 0 where
  pub meanwhile : S → S
  pub answer : A
  pub clock : ℕ → ℕ
  pub now : ℕ

abbrev pub lifted : {A S : Type 0} (H : Host S) → BackendRound A S → Round A H.State
lifted H r = record {
  others = λ v. H.with_backend (r.meanwhile (H.backend v)) v;
  answer = r.answer;
  clock = r.clock;
  now = r.now;
}

-- The host that writes down what it is called with.
abbrev pub recorder : (S : Type 0) → Host S
recorder S = record {
  State = S × List (ℕ × FileEvent);
  backend = λ v. v.0;
  with_backend = λ s v. (s, v.1);
  callback = λ now ev v. (v.0, v.1 ++ (now, ev) ∷ []);
  on_timers = λ now v. v;
  backend-with_backend = λ s v. refl;
  backend-callback = λ now ev v. refl;
  backend-on_timers = λ now v. refl;
}

pub deliver-recorder :
    {S : Type 0} (clock : ℕ → ℕ) (es : List FileEvent) (v : S × List (ℕ × FileEvent))
    → deliver (recorder S) clock es v ≡ (v.0, v.1 ++ stamped clock es)
unfolding deliver
deliver-recorder clock [] v = ap (λ l. (v.0, l)) (sym (append-nil v.1))
deliver-recorder clock (ev ∷ es) v =
    deliver-recorder (λ n. clock (suc n)) es (v.0, v.1 ++ (clock 0, ev) ∷ [])
    ∙ ap (λ l. (v.0, l)) (append_assoc v.1 ((clock 0, ev) ∷ []) (stamped (λ n. clock (suc n)) es))

-- Each step of the first host is one of the second.
pub record Simulation {S : Type 0} (H G : Host S) (R : H.State → G.State → Type 0) : Type 0 where
  pub same_backend : (v : H.State) (w : G.State) → R v w → H.backend v ≡ G.backend w
  pub by_backend :
      (s : S) (v : H.State) (w : G.State) → R v w → R (H.with_backend s v) (G.with_backend s w)
  pub by_callback :
      (now : ℕ) (ev : FileEvent) (v : H.State) (w : G.State)
      → R v w
      → R (H.callback now ev v) (G.callback now ev w)
  pub by_timers :
      (now : ℕ) (v : H.State) (w : G.State) → R v w → R (H.on_timers now v) (G.on_timers now w)

-- Both have no result, or both have one with the same flag and with states that are related.
abbrev pub Related :
    {A B : Type 0} → (A → B → Type 0) → Option (Bool × A) → Option (Bool × B) → Type 0
Related R none none = Unit {0}
Related R (some (b, v)) (some (c, w)) = (b ≡ c) × R v w
Related R none (some _) = ⊥
Related R (some _) none = ⊥

module _ {S : Type 0} (L : EventLoop S) (H G : Host S) {R : H.State → G.State → Type 0}
    (sim : Simulation H G R) where
  deliver-related :
      (clock : ℕ → ℕ) (es : List FileEvent) (v : H.State) (w : G.State)
      → R v w
      → R (deliver H clock es v) (deliver G clock es w)
  unfolding deliver
  deliver-related clock [] v w r = r
  deliver-related clock (ev ∷ es) v w r =
      deliver-related (λ n. clock (suc n)) es (H.callback (clock 0) ev v)
        (G.callback (clock 0) ev w) (sim.by_callback (clock 0) ev v w r)

  notify-related :
      (clock : ℕ → ℕ) (now : ℕ) (es : List FileEvent) (s : S) (v : H.State) (w : G.State)
      → R v w
      → R (notify L H clock now es s v) (notify L G clock now es s w)
  unfolding notify
  notify-related clock now es s v w r =
      sim.by_timers now (deliver H clock es (H.with_backend s v))
        (deliver G clock es (G.with_backend s w))
        (deliver-related clock es (H.with_backend s v) (G.with_backend s w)
          (sim.by_backend s v w r))

  finish-related :
      (last : Last) (v : H.State) (w : G.State) → R v w → R (finish L H last v) (finish L G last w)
  unfolding finish notify
  finish-related last v w r =
      subst
        (λ x. R (finish L H last v) (notify L G last.clock last.now (L.drain x).0 (L.drain x).1 w))
        (sim.same_backend v w r)
        (let d = L.drain (H.backend v) in notify-related last.clock last.now d.0 d.1 v w r)

  lifted-related :
      {A : Type 0} (b : BackendRound A S) (v : H.State) (w : G.State)
      → R v w
      → R ((lifted H b).others v) ((lifted G b).others w)
  lifted-related b v w r =
      subst (λ x. R ((lifted H b).others v) (G.with_backend (b.meanwhile x) w))
        (sim.same_backend v w r) (sim.by_backend (b.meanwhile (H.backend v)) v w r)

  -- The rest of a round, where the loop agrees on what follows.
  resumed-Related :
      (rs : List (Round L.Answer H.State)) (ss : List (Round L.Answer G.State)) (last : Last)
      (b : BackendRound L.Answer S) (v : H.State) (w : G.State) (o : Option (Handled S))
      → R v w
      → ((x : H.State) (y : G.State)
          → R x y
          → Related R (watch_loop L H rs last x) (watch_loop L G ss last y))
      → Related R (resumed L H rs last (lifted H b) v o) (resumed L G ss last (lifted G b) w o)
  resumed-Related rs ss last b v w none r further = tt
  resumed-Related rs ss last b v w (some (over s)) r further =
      (refl, finish-related last (H.with_backend s v) (G.with_backend s w) (sim.by_backend s v w r))
  resumed-Related rs ss last b v w (some (skipped s)) r further =
      further (H.with_backend s v) (G.with_backend s w) (sim.by_backend s v w r)
  resumed-Related rs ss last b v w (some (served es s)) r further =
      further (notify L H b.clock b.now es s v) (notify L G b.clock b.now es s w)
        (notify-related b.clock b.now es s v w r)

  -- The head of the loop: it goes on with what both have, or is over.
  headed-Related :
      (c : Bool) (last : Last) (v : H.State) (w : G.State) (x : Option (Bool × H.State))
      (y : Option (Bool × G.State))
      → R v w
      → Related R x y
      → Related R
          (if c then x else some (true, finish L H last v))
          (if c then y else some (true, finish L G last w))
  headed-Related true last v w x y r q = q
  headed-Related false last v w x y r q = (refl, finish-related last v w r)

  -- Under two hosts of which one simulates the other, a loop takes the same way, and comes to states
  -- that are related, whatever the other threads do to the platform watcher.
  pub watch_loop-Related :
      (bs : List (BackendRound L.Answer S)) (last : Last) (v : H.State) (w : G.State)
      → R v w
      → Related R
          (watch_loop L H (map (lifted H) bs) last v)
          (watch_loop L G (map (lifted G) bs) last w)
  unfolding watch_loop
  watch_loop-Related [] last v w r =
      subst
        (λ x.
          Related R (watch_loop L H [] last v)
            (if L.continues x then some (false, w) else some (true, finish L G last w)))
        (sim.same_backend v w r)
        (headed-Related (L.continues (H.backend v)) last v w (some (false, v)) (some (false, w)) r
          (refl, r))
  watch_loop-Related (b ∷ bs) last v w r =
      let t = (lifted H b).others v in
      let u = (lifted G b).others w in
      let q = lifted-related b v w r in
      let rs = map (lifted H) bs in
      let ss = map (lifted G) bs in
      let o = L.handle b.answer (H.backend t) in
      subst
        (λ (x : S × S). Related R (watch_loop L H (map (lifted H) (b ∷ bs)) last v) (
          if L.continues x.0
          then resumed L G ss last (lifted G b) u (L.handle b.answer x.1)
          else some (true, finish L G last w)))
        (ap₂ (λ x y. (x, y)) (sim.same_backend v w r) (sim.same_backend t u q))
        (headed-Related (L.continues (H.backend v)) last v w (resumed L H rs last (lifted H b) t o)
          (resumed L G ss last (lifted G b) u o) r
          (resumed-Related rs ss last b t u o q (watch_loop-Related bs last)))
