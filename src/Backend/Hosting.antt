-- ===== src/Backend/Hosting.antt =====
-- The file watcher as what an event loop works for (src/FileWatcher.cpp): with any platform watcher,
-- the loop and the way of the events through the file watcher together.
use mathlib.Core.Path.{ap₂}
use libfilewatch.Base.{
  ℕ, ◌≡◌, refl, sym, ap, subst, ◌∙◌, Bool, List, [], ◌∷◌, ◌++◌, map, Option, none, some, text_eq,
  arith,
}
use libfilewatch.Event.{FileEvent}
use libfilewatch.Filter.{Regex}
use libfilewatch.Debounce.{new_debouncer}
use libfilewatch.Debounce.History.{IsAscending}
use libfilewatch.Timer.{Timers}
use libfilewatch.Watcher.{Platform, Watcher, process_event, process_events, dispatch_event}
use libfilewatch.Watcher.Pipeline.{reference, process_events-reference}
use libfilewatch.EventLoop.{EventLoop, Host, Last, watch_loop}
use libfilewatch.EventLoop.Simulated.{
  BackendRound, lifted, recorder, Simulation, Related, watch_loop-Related,
}
use libfilewatch.Backend.{System, on_event, expire, with_platform}

Related-some :
    {A B : Type 0} (R : A → B → Type 0) (b : Bool) (y : B) (x : Option (Bool × A))
    → Related R x (some (b, y))
    → (a : A) × (x ≡ some (b, a)) × R a y
Related-some R b y none h = absurd h
Related-some R b y (some (c, a)) h = (a, ap (λ d. some (d, a)) h.0, h.1)

module _ {X : Regex} {P : Platform} {W : Type 0} where
  process_events-append :
      (es fs : List (ℕ × FileEvent)) (s : Watcher X P W) (w : W)
      → process_events (es ++ fs) s w ≡ (let r = process_events es s w in process_events fs r.0 r.1)
  unfolding process_events
  process_events-append [] fs s w = refl
  process_events-append ((now, ev) ∷ es) fs s w =
      let r = process_event ev now s w in process_events-append es fs r.0 r.1

  -- A platform watcher is not looked at.
  process_event-over :
      (ev : FileEvent) (now : ℕ) (p : P.State) (s : Watcher X P W) (w : W)
      → process_event ev now (record s { platform_watcher = p }) w
        ≡ (let r = process_event ev now s w in (record r.0 { platform_watcher = p }, r.1))
  unfolding process_event dispatch_event
  process_event-over ev now p s w = ground arith

  pub on_event-backend :
      (now : ℕ) (ev : FileEvent) (s : System X P W)
      → (on_event now ev s).watcher.platform_watcher ≡ s.watcher.platform_watcher
  unfolding on_event process_event
  on_event-backend now ev s = ground arith

  pub expire-backend :
      (fire : ℕ → ℕ → Timers → Timers) (now : ℕ) (s : System X P W)
      → (expire fire now s).watcher.platform_watcher ≡ s.watcher.platform_watcher
  unfolding expire
  expire-backend fire now s = refl

-- What `Impl` sets up in its constructor.
abbrev pub impl_host :
    (X : Regex) (P : Platform) (W : Type 0) → (ℕ → ℕ → Timers → Timers) → Host P.State
impl_host X P W fire = record {
  State = System X P W;
  backend = λ s. s.watcher.platform_watcher;
  with_backend = with_platform;
  callback = on_event;
  on_timers = expire fire;
  backend-with_backend = λ p s. refl;
  backend-callback = on_event-backend;
  backend-on_timers = expire-backend fire;
}

module _ {X : Regex} {P : Platform} {W : Type 0} where
  -- A system that is what the recorded events make of the first watcher and world.
  abbrev IsReplay : Watcher X P W → W → System X P W → P.State × List (ℕ × FileEvent) → Type 0
  IsReplay first world s r =
      let done = process_events r.1 first world in
      (s.watcher ≡ record done.0 { platform_watcher = r.0 }) × (s.world ≡ done.1)

  IsReplay-more :
      (first : Watcher X P W) (world : W) (now : ℕ) (ev : FileEvent) (s : System X P W)
      (r : P.State × List (ℕ × FileEvent))
      → IsReplay first world s r
      → IsReplay first world (on_event now ev s) (r.0, r.1 ++ (now, ev) ∷ [])
  unfolding on_event process_events
  IsReplay-more first world now ev s r h =
      let done = process_events r.1 first world in
      let step : process_event ev now s.watcher s.world
          ≡ process_event ev now (record done.0 { platform_watcher = r.0 }) done.1 =
        ap₂ (process_event ev now) h.0 h.1 in
      let moved = process_event-over ev now r.0 done.0 done.1 in
      let joined = process_events-append r.1 ((now, ev) ∷ []) first world in
      (
        ap (λ x. x.0) (step ∙ moved)
            ∙ ap (λ (x : Watcher X P W × W). record x.0 { platform_watcher = r.0 }) (sym joined),
        ap (λ x. x.1) (step ∙ moved) ∙ ap (λ x. x.1) (sym joined),
      )

  recorded :
      (fire : ℕ → ℕ → Timers → Timers) (first : Watcher X P W) (world : W)
      → Simulation (impl_host X P W fire) (recorder P.State) (IsReplay first world)
  unfolding expire
  recorded fire first world = record {
    same_backend = λ v w r. ap (λ (x : Watcher X P W). x.platform_watcher) r.0;
    by_backend =
        λ s v w r. (ap (λ (x : Watcher X P W). record x { platform_watcher = s }) r.0, r.1);
    by_callback = λ now ev v w r. IsReplay-more first world now ev v w r;
    by_timers = λ now v w r. r;
  }

  -- If the debouncing starts new and the times that the loop records do not go back, then with any
  -- platform watcher, and whatever other threads do to it meanwhile, the file watcher's run of the
  -- event loop comes as far as the run of the loop that only records the events, and leaves the
  -- platform watcher in the same state; and the client has then seen what the reference delivers of
  -- the recorded events: in order, each that passes the filter and is no modification of a path whose
  -- last modification that passed came less than 50 ms before. The timers change nothing of this.
  pub watch_loop-reference :
      (fire : ℕ → ℕ → Timers → Timers) (L : EventLoop P.State)
      (bs : List (BackendRound L.Answer P.State)) (last : Last) (s : System X P W) (t : ℕ)
      (b : Bool) (p : P.State) (log : List (ℕ × FileEvent))
      → watch_loop L
          (recorder P.State)
          (map (lifted (recorder P.State)) bs)
          last
          (s.watcher.platform_watcher, [])
        ≡ some (b, (p, log))
      → s.watcher.debouncer ≡ new_debouncer t
      → IsAscending t log
      → (u : System X P W) × (watch_loop L
            (impl_host X P W fire)
            (map (lifted (impl_host X P W fire)) bs)
            last
            s
          ≡ some (b, u))
        × (u.watcher.platform_watcher ≡ p)
        × (u.world ≡ reference [] log s.watcher s.world)
  unfolding process_events
  watch_loop-reference fire L bs last s t b p log e new up =
      let host = impl_host X P W fire in
      let R = IsReplay s.watcher s.world in
      let run = watch_loop L host (map (lifted host) bs) last s in
      let related =
        watch_loop-Related L host (recorder P.State) (recorded fire s.watcher s.world) bs last s
          (s.watcher.platform_watcher, []) (refl, refl) in
      let (u, ran, same) = Related-some R b (p, log) run (subst (Related R run) e related) in
      (
        u,
        ran,
        ap (λ (x : Watcher X P W). x.platform_watcher) same.0,
        same.1 ∙ process_events-reference t log s.watcher s.world new up,
      )
