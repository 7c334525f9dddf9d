-- ===== src/Timer/Expiry.antt =====
-- `processExpiredTimers`: which timers are called, and what a round leaves behind.
use libfilewatch.Base.{ℕ, ◌≡◌, ◌≢◌, ◌↔◌, ◌⊎◌, true, List, [], ◌∷◌, In, Nodup, arith, nat_eq}
use libfilewatch.Timer.{
  Timers, Heap, is_live, is_due, rearm, sweep, run_expired, process_expired_timers,
}
use libfilewatch.Timer.Registry.{fired}

pub rearm_other : (h : Heap) (now p q : ℕ) → q ≢ p → rearm h now p q ≡ h q
rearm_other h now p q n = ground arith

pub In-expired :
    (now : ℕ) (h : Heap) (ps : List ℕ) (q : ℕ)
    → Nodup ps
    → In q (sweep now h ps).expired ↔ (In q ps × (is_live h q ≡ true) × (is_due h now q ≡ true))
unfolding sweep
In-expired now h [] q u = (λ m. absurd m, λ m. absurd m.0)
In-expired now h (p ∷ ps) q u = ground (
  arith,
  In-expired now h ps q u.1,
  In-expired now (rearm h now p) ps q u.1,
  rearm_other h now p q,
)

pub expired-Nodup : (now : ℕ) (h : Heap) (ps : List ℕ) → Nodup ps → Nodup (sweep now h ps).expired
unfolding sweep
expired-Nodup now h [] u = tt
expired-Nodup now h (p ∷ ps) u = ground (
  arith,
  expired-Nodup now h ps u.1,
  expired-Nodup now (rearm h now p) ps u.1,
  In-expired now h ps p u.1,
  In-expired now (rearm h now p) ps p u.1,
)

module _ (fire : ℕ → ℕ → Timers → Timers) where
  run_expired_calls :
      (p : ℕ) (ps : List ℕ) (s : Timers)
      → ((run_expired fire (p ∷ ps) s).0 ≡ (run_expired fire ps s).0)
        ⊎ ((run_expired fire (p ∷ ps) s).0 ≡ (run_expired fire ps (fired fire p s)).0)
        ⊎ ((run_expired fire (p ∷ ps) s).0 ≡ p ∷ (run_expired fire ps (fired fire p s)).0)
  unfolding run_expired
  run_expired_calls p ps s = ground arith

  In-calls : (ps : List ℕ) (s : Timers) (q : ℕ) → In q (run_expired fire ps s).0 → In q ps
  In-calls [] s q m = absurd (unfold run_expired in m)
  In-calls (p ∷ ps) s q m =
      ground (arith, run_expired_calls p ps s, In-calls ps s q, In-calls ps (fired fire p s) q)

  calls-Nodup : (ps : List ℕ) (s : Timers) → Nodup ps → Nodup (run_expired fire ps s).0
  calls-Nodup [] s u = unfold run_expired in tt
  calls-Nodup (p ∷ ps) s u = ground (
    arith,
    run_expired_calls p ps s,
    calls-Nodup ps s u.1,
    calls-Nodup ps (fired fire p s) u.1,
    In-calls ps (fired fire p s) p,
  )

  -- If no pointer is listed twice, then whatever the callbacks do to the timers, a round calls
  -- each timer at most once, and only timers that were listed, active and due when it began.
  pub fires_once :
      (now : ℕ) (s : Timers)
      → Nodup s.timers
      → let calls = (process_expired_timers fire now s).0 in
        Nodup calls
        × ((p : ℕ)
            → In p calls
            → In p s.timers × (is_live s.heap p ≡ true) × (is_due s.heap now p ≡ true))
  unfolding process_expired_timers
  fires_once now s u =
      let w = sweep now s.heap s.timers in
      (
        calls-Nodup w.expired _ (expired-Nodup now s.heap s.timers u),
        λ p m. (In-expired now s.heap s.timers p u).0 (In-calls w.expired _ p m),
      )
