-- ===== src/Tests/Timing.antt =====
-- The timers (src/FileWatcher.cpp, include/filewatch/Timer.h) on concrete input.
use libfilewatch.Base.{
  ℕ, ◌+◌, ◌*◌, ◌≤◌, ◌≡◌, refl, ◌↔◌, ◌⊎◌, true, false, ◌&&◌, [], ◌∷◌, In, Nodup, keep, contains,
  if◌then◌else◌, ◌==◌, nat_eq, none, some, arith,
}
use libfilewatch.Debounce.{ns_per_ms}
use libfilewatch.Timer.{
  new_timer, Timers, Heap, add_timer, remove_timer, is_live, is_due, get_next_timeout_ms,
  process_expired_timers,
}
use libfilewatch.Timer.Timeout.{ms_until, get_next_timeout_ms_lem}
use libfilewatch.Timer.Registry.{IsRegistered}
use libfilewatch.Timer.Runs.{
  run_calls, adding, removing, Script, called, round, here, next, idle, Reach-IsRegistered,
}
use libfilewatch.Timer.Expiry.{fires_once}
use libfilewatch.Timer.Swept.{has_callback, is_single, spent}
use libfilewatch.Timer.Quiet.{quiet_round}

-- Timer 1 is active, due at 5 ms and repeats each 7 ms; timer 2 is a single one, due at 3 s.
abbrev two_timers : Heap
two_timers p =
    if p == 1
    then record (new_timer (some 10) true) { active = true; interval_ms = 7; expire_time = 5000000 }
    else if p == 2
    then record (new_timer (some 20) false) {
      active = true;
      interval_ms = 3000;
      expire_time = 3000000000;
    }
    else new_timer none false

abbrev listed_timers : Timers
listed_timers = record { heap = two_timers; timers = 1 ∷ 2 ∷ []; wakeups = 0 }

listed_timers-Nodup : Nodup listed_timers.timers
listed_timers-Nodup = ground arith

listed_timers-IsRegistered : IsRegistered listed_timers
listed_timers-IsRegistered = record {
  distinct = ground arith;
  no_null = ground arith;
  listed = λ p a. ground arith;
}

abbrev at_rest : ℕ → ℕ → Timers → Timers
at_rest c p s = s

-- A callback that sets its timer again.
abbrev again : ℕ → ℕ → Timers → Timers
again c p s = remove_timer 2 s

get_next_timeout_ms_lem_example :
    let n = get_next_timeout_ms 6000000 listed_timers in
    (n ≤ 1000)
    × ((p : ℕ)
        → In p listed_timers.timers
        → is_live two_timers p ≡ true
        → (n ≤ ms_until two_timers 6000000 p)
          × ((n ≡ 0) ⊎ (6000000 + n * ns_per_ms ≤ (two_timers p).expire_time)))
    × ((n ≡ 1000)
        ⊎ ((p : ℕ) × In p listed_timers.timers
            × (is_live two_timers p ≡ true)
            × (n ≡ ms_until two_timers 6000000 p)))
get_next_timeout_ms_lem_example = get_next_timeout_ms_lem 6000000 listed_timers

-- A callback that takes its timer off.
abbrev once : Script
once c p s = removing p ∷ []

abbrev nowhere : Heap
nowhere p = new_timer (some 10) true

Reach-IsRegistered_example :
    IsRegistered
      (process_expired_timers
        (λ c p t. run_calls (once c p t) t)
        9000000
        (add_timer 1 5 0 (idle nowhere))).1
Reach-IsRegistered_example =
    Reach-IsRegistered nowhere (λ p. refl)
      (next (next here (called (adding 1 5 0 (ground arith)))) (round once 9000000))

fires_once_example :
    let calls = (process_expired_timers again 9000000 listed_timers).0 in
    Nodup calls
    × ((p : ℕ)
        → In p calls
        → In p listed_timers.timers
          × (is_live two_timers p ≡ true)
          × (is_due two_timers 9000000 p ≡ true))
fires_once_example = fires_once again 9000000 listed_timers listed_timers-Nodup

quiet_round_example :
    let r = process_expired_timers at_rest 9000000 listed_timers in
    (r.0
      ≡ keep
          (has_callback two_timers)
          (keep (λ p. is_live two_timers p && is_due two_timers 9000000 p) listed_timers.timers))
    × ((q : ℕ)
        → r.1.heap q ≡ (
            if contains listed_timers.timers q
              && (is_live two_timers q && is_due two_timers 9000000 q)
            then spent 9000000 (two_timers q)
            else two_timers q))
    × ((q : ℕ)
        → In q r.1.timers ↔ (
            In q listed_timers.timers
            × (is_live two_timers q ≡ true)
            × ((is_due two_timers 9000000 q && is_single two_timers q) ≡ false)))
quiet_round_example = quiet_round at_rest (λ c p s. refl) 9000000 listed_timers listed_timers-Nodup
