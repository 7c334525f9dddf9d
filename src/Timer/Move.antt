-- ===== src/Timer/Move.antt =====
-- Moving and destroying a timer (include/filewatch/Timer.h). Neither tells the watcher, which goes on
-- with the pointer that it was given.
use libfilewatch.Base.{
  ℕ, ◌≡◌, ◌≢◌, true, false, In, Nodup, arith, if◌then◌else◌, ◌==◌, nat_eq, Option,
}
use libfilewatch.Timer.{Timers, update, process_expired_timers}
use libfilewatch.Timer.Expiry.{fires_once}

-- `Timer& operator=(Timer&& other)`. A `std::function` that was moved from holds something that the
-- language leaves open, `leftover`.
unfoldable pub move_timer : Option ℕ → ℕ → ℕ → Timers → Timers
move_timer leftover this other s = if this == other then s else record s {
  heap =
      update (update s.heap this (s.heap other)) other
        (record (s.heap other) { callback = leftover; active = false });
}

-- `~Timer()`
unfoldable pub destroy_timer : ℕ → Timers → Timers
destroy_timer p s = record s { heap = update s.heap p (record (s.heap p) { active = false }) }

-- If no pointer is listed twice, an active timer that is moved to an object which is not listed is
-- active there, and the next round of expired timers calls neither of the two, whatever the
-- callbacks do.
pub moved_timer_lost :
    (leftover : Option ℕ) (this other now : ℕ) (s : Timers) (fire : ℕ → ℕ → Timers → Timers)
    → Nodup s.timers
    → (s.heap other).active ≡ true
    → ¬ In this s.timers
    → this ≢ other
    → let s' = move_timer leftover this other s in
      let calls = (process_expired_timers fire now s').0 in
      ((s'.heap this).active ≡ true) × (¬ In this calls) × (¬ In other calls)
unfolding move_timer
moved_timer_lost leftover this other now s fire u a fresh n =
    let s' = move_timer leftover this other s in
    let once = fires_once fire now s' (ground arith) in
    (
      ground arith,
      λ m. let at = once.1 this m in ground arith,
      λ m. let at = once.1 other m in ground arith,
    )
