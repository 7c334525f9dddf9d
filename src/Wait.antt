-- ===== src/Wait.antt =====
-- How long an event loop waits: the same lines stand at the head of the loops of all platform watchers
-- (src/core/InotifyWatcher.cpp, WindowsWatcher.cpp, FanotifyWatcher.cpp). What the time-out provider
-- answers is an `int64_t`.
use libfilewatch.Base.{
  ℕ, ◌+◌, ◌*◌, ◌≤◌, ◌≡◌, ◌⊎◌, true, if◌then◌else◌, ltb, nat_eq, Option, none, some, In, arith,
}
use libfilewatch.Debounce.{ns_per_ms}
use libfilewatch.Timer.{Timers, is_live, get_next_timeout_ms}
use libfilewatch.Timer.Timeout.{get_next_timeout_ms_lem}

pub data ℤ : Type 0 where
  pos : ℕ → ℤ
  negsuc : ℕ → ℤ

-- `none`: there is no provider.
unfoldable pub timeout_ms : Option ℤ → ℕ
timeout_ms none = 1000
timeout_ms (some (negsuc n)) = 0
timeout_ms (some (pos n)) = if ltb 1000 n then 1000 else n

-- With the time-out of the timers for a provider, the loop waits a second at most and not beyond the
-- time at which a live timer is due.
pub timeout_ms-get_next_timeout_ms :
    (now : ℕ) (s : Timers)
    → let n = timeout_ms (some (pos (get_next_timeout_ms now s))) in
      (n ≤ 1000)
      × ((p : ℕ)
          → In p s.timers
          → is_live s.heap p ≡ true
          → (n ≡ 0) ⊎ (now + n * ns_per_ms ≤ (s.heap p).expire_time))
unfolding timeout_ms
timeout_ms-get_next_timeout_ms now s =
    let l = get_next_timeout_ms_lem now s in
    (ground (arith, l.0), λ p m live. ground (arith, l.0, (l.1 p m live).1))
