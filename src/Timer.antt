-- ===== src/Timer.antt =====
-- `Timer` (include/filewatch/Timer.h) and the timers of `FileWatcher::Impl` (src/FileWatcher.cpp):
-- `addTimer`, `removeTimer`, `getNextTimeoutMs`, `processExpiredTimers`. The caller holds the timers;
-- they stand on a heap, and a pointer is a number, 0 the null pointer. The clock's reading, in
-- nanoseconds, is an argument. A callback is known by a number, and what the client's code does when
-- it is called is the parameter `fire`; its exceptions are swallowed, so it always leaves a state.
pub mod Timeout
pub mod Registry
pub mod Runs
pub mod Expiry
pub mod Swept
pub mod Quiet
pub mod Move
use libfilewatch.Base.{
  ℕ, ◌+◌, ◌-◌, ◌*◌, ◌/◌, Bool, true, false, not, ◌&&◌, ◌||◌, List, [], ◌∷◌, ◌++◌, contains,
  erase_first, is_empty, if◌then◌else◌, ltb, leb, Eq, ◌==◌, nat_eq, Option, none, some,
}
use libfilewatch.Debounce.{ns_per_ms, ms_between}

pub record Timer : Type 0 where
  pub callback : Option ℕ
  pub repeating : Bool
  pub active : Bool
  pub interval_ms : ℕ
  pub expire_time : ℕ
  pub id : ℕ

-- `Timer(callback, repeating)`
abbrev pub new_timer : Option ℕ → Bool → Timer
new_timer cb rep = record {
  callback = cb;
  repeating = rep;
  active = false;
  interval_ms = 0;
  expire_time = 0;
  id = 0;
}

abbrev pub Heap : Type 0
Heap = ℕ → Timer

abbrev pub update : Heap → ℕ → Timer → Heap
update h p t q = if q == p then t else h q

-- `m_timers`, the objects that it points to, and how often the event loop was woken.
pub record Timers : Type 0 where
  pub heap : Heap
  pub timers : List ℕ
  pub wakeups : ℕ

unfoldable pub add_timer : ℕ → ℕ → ℕ → Timers → Timers
add_timer p timeout_ms now s = record {
  heap = update s.heap p (record (s.heap p) {
    interval_ms = timeout_ms;
    expire_time = now + timeout_ms * ns_per_ms;
    active = true;
  });
  timers = if contains s.timers p then s.timers else s.timers ++ p ∷ [];
  wakeups = s.wakeups + 1;
}

unfoldable pub remove_timer : ℕ → Timers → Timers
remove_timer p s = record {
  heap = update s.heap p (record (s.heap p) { active = false });
  timers = erase_first p s.timers;
  wakeups = s.wakeups + 1;
}

-- `t && t->m_active`
abbrev pub is_live : Heap → ℕ → Bool
is_live h p = not (p == 0) && (h p).active

-- `t->m_expireTime <= now`
abbrev pub is_due : Heap → ℕ → ℕ → Bool
is_due h now p = leb (h p).expire_time now

-- What follows the loop of `getNextTimeoutMs`.
abbrev pub clip : Bool → ℕ → ℕ
clip has_active min_diff =
    if not has_active then 1000 else if ltb 1000 min_diff then 1000 else min_diff

abbrev pub next_min : ℕ → ℕ → ℕ
next_min diff min_diff = if ltb diff min_diff then diff else min_diff

unfoldable pub scan_timeouts : Heap → ℕ → List ℕ → Bool → ℕ → ℕ
scan_timeouts h now [] has_active min_diff = clip has_active min_diff
scan_timeouts h now (p ∷ ps) has_active min_diff =
    let skip = scan_timeouts h now ps has_active min_diff in
    let next = scan_timeouts h now ps true (next_min (ms_between (h p).expire_time now) min_diff) in
    if is_live h p then if is_due h now p then 0 else next else skip

unfoldable pub get_next_timeout_ms : ℕ → Timers → ℕ
unfolding scan_timeouts
get_next_timeout_ms now s =
    if is_empty s.timers then 1000 else scan_timeouts s.heap now s.timers false 1000

-- The first loop of `processExpiredTimers`: what stays listed, what has expired, and the heap.
pub record Sweep : Type 0 where
  pub kept : List ℕ
  pub expired : List ℕ
  pub heap : Heap

-- A repeating timer is set anew.
abbrev pub rearm : Heap → ℕ → ℕ → Heap
rearm h now p =
    if (h p).repeating
    then update h p (record (h p) { expire_time = now + (h p).interval_ms * ns_per_ms })
    else h

unfoldable pub sweep : ℕ → Heap → List ℕ → Sweep
sweep now h [] = record { kept = []; expired = []; heap = h }
sweep now h (p ∷ ps) =
    let gone = sweep now h ps in
    let over = sweep now (rearm h now p) ps in
    if not (is_live h p)
    then gone
    else if is_due h now p
    then record { kept = p ∷ over.kept; expired = p ∷ over.expired; heap = over.heap }
    else record { kept = p ∷ gone.kept; expired = gone.expired; heap = gone.heap }

-- What is done to an expired timer under the lock: a single one is taken off.
abbrev pub retire : ℕ → Timers → Timers
retire p s = if (s.heap p).repeating then s else record s {
  heap = update s.heap p (record (s.heap p) { active = false });
  timers = erase_first p s.timers;
}

module _ (fire : ℕ → ℕ → Timers → Timers) where
  abbrev pub call : Option ℕ → ℕ → Timers → Timers
  call none p s = s
  call (some c) p s = fire c p s

  -- The second loop. The pointers whose callbacks were called come with the state.
  unfoldable pub run_expired : List ℕ → Timers → List ℕ × Timers
  run_expired [] s = ([], s)
  run_expired (p ∷ ps) s =
      let skipped = run_expired ps s in
      let after = run_expired ps (call (s.heap p).callback p (retire p s)) in
      if not (is_live s.heap p)
      then skipped
      else elim (s.heap p).callback [ none ↦ after | some _ ↦ (p ∷ after.0, after.1) ]

  unfoldable pub process_expired_timers : ℕ → Timers → List ℕ × Timers
  unfolding sweep run_expired
  process_expired_timers now s =
      let w = sweep now s.heap s.timers in
      run_expired w.expired (record s { heap = w.heap; timers = w.kept })
