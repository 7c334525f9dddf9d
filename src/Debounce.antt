-- ===== src/Debounce.antt =====
-- `cleanupDebounceMap` and `applyDebounce` of `FileWatcher::Impl` (src/FileWatcher.cpp). The clock's
-- reading is an argument; it counts nanoseconds, as `steady_clock` does in the usual libraries. Every
-- difference of times here is compared from above with a positive bound or found greater than one,
-- so that a difference that stops at 0 gives the same answers as a negative one.
pub mod Cleanup
pub mod History
use libfilewatch.Base.{
  ℕ, ◌-◌, ◌/◌, Bool, true, false, not, List, [], ◌∷◌, if◌then◌else◌, ltb, Eq, ◌==◌, text_eq, Option,
  none, some,
}
use libfilewatch.Base.Dict
use libfilewatch.Base.Dict.{Dict, lookup}
use libfilewatch.Path.{FilePath}
use libfilewatch.Event.{modify, FileEvent, same_type}

abbrev pub ns_per_ms : ℕ
ns_per_ms = 1000000

-- `duration_cast<milliseconds>(now - t).count()`
abbrev pub ms_between : ℕ → ℕ → ℕ
ms_between now t = (now - t) / ns_per_ms

abbrev pub debounce_time : ℕ
debounce_time = 50

abbrev pub debounce_cleanup_interval_ms : ℕ
debounce_cleanup_interval_ms = 30000

abbrev pub debounce_expire_ms : ℕ
debounce_expire_ms = 120000

pub record Debouncer : Type 0 where
  pub debounce_map : Dict FilePath ℕ
  pub last_debounce_cleanup : ℕ

-- The state that the constructor of `Impl` makes.
abbrev pub new_debouncer : ℕ → Debouncer
new_debouncer now = record { debounce_map = []; last_debounce_cleanup = now }

abbrev pub is_fresh : ℕ → FilePath → ℕ → Bool
is_fresh now _ t = not (ltb debounce_expire_ms (ms_between now t))

unfoldable pub cleanup_debounce_map : ℕ → Debouncer → Debouncer
unfolding Dict.retain
cleanup_debounce_map now d =
    if ltb (ms_between now d.last_debounce_cleanup) debounce_cleanup_interval_ms
    then d
    else record d {
      debounce_map = Dict.retain (is_fresh now) d.debounce_map;
      last_debounce_cleanup = now;
    }

abbrev pub stamp : FilePath → ℕ → Debouncer → Debouncer
stamp p now d = record d { debounce_map = Dict.insert p now d.debounce_map }

-- The verdict: whether the event is dropped.
unfoldable pub apply_debounce : FileEvent → ℕ → Debouncer → Debouncer × Bool
unfolding cleanup_debounce_map Dict.insert
apply_debounce ev now d =
    if not (same_type ev.event_type modify)
    then (d, false)
    else let c = cleanup_debounce_map now d in
      elim (lookup ev.path c.debounce_map) [
        | some last ↦
            if ltb (ms_between now last) debounce_time
            then (stamp ev.path now c, true)
            else (stamp ev.path now c, false)
        | none ↦ (stamp ev.path now c, false)
      ]

-- A run of events, each with the clock's reading when it came; the verdicts.
unfoldable pub run_debounce : List (ℕ × FileEvent) → Debouncer → List Bool
unfolding apply_debounce
run_debounce [] d = []
run_debounce ((now, ev) ∷ es) d = let r = apply_debounce ev now d in r.1 ∷ run_debounce es r.0
