-- ===== src/Timer/Runs.antt =====
-- Runs of the timers (src/FileWatcher.cpp): calls of the client and rounds of the event loop in any
-- order, where the callbacks call the timers, too.
use libfilewatch.Base.{ℕ, ◌≡◌, ◌≢◌, false, List, [], ◌∷◌, nat_eq, arith}
use libfilewatch.Timer.{Heap, Timers, add_timer, remove_timer, process_expired_timers}
use libfilewatch.Timer.Registry.{
  IsRegistered, add_timer-IsRegistered, remove_timer-IsRegistered,
  process_expired_timers-IsRegistered,
}

-- A call of the client.
pub data Call : Type 0 where
  adding : (p timeout_ms now : ℕ) → p ≢ 0 → Call
  removing : (p : ℕ) → Call

abbrev pub run_calls : List Call → Timers → Timers
run_calls [] s = s
run_calls (adding p t now n ∷ cs) s = run_calls cs (add_timer p t now s)
run_calls (removing p ∷ cs) s = run_calls cs (remove_timer p s)

run_calls-IsRegistered :
    (cs : List Call) (s : Timers) → IsRegistered s → IsRegistered (run_calls cs s)
run_calls-IsRegistered [] s r = r
run_calls-IsRegistered (adding p t now n ∷ cs) s r =
    run_calls-IsRegistered cs (add_timer p t now s) (add_timer-IsRegistered p t now s n r)
run_calls-IsRegistered (removing p ∷ cs) s r =
    run_calls-IsRegistered cs (remove_timer p s) (remove_timer-IsRegistered p s r)

-- What a callback does, from its number, its timer and the timers as they are.
abbrev pub Script : Type 0
Script = ℕ → ℕ → Timers → List Call

pub data Step (s : Timers) : Timers → Type 0 where
  called : (c : Call) → Step s (run_calls (c ∷ []) s)
  round :
      (script : Script) (now : ℕ)
      → Step s (process_expired_timers (λ c p t. run_calls (script c p t) t) now s).1

pub data Reach (s : Timers) : Timers → Type 0 where
  here : Reach s s
  next : {t u : Timers} → Reach s t → Step t u → Reach s u

Step-IsRegistered : {s t : Timers} → Step s t → IsRegistered s → IsRegistered t
Step-IsRegistered {s} (called c) r = run_calls-IsRegistered (c ∷ []) s r
Step-IsRegistered {s} (round script now) r =
    process_expired_timers-IsRegistered _ (λ c p t h. run_calls-IsRegistered (script c p t) t h) now
      s r

-- No timer is listed, and none says that it is active.
abbrev pub idle : (h : Heap) → Timers
idle h = record { heap = h; timers = []; wakeups = 0 }

-- In every state that timers come to which start listed nowhere and inactive, by calls of the client
-- and by rounds in which each callback may make any such calls, too, no pointer is listed twice, none
-- is null, and each active timer is listed, if no null pointer is added.
pub Reach-IsRegistered :
    (h : Heap) {t : Timers} → ((p : ℕ) → (h p).active ≡ false) → Reach (idle h) t → IsRegistered t
Reach-IsRegistered h quiet here = record {
  distinct = tt;
  no_null = λ m. m;
  listed = λ p a. ground (arith, quiet p);
}
Reach-IsRegistered h quiet (next r st) = Step-IsRegistered st (Reach-IsRegistered h quiet r)
