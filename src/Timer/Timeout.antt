-- ===== src/Timer/Timeout.antt =====
-- `getNextTimeoutMs`: how long the event loop may sleep.
use libfilewatch.Base.{
  ℕ, ◌+◌, ◌*◌, ◌≤◌, ◌≡◌, refl, ◌⊎◌, inl, inr, Bool, true, false, ◌&&◌, List, [], ◌∷◌, In, is_empty,
  arith, if◌then◌else◌, zero, suc, Bool-cases, leb, min, nat_eq,
}
use libfilewatch.Debounce.{ns_per_ms, ms_between}
use libfilewatch.Timer.{Timers, Heap, is_live, next_min, scan_timeouts, get_next_timeout_ms}

-- Whole milliseconds until a timer is due; 0 if it is.
abbrev pub ms_until : Heap → ℕ → ℕ → ℕ
ms_until h now p = ms_between (h p).expire_time now

-- The least of these among the live timers, and 1000.
abbrev pub least_timeout : Heap → ℕ → List ℕ → ℕ
least_timeout h now [] = 1000
least_timeout h now (p ∷ ps) =
    let rest = least_timeout h now ps in if is_live h p then min (ms_until h now p) rest else rest

least_timeout-le : (h : Heap) (now : ℕ) (ps : List ℕ) → least_timeout h now ps ≤ 1000
least_timeout-le h now [] = omega arith
least_timeout-le h now (p ∷ ps) = ground (arith, least_timeout-le h now ps)

scan-least :
    (h : Heap) (now : ℕ) (ps : List ℕ) (a : Bool) (m : ℕ)
    → m ≤ 1000
    → (a ≡ false → m ≡ 1000)
    → scan_timeouts h now ps a m ≡ min m (least_timeout h now ps)
unfolding scan_timeouts
scan-least h now [] a m h₁ h₂ = ground arith
scan-least h now (p ∷ ps) a m h₁ h₂ = ground (
  arith,
  scan-least h now ps a m h₁ h₂,
  scan-least h now ps true (next_min (ms_between (h p).expire_time now) m),
)

get_next_timeout-least :
    (now : ℕ) (s : Timers) → get_next_timeout_ms now s ≡ least_timeout s.heap now s.timers
unfolding get_next_timeout_ms
get_next_timeout-least now s = at s.timers
  where
    at :
        (ps : List ℕ)
        → (if is_empty ps then 1000 else scan_timeouts s.heap now ps false 1000)
          ≡ least_timeout s.heap now ps
    at [] = refl
    at (p ∷ ps) = omega (
      arith,
      scan-least s.heap now (p ∷ ps) false 1000 (omega arith) (λ (e : false ≡ false). refl),
      least_timeout-le s.heap now (p ∷ ps),
    )

least-le_until :
    (h : Heap) (now : ℕ) (ps : List ℕ) (p : ℕ)
    → In p ps
    → is_live h p ≡ true
    → least_timeout h now ps ≤ ms_until h now p
least-le_until h now [] p m l = absurd m
least-le_until h now (q ∷ ps) p m l = ground (arith, least-le_until h now ps p)

least_attained :
    (h : Heap) (now : ℕ) (ps : List ℕ)
    → (least_timeout h now ps ≡ 1000)
      ⊎ ((p : ℕ) × In p ps × (is_live h p ≡ true) × (least_timeout h now ps ≡ ms_until h now p))
least_attained h now [] = inl refl
least_attained h now (q ∷ ps) =
    elim (Bool-cases (is_live h q && leb (ms_until h now q) (least_timeout h now ps))) [
      | inl here ↦ inr (q, inl refl, ground arith, ground arith)
      | inr there ↦ elim (least_attained h now ps) [
        | inl e ↦ inl (ground (arith, least_timeout-le h now ps))
        | inr (p, m, l, e) ↦ inr (p, inr m, l, ground arith)
      ]
    ]

-- The event loop sleeps at most a second and, for every live timer that is listed, no longer than
-- the whole milliseconds until it is due, hence not past that time; and it is woken early by nothing
-- else: the value is a second or that of a live timer.
pub get_next_timeout_ms_lem :
    (now : ℕ) (s : Timers)
    → let n = get_next_timeout_ms now s in
      (n ≤ 1000)
      × ((p : ℕ)
          → In p s.timers
          → is_live s.heap p ≡ true
          → (n ≤ ms_until s.heap now p)
            × ((n ≡ 0) ⊎ (now + n * ns_per_ms ≤ (s.heap p).expire_time)))
      × ((n ≡ 1000)
          ⊎ ((p : ℕ) × In p s.timers × (is_live s.heap p ≡ true) × (n ≡ ms_until s.heap now p)))
get_next_timeout_ms_lem now s = rw (get_next_timeout-least now s) (
  least_timeout-le s.heap now s.timers,
  λ p m l. (
    least-le_until s.heap now s.timers p m l,
    sleep (least_timeout s.heap now s.timers) p (least-le_until s.heap now s.timers p m l),
  ),
  least_attained s.heap now s.timers,
)
  where
    sleep :
        (n p : ℕ)
        → n ≤ ms_until s.heap now p
        → (n ≡ 0) ⊎ (now + n * ns_per_ms ≤ (s.heap p).expire_time)
    sleep zero p h = inl refl
    sleep (suc n) p h = inr (omega arith)
