-- ===== src/Timer/Swept.antt =====
-- The first loop of `processExpiredTimers` in full.
use libfilewatch.Base.{
  ℕ, ◌+◌, ◌*◌, ◌≡◌, refl, subst, inl, inr, Bool, true, false, not, ◌&&◌, List, [], ◌∷◌, In, Nodup,
  arith, if◌then◌else◌, keep, ℕ_discrete, ==_iff, contains, contains_iff, ◌==◌, nat_eq, none, some,
}
use libfilewatch.Debounce.{ns_per_ms}
use libfilewatch.Timer.{Timers, Timer, Heap, is_live, is_due, rearm, sweep}
use libfilewatch.Timer.Registry.{sweep-SameButTime}
use libfilewatch.Timer.Expiry.{In-expired, rearm_other}

abbrev pub calls_back : Timer → Bool
calls_back t = elim t.callback [ none ↦ false | some _ ↦ true ]

abbrev pub has_callback : Heap → ℕ → Bool
has_callback h p = calls_back (h p)

abbrev pub is_single : Heap → ℕ → Bool
is_single h p = not (h p).repeating

pub keep_ext :
    (f g : ℕ → Bool) (xs : List ℕ) → ((x : ℕ) → In x xs → f x ≡ g x) → keep f xs ≡ keep g xs
keep_ext f g [] h = refl
keep_ext f g (x ∷ xs) h = ground (arith, h x (inl refl), keep_ext f g xs (λ y m. h y (inr m)))

-- The due timers, in the order of the list.
pub expired-keep :
    (now : ℕ) (h : Heap) (ps : List ℕ)
    → Nodup ps
    → (sweep now h ps).expired ≡ keep (λ p. is_live h p && is_due h now p) ps
unfolding sweep
expired-keep now h [] u = refl
expired-keep now h (p ∷ ps) u = ground (
  arith,
  expired-keep now h ps u.1,
  expired-keep now (rearm h now p) ps u.1,
  keep_ext (λ q. is_live (rearm h now p) q && is_due (rearm h now p) now q)
      (λ q. is_live h q && is_due h now q) ps
      (λ q m. rw (rearm_other h now p q (λ e. u.0 (subst (λ x. In x ps) e m)))),
)

-- A repeating timer that is set anew at `now`.
abbrev pub renewed : ℕ → Timer → Timer
renewed now t =
    if t.repeating then record t { expire_time = now + t.interval_ms * ns_per_ms } else t

unfoldable pub expires : ℕ → Heap → ℕ → Bool
expires now h p = is_live h p && is_due h now p

expires_cong : (now : ℕ) (g h : Heap) (q : ℕ) → g q ≡ h q → expires now g q ≡ expires now h q
unfolding expires
expires_cong now g h q e = rw e

sweep_heap_cons :
    (now : ℕ) (h : Heap) (p : ℕ) (ps : List ℕ) (q : ℕ)
    → (sweep now h (p ∷ ps)).heap q
      ≡ (if expires now h p then (sweep now (rearm h now p) ps).heap q else (sweep now h ps).heap q)
unfolding sweep expires
sweep_heap_cons now h p ps q = ground arith

rearm_self : (h : Heap) (now p : ℕ) → rearm h now p p ≡ renewed now (h p)
rearm_self h now p = ground arith

if_same {ℓ} : {A : Type ℓ} (b : Bool) (x : A) → (if b then x else x) ≡ x
if_same true x = refl
if_same false x = refl

-- The heap behind the first loop: the repeating timers that are due are set anew.
pub sweep_heap :
    (now : ℕ) (h : Heap) (ps : List ℕ) (q : ℕ)
    → Nodup ps
    → (sweep now h ps).heap q
      ≡ (if contains ps q && expires now h q then renewed now (h q) else h q)
sweep_heap now h [] q u = unfold sweep in refl
sweep_heap now h (p ∷ ps) q u =
    go (sweep_heap now (rearm h now p) ps q u.1) (sweep_heap now h ps q u.1) (ℕ_discrete q p)
  where
    go :
        ((sweep now (rearm h now p) ps).heap q ≡ (
          if contains ps q && expires now (rearm h now p) q
          then renewed now (rearm h now p q)
          else rearm h now p q))
        → ((sweep now h ps).heap q
            ≡ (if contains ps q && expires now h q then renewed now (h q) else h q))
        → Dec (q ≡ p)
        → (sweep now h (p ∷ ps)).heap q
          ≡ (if contains (p ∷ ps) q && expires now h q then renewed now (h q) else h q)
    go a b (yes e) =
        let fresh : contains ps q ≡ false =
          ground (arith, contains_iff ps q, subst (λ x. In x ps) e) in
        let same : (q == p) ≡ true = (==_iff q p).1 e in
        rw (sweep_heap_cons now h p ps q, a, b, fresh, same, ← e, rearm_self h now q) refl
    go a b (no n) =
        let other : (q == p) ≡ false = ground arith in
        rw
          (
            sweep_heap_cons now h p ps q,
            a,
            b,
            other,
            rearm_other h now p q n,
            expires_cong now (rearm h now p) h q (rearm_other h now p q n),
          )
          (if_same (expires now h p) _)

unfoldable pub swept : ℕ → Timers → Timers
swept now s = record s {
  heap = (sweep now s.heap s.timers).heap;
  timers = (sweep now s.heap s.timers).kept;
}

pub expired_live :
    (now : ℕ) (s : Timers) (q : ℕ)
    → Nodup s.timers
    → In q (sweep now s.heap s.timers).expired
    → is_live (sweep now s.heap s.timers).heap q ≡ true
expired_live now s q u m =
    ground (arith, In-expired now s.heap s.timers q u, sweep-SameButTime now s.heap s.timers q)

pub contains_expired :
    (now : ℕ) (s : Timers) (q : ℕ)
    → Nodup s.timers
    → contains (sweep now s.heap s.timers).expired q ≡ (contains s.timers q && expires now s.heap q)
unfolding expires
contains_expired now s q u = ground (
  arith,
  contains_iff (sweep now s.heap s.timers).expired q,
  contains_iff s.timers q,
  In-expired now s.heap s.timers q u,
)

-- A timer behind the round in which it expires.
abbrev pub spent : ℕ → Timer → Timer
spent now t = if t.repeating then renewed now t else record t { active = false }

pub expires-is_live :
    (now : ℕ) (s : Timers) (q : ℕ)
    → (contains s.timers q && expires now s.heap q) ≡ true
    → is_live s.heap q ≡ true
unfolding expires
expires-is_live now s q e = ground arith

pub after_run :
    (b : Bool) (now q : ℕ) (g h : Heap)
    → (b ≡ true → is_live h q ≡ true)
    → g q ≡ (if b then renewed now (h q) else h q)
    → (if b && (is_live g q && is_single g q) then record (g q) { active = false } else g q)
      ≡ (if b then spent now (h q) else h q)
after_run true now q g h l e = let live = l refl in ground arith
after_run false now q g h l e = e
