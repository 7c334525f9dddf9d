-- ===== src/Timer/Registry.antt =====
-- Which timers are listed: the operations keep the list and the flags of the timers in step.
use libfilewatch.Base.{
  ℕ, ◌≡◌, refl, ◌≢◌, ◌↔◌, inl, inr, true, List, [], ◌∷◌, In, Nodup, arith, if◌then◌else◌,
  In-erase_first, erase_first-Nodup, insert-Nodup, In-insert, nat_eq, Option, none, some,
  Bool-cases, subst, sym, ◌∙◌,
}
use libfilewatch.Timer.{
  Timers, Timer, Heap, add_timer, remove_timer, is_live, rearm, retire, sweep, call, run_expired,
  process_expired_timers,
}

-- No pointer is listed twice, none is null, and every active timer is listed.
pub record IsRegistered (s : Timers) : Type 0 where
  pub distinct : Nodup s.timers
  pub no_null : ¬ In 0 s.timers
  pub listed : (p : ℕ) → (s.heap p).active ≡ true → In p s.timers

-- To add a timer that is not null, new or listed already, keeps the list of timers and the flags
-- in step: no pointer twice, none null, and each active timer listed.
pub add_timer-IsRegistered :
    (p t now : ℕ) (s : Timers) → p ≢ 0 → IsRegistered s → IsRegistered (add_timer p t now s)
unfolding add_timer
add_timer-IsRegistered p t now s n r = record {
  distinct = insert-Nodup p s.timers r.distinct;
  no_null = λ m. ground (arith, r.no_null, In-insert 0 p s.timers);
  listed = λ q a. ground (arith, r.listed q, In-insert q p s.timers);
}

-- To remove a timer, listed or not, keeps the list of timers and the flags in step.
pub remove_timer-IsRegistered :
    (p : ℕ) (s : Timers) → IsRegistered s → IsRegistered (remove_timer p s)
unfolding remove_timer
remove_timer-IsRegistered p s r = record {
  distinct = erase_first-Nodup p s.timers r.distinct;
  no_null = λ m. ground (arith, r.no_null, In-erase_first 0 p s.timers r.distinct);
  listed = λ q a. ground (arith, r.listed q, In-erase_first q p s.timers r.distinct);
}

retire-IsRegistered : (p : ℕ) (s : Timers) → IsRegistered s → IsRegistered (retire p s)
retire-IsRegistered p s r = elim (Bool-cases (s.heap p).repeating) [
  | inl e ↦ rw e r
  | inr e ↦ rw e (record {
    distinct = erase_first-Nodup p s.timers r.distinct;
    no_null = λ m. ground (arith, r.no_null, In-erase_first 0 p s.timers r.distinct);
    listed = λ q a. ground (arith, r.listed q, In-erase_first q p s.timers r.distinct);
  })
]

-- What the first loop leaves of a timer: all but the time at which it is due.
abbrev pub SameButTime : Timer → Timer → Type 0
SameButTime t u =
    (t.callback ≡ u.callback)
    × (t.repeating ≡ u.repeating)
    × (t.active ≡ u.active)
    × (t.interval_ms ≡ u.interval_ms)

rearm-SameButTime : (h : Heap) (now p q : ℕ) → SameButTime (rearm h now p q) (h q)
rearm-SameButTime h now p q = ground arith

pub sweep-SameButTime :
    (now : ℕ) (h : Heap) (ps : List ℕ) (q : ℕ) → SameButTime ((sweep now h ps).heap q) (h q)
unfolding sweep
sweep-SameButTime now h [] q = (refl, refl, refl, refl)
sweep-SameButTime now h (p ∷ ps) q = ground (
  arith,
  sweep-SameButTime now h ps q,
  sweep-SameButTime now (rearm h now p) ps q,
  rearm-SameButTime h now p q,
)

-- The live timers stay listed, the others go.
pub In-kept :
    (now : ℕ) (h : Heap) (ps : List ℕ) (q : ℕ)
    → In q (sweep now h ps).kept ↔ (In q ps × (is_live h q ≡ true))
unfolding sweep
In-kept now h [] q = (λ m. absurd m, λ m. absurd m.0)
In-kept now h (p ∷ ps) q =
    ground
      (arith, In-kept now h ps q, In-kept now (rearm h now p) ps q, rearm-SameButTime h now p q)

pub kept-Nodup : (now : ℕ) (h : Heap) (ps : List ℕ) → Nodup ps → Nodup (sweep now h ps).kept
unfolding sweep
kept-Nodup now h [] u = tt
kept-Nodup now h (p ∷ ps) u = ground (
  arith,
  kept-Nodup now h ps u.1,
  kept-Nodup now (rearm h now p) ps u.1,
  In-kept now h ps p,
  In-kept now (rearm h now p) ps p,
)

swept : ℕ → Timers → Timers
swept now s = let w = sweep now s.heap s.timers in record s { heap = w.heap; timers = w.kept }

swept-IsRegistered : (now : ℕ) (s : Timers) → IsRegistered s → IsRegistered (swept now s)
unfolding swept
swept-IsRegistered now s r = record {
  distinct = kept-Nodup now s.heap s.timers r.distinct;
  no_null = λ m. r.no_null ((In-kept now s.heap s.timers 0).0 m).0;
  listed = λ q a.
      let active : (s.heap q).active ≡ true =
        sym ((sweep-SameButTime now s.heap s.timers q).2) ∙ a in
      let at : In q s.timers = r.listed q active in
      (In-kept now s.heap s.timers q).1
        (at, ground (arith, subst (λ x. In x s.timers) {x = q} {y = 0}, r.no_null));
}

module _ (fire : ℕ → ℕ → Timers → Timers) where
  -- The state after the round of one expired timer.
  abbrev pub fired : ℕ → Timers → Timers
  fired p s = call fire (s.heap p).callback p (retire p s)

  -- The state that the second loop leaves, without the record of the calls.
  pub run_expired_state :
      (p : ℕ) (ps : List ℕ) (s : Timers)
      → (run_expired fire (p ∷ ps) s).1 ≡ (
          if is_live s.heap p
          then (run_expired fire ps (fired p s)).1
          else (run_expired fire ps s).1)
  unfolding run_expired
  run_expired_state p ps s = ground arith

  module _ (keeps : (c p : ℕ) (s : Timers) → IsRegistered s → IsRegistered (fire c p s)) where
    call-IsRegistered :
        (o : Option ℕ) (p : ℕ) (s : Timers) → IsRegistered s → IsRegistered (call fire o p s)
    call-IsRegistered none p s r = r
    call-IsRegistered (some c) p s r = keeps c p s r

    run_expired-IsRegistered :
        (ps : List ℕ) (s : Timers) → IsRegistered s → IsRegistered (run_expired fire ps s).1
    run_expired-IsRegistered [] s r = unfold run_expired in r
    run_expired-IsRegistered (p ∷ ps) s r =
        rw (run_expired_state p ps s) (elim (Bool-cases (is_live s.heap p)) [
          | inl e ↦ rw e (
              run_expired-IsRegistered ps (fired p s)
                (call-IsRegistered (s.heap p).callback p (retire p s) (retire-IsRegistered p s r)))
          | inr e ↦ rw e (run_expired-IsRegistered ps s r)
        ])

    -- If each callback keeps the list of timers and the flags in step, with no pointer twice, none
    -- null, and each active timer listed, then so does a round of expired timers.
    pub process_expired_timers-IsRegistered :
        (now : ℕ) (s : Timers) → IsRegistered s → IsRegistered (process_expired_timers fire now s).1
    unfolding process_expired_timers swept
    process_expired_timers-IsRegistered now s r =
        run_expired-IsRegistered (sweep now s.heap s.timers).expired (swept now s)
          (swept-IsRegistered now s r)
