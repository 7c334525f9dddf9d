-- ===== src/Timer/Quiet.antt =====
-- A round of `processExpiredTimers` whose callbacks leave the timers alone, in full.
use libfilewatch.Base.{
  ℕ, ◌≡◌, refl, ap, ◌∙◌, subst, ◌≢◌, ◌↔◌, inl, inr, true, false, ◌&&◌, List, [], ◌∷◌, In, Nodup,
  arith, if◌then◌else◌, keep, contains, contains_iff, In-erase_first, erase_first-Nodup, nat_eq,
  Option, none, some,
}
use libfilewatch.Timer.{
  Timers, is_live, is_due, retire, sweep, call, run_expired, process_expired_timers,
}
use libfilewatch.Timer.Registry.{sweep-SameButTime, In-kept, kept-Nodup, fired, run_expired_state}
use libfilewatch.Timer.Expiry.{expired-Nodup}
use libfilewatch.Timer.Swept.{
  calls_back, has_callback, is_single, keep_ext, expired-keep, expires, sweep_heap, swept,
  expired_live, contains_expired, spent, expires-is_live, after_run,
}

module _ (fire : ℕ → ℕ → Timers → Timers) (quiet : (c p : ℕ) (s : Timers) → fire c p s ≡ s) where
  call_quiet : (o : Option ℕ) (p : ℕ) (s : Timers) → call fire o p s ≡ s
  call_quiet none p s = refl
  call_quiet (some c) p s = quiet c p s

  fired_quiet : (p : ℕ) (s : Timers) → fired fire p s ≡ retire p s
  fired_quiet p s = call_quiet (s.heap p).callback p (retire p s)

  -- The heap behind the second loop: the single timers among the expired are off.
  run_heap :
      (ps : List ℕ) (s : Timers) (q : ℕ)
      → Nodup ps
      → (run_expired fire ps s).1.heap q ≡ (
          if contains ps q && (is_live s.heap q && is_single s.heap q)
          then record (s.heap q) { active = false }
          else s.heap q)
  run_heap [] s q u = unfold run_expired in refl
  run_heap (p ∷ ps) s q u = ground (
    arith,
    run_expired_state fire p ps s,
    ap (λ (t : Timers). (run_expired fire ps t).1.heap q) (fired_quiet p s),
    run_heap ps s q u.1,
    run_heap ps (retire p s) q u.1,
    contains_iff ps p,
  )

  run_timers :
      (ps : List ℕ) (s : Timers) (q : ℕ)
      → Nodup ps
      → Nodup s.timers
      → In q (run_expired fire ps s).1.timers
        ↔ (In q s.timers × ((contains ps q && (is_live s.heap q && is_single s.heap q)) ≡ false))
  run_timers [] s q u v = unfold run_expired in (λ m. (m, refl), λ m. m.0)
  run_timers (p ∷ ps) s q u v = ground (
    arith,
    run_expired_state fire p ps s,
    ap (λ (t : Timers). (run_expired fire ps t).1.timers) (fired_quiet p s),
    run_timers ps s q u.1 v,
    run_timers ps (retire p s) q u.1,
    erase_first-Nodup p s.timers v,
    In-erase_first q p s.timers v,
    contains_iff ps p,
  )

  run_calls_cons :
      (p : ℕ) (ps : List ℕ) (s : Timers)
      → is_live s.heap p ≡ true
      → (run_expired fire (p ∷ ps) s).0 ≡ (
          if has_callback s.heap p
          then p ∷ (run_expired fire ps (fired fire p s)).0
          else (run_expired fire ps (fired fire p s)).0)
  unfolding run_expired
  run_calls_cons p ps s l = ground arith

  retire_other : (p q : ℕ) (s : Timers) → q ≢ p → (retire p s).heap q ≡ s.heap q
  retire_other p q s n = ground arith

  -- The second loop calls all expired timers that have a callback, in order.
  run_calls :
      (ps : List ℕ) (s : Timers)
      → Nodup ps
      → ((q : ℕ) → In q ps → is_live s.heap q ≡ true)
      → (run_expired fire ps s).0 ≡ keep (has_callback s.heap) ps
  run_calls [] s u l = unfold run_expired in refl
  run_calls (p ∷ ps) s u l = rw (
    run_calls_cons p ps s (l p (inl refl)),
    fired_quiet p s,
    run_calls ps (retire p s) u.1
        (λ q m. rw (retire_other p q s (λ e. u.0 (subst (λ x. In x ps) e m))) (l q (inr m))),
    keep_ext (has_callback (retire p s).heap) (has_callback s.heap) ps
        (λ q m. ap calls_back (retire_other p q s (λ e. u.0 (subst (λ x. In x ps) e m)))),
  )

  round_calls :
      (now : ℕ) (s : Timers)
      → Nodup s.timers
      → (process_expired_timers fire now s).0
        ≡ keep (has_callback s.heap) (keep (λ p. is_live s.heap p && is_due s.heap now p) s.timers)
  unfolding process_expired_timers swept
  round_calls now s u =
      run_calls (sweep now s.heap s.timers).expired (swept now s)
        (expired-Nodup now s.heap s.timers u) (λ q m. expired_live now s q u m)
      ∙ keep_ext (has_callback (sweep now s.heap s.timers).heap) (has_callback s.heap)
          (sweep now s.heap s.timers).expired
          (λ q m. rw ((sweep-SameButTime now s.heap s.timers q).0, calls_back))
      ∙ ap (keep (has_callback s.heap)) (expired-keep now s.heap s.timers u)

  round_heap :
      (now : ℕ) (s : Timers) (q : ℕ)
      → Nodup s.timers
      → (process_expired_timers fire now s).1.heap q
        ≡ (if contains s.timers q && expires now s.heap q then spent now (s.heap q) else s.heap q)
  unfolding process_expired_timers swept
  round_heap now s q u =
      let w = sweep now s.heap s.timers in
      run_heap w.expired (swept now s) q (expired-Nodup now s.heap s.timers u)
      ∙ ap
          (λ b.
            if b && (is_live w.heap q && is_single w.heap q)
            then record (w.heap q) { active = false }
            else w.heap q)
          (contains_expired now s q u)
      ∙ after_run (contains s.timers q && expires now s.heap q) now q w.heap s.heap
          (expires-is_live now s q) (sweep_heap now s.heap s.timers q u)

  round_timers :
      (now : ℕ) (s : Timers) (q : ℕ)
      → Nodup s.timers
      → In q (process_expired_timers fire now s).1.timers ↔ (
          In q s.timers
          × (is_live s.heap q ≡ true)
          × ((is_due s.heap now q && is_single s.heap q) ≡ false))
  unfolding process_expired_timers swept expires
  round_timers now s q u = ground (
    arith,
    run_timers (sweep now s.heap s.timers).expired (swept now s) q
        (expired-Nodup now s.heap s.timers u) (kept-Nodup now s.heap s.timers u),
    contains_expired now s q u,
    In-kept now s.heap s.timers q,
    contains_iff s.timers q,
    sweep-SameButTime now s.heap s.timers q,
  )

  -- If the callbacks leave the timers alone and no pointer is listed twice, a round calls exactly the
  -- listed, active and due timers that have a callback, in the order of the list. Each of these, with
  -- a callback or not, is afterwards due one interval from now if it repeats and off if it does not;
  -- no other timer changes. Listed are then the active timers but for the single ones that were due.
  pub quiet_round :
      (now : ℕ) (s : Timers)
      → Nodup s.timers
      → let r = process_expired_timers fire now s in
        (r.0
          ≡ keep
              (has_callback s.heap)
              (keep (λ p. is_live s.heap p && is_due s.heap now p) s.timers))
        × ((q : ℕ)
            → r.1.heap q ≡ (
                if contains s.timers q && (is_live s.heap q && is_due s.heap now q)
                then spent now (s.heap q)
                else s.heap q))
        × ((q : ℕ)
            → In q r.1.timers ↔ (
                In q s.timers
                × (is_live s.heap q ≡ true)
                × ((is_due s.heap now q && is_single s.heap q) ≡ false)))
  unfolding expires
  quiet_round now s u =
      (round_calls now s u, λ q. round_heap now s q u, λ q. round_timers now s q u)
