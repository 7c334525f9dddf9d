-- ===== src/Debounce/History.antt =====
-- Debouncing against the history of events: the table, with its clean-ups, is no more than a memory
-- of each path's last modification.
use libfilewatch.Base.{
  ℕ, ◌≤◌, ◌<◌, ◌≡◌, refl, ◌⊎◌, inl, inr, Bool, true, false, List, [], ◌∷◌, map, replicate, length,
  arith, if◌then◌else◌, ◌==◌, text_eq, ltb, ◌&&◌, Option, none, some, Option-cases, Bool-cases, ap,
  ◌∙◌,
}
use libfilewatch.Base.Dict
use libfilewatch.Base.Dict.{lookup, Unique}
use libfilewatch.Path.{FilePath}
use libfilewatch.Event.{modify, file, FileEvent, file_event, same_type, same_type_iff}
use libfilewatch.Debounce.{
  Debouncer, new_debouncer, cleanup_debounce_map, stamp, apply_debounce, run_debounce, ms_between,
  debounce_time, debounce_expire_ms,
}
use libfilewatch.Debounce.Cleanup.{cleanup-Unique, lookup-cleanup}

-- The time of the last modification of a path; the latest event stands first.
abbrev pub last_modified : FilePath → List (ℕ × FileEvent) → Option ℕ
last_modified p [] = none
last_modified p ((t, ev) ∷ es) =
    if same_type ev.event_type modify && p == ev.path then some t else last_modified p es

-- An event is dropped if it is a modification of a path that was modified less than the debounce
-- time before, be that event dropped or not.
abbrev pub is_repeated : List (ℕ × FileEvent) → ℕ → FileEvent → Bool
is_repeated past now ev = same_type ev.event_type modify && elim (last_modified ev.path past) [
  | none ↦ false
  | some last ↦ ltb (ms_between now last) debounce_time
]

abbrev pub verdicts : List (ℕ × FileEvent) → List (ℕ × FileEvent) → List Bool
verdicts past [] = []
verdicts past ((now, ev) ∷ es) = is_repeated past now ev ∷ verdicts ((now, ev) ∷ past) es

-- The clock does not go back.
abbrev pub IsAscending : ℕ → List (ℕ × FileEvent) → Type 0
IsAscending t [] = Unit {0}
IsAscending t ((now, _) ∷ es) = (t ≤ now) × IsAscending now es

-- The table knows the last modification of each path, unless that is too old to matter.
abbrev pub Agrees : ℕ → Debouncer → List (ℕ × FileEvent) → Type 0
Agrees now d past =
    (k : FilePath)
    → (lookup k d.debounce_map ≡ last_modified k past)
      ⊎ ((lookup k d.debounce_map ≡ none)
          × ((t : ℕ) × (last_modified k past ≡ some t) × (debounce_expire_ms < ms_between now t)))

cleanup-Agrees :
    (t now : ℕ) (d : Debouncer) (past : List (ℕ × FileEvent))
    → t ≤ now
    → Unique d.debounce_map
    → Agrees t d past
    → Agrees now (cleanup_debounce_map now d) past
cleanup-Agrees t now d past h u a k = ground (arith, a k, lookup-cleanup now d k u)

pub later-Agrees :
    (t now : ℕ) (d : Debouncer) (past : List (ℕ × FileEvent))
    → t ≤ now
    → Agrees t d past
    → Agrees now d past
later-Agrees t now d past h a k = ground (arith, a k)

stamp-Agrees :
    (now : ℕ) (d : Debouncer) (past : List (ℕ × FileEvent)) (ev : FileEvent)
    → ev.event_type ≡ modify
    → Agrees now d past
    → Agrees now (stamp ev.path now d) ((now, ev) ∷ past)
stamp-Agrees now d past ev m a k =
    ground (arith, a k, Dict.lookup-insert ev.path k now d.debounce_map)

other-Agrees :
    (t now : ℕ) (d : Debouncer) (past : List (ℕ × FileEvent)) (ev : FileEvent)
    → t ≤ now
    → same_type ev.event_type modify ≡ false
    → Agrees t d past
    → Agrees now d ((now, ev) ∷ past)
other-Agrees t now d past ev h m a k = ground (arith, a k)

verdict_modify :
    (ev : FileEvent) (now : ℕ) (d : Debouncer) (past : List (ℕ × FileEvent))
    → same_type ev.event_type modify ≡ true
    → Agrees now (cleanup_debounce_map now d) past
    → ((apply_debounce ev now d).1 ≡ is_repeated past now ev)
      × ((apply_debounce ev now d).0 ≡ stamp ev.path now (cleanup_debounce_map now d))
unfolding apply_debounce
verdict_modify ev now d past m a =
    elim (Option-cases (lookup ev.path (cleanup_debounce_map now d).debounce_map)) [
      | inl e ↦ ground (arith, a ev.path)
      | inr (t, e) ↦ ground (arith, a ev.path)
    ]

-- What one event leaves: the verdict of the history, and a table that agrees with it.
abbrev pub Follows : ℕ → FileEvent → Debouncer → List (ℕ × FileEvent) → Type 0
Follows now ev d past =
    ((apply_debounce ev now d).1 ≡ is_repeated past now ev)
    × Agrees now (apply_debounce ev now d).0 ((now, ev) ∷ past)
    × Unique (apply_debounce ev now d).0.debounce_map

apply_debounce-other :
    (ev : FileEvent) (now : ℕ) (d : Debouncer)
    → same_type ev.event_type modify ≡ false
    → apply_debounce ev now d ≡ (d, false)
unfolding apply_debounce
apply_debounce-other ev now d h = rw h

pub step-Follows :
    (t now : ℕ) (ev : FileEvent) (d : Debouncer) (past : List (ℕ × FileEvent))
    → t ≤ now
    → Unique d.debounce_map
    → Agrees t d past
    → Follows now ev d past
step-Follows t now ev d past h u a = elim (Bool-cases (same_type ev.event_type modify)) [
  | inr other ↦
      rw (apply_debounce-other ev now d other)
        (ground arith, other-Agrees t now d past ev h other a, u)
  | inl m ↦
      let clean : Agrees now (cleanup_debounce_map now d) past =
        cleanup-Agrees t now d past h u a in
      let (v, s) = verdict_modify ev now d past m clean in
      (
        v,
        rw s
            (stamp-Agrees now (cleanup_debounce_map now d) past ev ((same_type_iff _ _).0 m) clean),
        rw s (
            Dict.insert-Unique ev.path now (cleanup_debounce_map now d).debounce_map
              (cleanup-Unique now d u)),
      )
]

run-verdicts :
    (t : ℕ) (es : List (ℕ × FileEvent)) (d : Debouncer) (past : List (ℕ × FileEvent))
    → IsAscending t es
    → Unique d.debounce_map
    → Agrees t d past
    → run_debounce es d ≡ verdicts past es
unfolding run_debounce
run-verdicts t [] d past h u a = refl
run-verdicts t ((now, ev) ∷ es) d past h u a =
    let f : Follows now ev d past = step-Follows t now ev d past h.0 u a in
    cc (f.0, run-verdicts now es (apply_debounce ev now d).0 ((now, ev) ∷ past) h.1 f.2 f.1)

-- For any run of events on a clock that does not go back, started on a new table, an event is
-- dropped exactly when it is a modification of a path whose last modification, dropped or not, came
-- less than 50 ms before; the clean-ups of the table change no verdict.
pub run_debounce-verdicts :
    (t : ℕ) (es : List (ℕ × FileEvent))
    → IsAscending t es
    → run_debounce es (new_debouncer t) ≡ verdicts [] es
run_debounce-verdicts t es h = run-verdicts t es (new_debouncer t) [] h tt (λ k. inl refl)

-- Modifications of one path.
abbrev pub modifications : FilePath → List ℕ → List (ℕ × FileEvent)
modifications p = map (λ now. (now, file_event modify p file))

-- Each time is less than the debounce time after the one before.
abbrev pub IsBurst : ℕ → List ℕ → Type 0
IsBurst t [] = Unit {0}
IsBurst t (now ∷ ts) = (t ≤ now) × (ms_between now t < debounce_time) × IsBurst now ts

burst_repeats :
    (p : FilePath) (t : ℕ) (ts : List ℕ) (past : List (ℕ × FileEvent))
    → IsBurst t ts
    → last_modified p past ≡ some t
    → verdicts past (modifications p ts) ≡ replicate (length ts) true
burst_repeats p t [] past h e = refl
burst_repeats p t (now ∷ ts) past h e =
    ground (arith, burst_repeats p now ts ((now, file_event modify p file) ∷ past) h.2)

IsBurst-IsAscending :
    (p : FilePath) (t : ℕ) (ts : List ℕ) → IsBurst t ts → IsAscending t (modifications p ts)
IsBurst-IsAscending p t [] h = tt
IsBurst-IsAscending p t (now ∷ ts) h = (h.0, IsBurst-IsAscending p now ts h.2)

-- On a new table, of modifications of one path each of which comes less than 50 ms after the one
-- before, only the first is let through, however many they are.
pub burst_reports_first :
    (p : FilePath) (t : ℕ) (ts : List ℕ)
    → IsBurst t ts
    → run_debounce (modifications p (t ∷ ts)) (new_debouncer t) ≡ false ∷ replicate (length ts) true
burst_reports_first p t ts h =
    run_debounce-verdicts t (modifications p (t ∷ ts)) (omega arith, IsBurst-IsAscending p t ts h)
    ∙ ap (◌∷◌ false) (burst_repeats p t ts ((t, file_event modify p file) ∷ []) h (ground arith))
