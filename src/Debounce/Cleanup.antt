-- ===== src/Debounce/Cleanup.antt =====
-- The clean-up of the debounce table.
use libfilewatch.Base.{
  ℕ, ◌+◌, ◌≤◌, ◌<◌, ◌≡◌, ◌⊎◌, inl, inr, none, some, arith, text_eq, Option-cases,
}
use libfilewatch.Base.Dict
use libfilewatch.Base.Dict.{lookup, Unique}
use libfilewatch.Path.{FilePath}
use libfilewatch.Event.{modify, FileEvent}
use libfilewatch.Debounce.{
  Debouncer, apply_debounce, stamp, cleanup_debounce_map, is_fresh, ms_between, debounce_expire_ms,
  debounce_cleanup_interval_ms,
}

pub cleanup-Unique :
    (now : ℕ) (d : Debouncer)
    → Unique d.debounce_map
    → Unique (cleanup_debounce_map now d).debounce_map
unfolding cleanup_debounce_map
cleanup-Unique now d u = ground (arith, Dict.retain-Unique (is_fresh now) d.debounce_map u)

-- The clean-up loses no entry but those that are older than the limit.
pub lookup-cleanup :
    (now : ℕ) (d : Debouncer) (k : FilePath)
    → Unique d.debounce_map
    → (lookup k (cleanup_debounce_map now d).debounce_map ≡ lookup k d.debounce_map)
      ⊎ ((lookup k (cleanup_debounce_map now d).debounce_map ≡ none)
          × ((t : ℕ) × (lookup k d.debounce_map ≡ some t)
              × (debounce_expire_ms < ms_between now t)))
unfolding cleanup_debounce_map
lookup-cleanup now d k u = elim (Option-cases (lookup k d.debounce_map)) [
  | inl e ↦ inl (ground (arith, Dict.lookup-retain-none (is_fresh now) k d.debounce_map))
  | inr (t, e) ↦ ground (arith, Dict.lookup-retain (is_fresh now) k d.debounce_map t u e)
]

-- Every entry was young when the table was last cleaned.
abbrev pub IsYoung : Debouncer → Type 0
IsYoung d =
    (k : FilePath) (t : ℕ)
    → lookup k d.debounce_map ≡ some t
    → ms_between d.last_debounce_cleanup t ≤ debounce_expire_ms

cleanup-IsYoung :
    (now : ℕ) (d : Debouncer)
    → Unique d.debounce_map
    → IsYoung d
    → IsYoung (cleanup_debounce_map now d)
unfolding cleanup_debounce_map
cleanup-IsYoung now d u y k t e = elim (Option-cases (lookup k d.debounce_map)) [
  | inl n ↦ ground (arith, Dict.lookup-retain-none (is_fresh now) k d.debounce_map n)
  | inr (s, m) ↦ ground (arith, y k t, Dict.lookup-retain (is_fresh now) k d.debounce_map s u m)
]

cleanup_recent :
    (now : ℕ) (d : Debouncer)
    → ms_between now (cleanup_debounce_map now d).last_debounce_cleanup
      < debounce_cleanup_interval_ms
unfolding cleanup_debounce_map
cleanup_recent now d = ground arith

cleanup_not_later :
    (now : ℕ) (d : Debouncer)
    → d.last_debounce_cleanup ≤ now
    → (cleanup_debounce_map now d).last_debounce_cleanup ≤ now
unfolding cleanup_debounce_map
cleanup_not_later now d h = ground arith

stamp-IsYoung :
    (p : FilePath) (now : ℕ) (d : Debouncer)
    → d.last_debounce_cleanup ≤ now
    → IsYoung d
    → IsYoung (stamp p now d)
stamp-IsYoung p now d h y k t e = ground (arith, y k t, Dict.lookup-insert p k now d.debounce_map)

apply_debounce_stamps :
    (ev : FileEvent) (now : ℕ) (d : Debouncer)
    → ev.event_type ≡ modify
    → (apply_debounce ev now d).0 ≡ stamp ev.path now (cleanup_debounce_map now d)
unfolding apply_debounce
apply_debounce_stamps ev now d h =
    elim (Option-cases (lookup ev.path (cleanup_debounce_map now d).debounce_map)) [
      | inl e ↦ ground arith
      | inr (t, e) ↦ ground arith
    ]

-- If no path stands twice, the clock is not behind the last clean-up and the table is young, so
-- that no entry was over the limit at the last clean-up, then a modification leaves it young, and
-- with no entry older than the clean-up interval and the limit together.
pub debounce_map_bounded :
    (ev : FileEvent) (now : ℕ) (d : Debouncer)
    → ev.event_type ≡ modify
    → d.last_debounce_cleanup ≤ now
    → Unique d.debounce_map
    → IsYoung d
    → let d' = (apply_debounce ev now d).0 in
      IsYoung d'
      × ((k : FilePath) (t : ℕ)
          → lookup k d'.debounce_map ≡ some t
          → ms_between now t ≤ debounce_expire_ms + debounce_cleanup_interval_ms)
debounce_map_bounded ev now d m h u y =
    rw (apply_debounce_stamps ev now d m)
      (young, λ k t e. omega (arith, young k t e, cleanup_recent now d))
  where
    young : IsYoung (stamp ev.path now (cleanup_debounce_map now d))
    young =
        stamp-IsYoung ev.path now (cleanup_debounce_map now d) (cleanup_not_later now d h)
          (cleanup-IsYoung now d u y)
