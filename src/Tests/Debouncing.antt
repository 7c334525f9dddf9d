-- ===== src/Tests/Debouncing.antt =====
-- The debounce (src/FileWatcher.cpp) on concrete input.
use libfilewatch.Base.{
  ℕ, ◌≡◌, ◌≤◌, ◌+◌, refl, true, false, List, [], ◌∷◌, length, replicate, some, nat_eq, text_eq,
  arith,
}
use libfilewatch.Base.Dict.{lookup}
use libfilewatch.Path.{FilePath}
use libfilewatch.Event.{FileEvent, modify, create, file, file_event}
use libfilewatch.Debounce.{
  new_debouncer, ms_between, debounce_expire_ms, debounce_cleanup_interval_ms, run_debounce,
  apply_debounce,
}
use libfilewatch.Debounce.Cleanup.{IsYoung, debounce_map_bounded}
use libfilewatch.Debounce.History.{
  verdicts, modifications, run_debounce-verdicts, burst_reports_first,
}
use libfilewatch.Tests.Instances.{path_a, path_b}

abbrev saved : FileEvent
saved = file_event modify path_a file

-- Two modifications 10 ms apart, a creation, and a modification 60 ms later.
abbrev saves : List (ℕ × FileEvent)
saves =
    (0, saved)
    ∷ (10000000, saved)
    ∷ (20000000, file_event create path_b file)
    ∷ (70000000, saved)
    ∷ []

run_debounce-verdicts_example : run_debounce saves (new_debouncer 0) ≡ verdicts [] saves
run_debounce-verdicts_example = run_debounce-verdicts 0 saves (ground arith)

abbrev later_saves : List ℕ
later_saves = 40000000 ∷ 80000000 ∷ []

burst_reports_first_example :
    run_debounce (modifications path_a (0 ∷ later_saves)) (new_debouncer 0)
    ≡ false ∷ replicate (length later_saves) true
burst_reports_first_example = burst_reports_first path_a 0 later_saves (ground arith)

debounce_map_bounded_example :
    IsYoung (apply_debounce saved 5 (new_debouncer 0)).0
    × ((k : FilePath) (t : ℕ)
        → lookup k (apply_debounce saved 5 (new_debouncer 0)).0.debounce_map ≡ some t
        → ms_between 5 t ≤ debounce_expire_ms + debounce_cleanup_interval_ms)
debounce_map_bounded_example =
    debounce_map_bounded saved 5 (new_debouncer 0) refl (ground arith) tt (λ k t h. ground arith)
