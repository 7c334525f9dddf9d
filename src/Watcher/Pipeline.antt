-- ===== src/Watcher/Pipeline.antt =====
-- The way of a run of events through the filter, the debouncing and the watches.
use libfilewatch.Base.{
  ℕ, ◌≡◌, refl, ap, ◌∙◌, inl, not, List, [], ◌∷◌, if◌then◌else◌, text_eq, arith,
}
use libfilewatch.Base.Dict.{Unique}
use libfilewatch.Event.{FileEvent}
use libfilewatch.Filter.{Regex, passes}
use libfilewatch.Debounce.{Debouncer, new_debouncer, apply_debounce}
use libfilewatch.Debounce.History.{is_repeated, IsAscending, Agrees, step-Follows, later-Agrees}
use libfilewatch.Watcher.{Platform, Watcher, dispatch_event, process_events}

module _ {X : Regex} {P : Platform} {W : Type 0} where
  -- The debouncing without its table: `past` are the events that passed the filter, the latest first.
  -- An event is dispatched if it passes and is no modification that repeats one of these.
  abbrev pub reference : List (ℕ × FileEvent) → List (ℕ × FileEvent) → Watcher X P W → W → W
  reference past [] s w = w
  reference past ((now, ev) ∷ es) s w =
      let passed = (now, ev) ∷ past in
      let skip = reference past es s w in
      let drop = reference passed es s w in
      let deliver = reference passed es s (dispatch_event ev s w) in
      if not (passes s.filter ev) then skip else if is_repeated past now ev then drop else deliver

  with_debouncer : Watcher X P W → Debouncer → Watcher X P W
  with_debouncer s d = record s { debouncer = d }

  process_cons :
      (now : ℕ) (ev : FileEvent) (es : List (ℕ × FileEvent)) (s : Watcher X P W) (d : Debouncer)
      (w : W)
      → let d' = (apply_debounce ev now d).0 in
        (process_events ((now, ev) ∷ es) (with_debouncer s d) w).1 ≡ (
          if not (passes s.filter ev)
          then (process_events es (with_debouncer s d) w).1
          else if (apply_debounce ev now d).1
          then (process_events es (with_debouncer s d') w).1
          else (process_events es (with_debouncer s d') (dispatch_event ev s w)).1)
  unfolding process_events with_debouncer dispatch_event
  process_cons now ev es s d w = ground arith

  run-reference :
      (t : ℕ) (es past : List (ℕ × FileEvent)) (s : Watcher X P W) (d : Debouncer) (w : W)
      → IsAscending t es
      → Unique d.debounce_map
      → Agrees t d past
      → (process_events es (with_debouncer s d) w).1 ≡ reference past es s w
  run-reference t [] past s d w h u a = unfold process_events in refl
  run-reference t ((now, ev) ∷ es) past s d w h u a =
      let (verdict, agrees, unique) = step-Follows t now ev d past h.0 u a in
      let d' = (apply_debounce ev now d).0 in
      rw (
        process_cons now ev es s d w,
        verdict,
        run-reference now es past s d w h.1 u (later-Agrees t now d past h.0 a),
        run-reference now es ((now, ev) ∷ past) s d' w h.1 unique agrees,
        run-reference now es ((now, ev) ∷ past) s d' (dispatch_event ev s w) h.1 unique agrees,
      )

  -- For a run of events on a clock that does not go back, on a watcher with a new debounce table, the
  -- client sees what the reference delivers: in order, each event that passes the filter and is no
  -- modification of a path whose last modification that passed came less than 50 ms before.
  pub process_events-reference :
      (t : ℕ) (es : List (ℕ × FileEvent)) (s : Watcher X P W) (w : W)
      → s.debouncer ≡ new_debouncer t
      → IsAscending t es
      → (process_events es s w).1 ≡ reference [] es s w
  unfolding with_debouncer
  process_events-reference t es s w e h =
      ap (λ d. (process_events es (with_debouncer s d) w).1) e
      ∙ run-reference t es [] s (new_debouncer t) w h tt (λ k. inl refl)
