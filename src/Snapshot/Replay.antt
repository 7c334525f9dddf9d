-- ===== src/Snapshot/Replay.antt =====
-- The events of a difference of snapshots, played on the entries of the old one.
use libfilewatch.Base.{
  ◌≡◌, refl, ap, ◌∙◌, ◌⊎◌, inl, inr, Bool, false, not, ◌&&◌, ◌||◌, List, [], ◌∷◌, ◌++◌, map, any,
  ◌==◌, nat_eq, text_eq, arith,
}
use libfilewatch.Base.Dict.{has_key}
use libfilewatch.Path.{FilePath}
use libfilewatch.Event.{create, modify, delete, rename, file, FileEvent, file_event}
use libfilewatch.Snapshot.{
  DirectChildSnapshot, Snapshot, unmatched, created_event, deleted_event, apart_events,
  entry_events, changed_events, diff_directory_snapshot,
}

-- What an event says about which paths there are.
abbrev pub after_event : FileEvent → (FilePath → Bool) → FilePath → Bool
after_event ev there p = elim ev.event_type [
  | create ↦ p == ev.path || there p
  | delete ↦ not (p == ev.path) && there p
  | rename ↦ p == ev.path || not (p == ev.old_path) && there p
  | modify ↦ there p
]

abbrev pub replay : List FileEvent → (FilePath → Bool) → FilePath → Bool
replay [] there = there
replay (ev ∷ evs) there = replay evs (after_event ev there)

abbrev named : FilePath → Snapshot → Bool
named p es = any (λ e. p == e.0) es

named-unmatched :
    (p : FilePath) (here there : Snapshot)
    → named p (unmatched here there) ≡ (has_key p here && not (has_key p there))
named-unmatched p [] there = refl
named-unmatched p ((q, c) ∷ here) there = ground (arith, named-unmatched p here there)

replay-append :
    (xs ys : List FileEvent) (there : FilePath → Bool)
    → replay (xs ++ ys) there ≡ replay ys (replay xs there)
replay-append [] ys there = refl
replay-append (x ∷ xs) ys there = replay-append xs ys (after_event x there)

replay-created :
    (es : Snapshot) (there : FilePath → Bool) (p : FilePath)
    → replay (map created_event es) there p ≡ (named p es || there p)
replay-created [] there p = refl
replay-created (e ∷ es) there p =
    ground (arith, replay-created es (after_event (created_event e) there) p)

replay-deleted :
    (es : Snapshot) (there : FilePath → Bool) (p : FilePath)
    → replay (map deleted_event es) there p ≡ (not (named p es) && there p)
replay-deleted [] there p = refl
replay-deleted (e ∷ es) there p =
    ground (arith, replay-deleted es (after_event (deleted_event e) there) p)

changed_cons :
    (old new : Snapshot) (q : FilePath) (c : DirectChildSnapshot)
    → let rest = changed_events old new in
      (changed_events old ((q, c) ∷ new) ≡ rest)
      ⊎ (changed_events old ((q, c) ∷ new) ≡ file_event modify q file ∷ rest)
unfolding changed_events
changed_cons old new q c = ground arith

replay-changed :
    (old new : Snapshot) (there : FilePath → Bool) (p : FilePath)
    → replay (changed_events old new) there p ≡ there p
replay-changed old [] there p = unfold changed_events in refl
replay-changed old ((q, c) ∷ new) there p = elim (changed_cons old new q c) [
  | inl e ↦ ap (λ es. replay es there p) e ∙ replay-changed old new there p
  | inr e ↦ ap (λ es. replay es there p) e ∙ replay-changed old new there p
]

replay-apart :
    (cs ds : Snapshot) (there : FilePath → Bool) (p : FilePath)
    → (named p cs && named p ds) ≡ false
    → replay (apart_events cs ds) there p ≡ (named p cs || not (named p ds) && there p)
replay-apart cs ds there p n = ground (
  arith,
  ap (λ t. t p) (replay-append (map created_event cs) (map deleted_event ds) there),
  replay-deleted ds (replay (map created_event cs) there) p,
  replay-created cs there p,
)

replay-entry :
    (cs ds : Snapshot) (there : FilePath → Bool) (p : FilePath)
    → (named p cs && named p ds) ≡ false
    → replay (entry_events cs ds) there p ≡ (named p cs || not (named p ds) && there p)
unfolding entry_events
replay-entry ((q, c) ∷ []) ((r, d) ∷ []) there p n =
    ground (arith, replay-apart ((q, c) ∷ []) ((r, d) ∷ []) there p n)
replay-entry [] ds there p n = replay-apart [] ds there p n
replay-entry (e ∷ []) [] there p n = replay-apart (e ∷ []) [] there p n
replay-entry (e ∷ []) (d ∷ d' ∷ ds) there p n = replay-apart (e ∷ []) (d ∷ d' ∷ ds) there p n
replay-entry (e ∷ e' ∷ es) ds there p n = replay-apart (e ∷ e' ∷ es) ds there p n

-- The events of a difference lead from the old snapshot to the new one: who starts with the paths of
-- the old snapshot and follows the events, with a rename taken for one path that goes and one that
-- comes, ends with the paths of the new one; and the new one is kept.
pub replay-diff_directory_snapshot :
    (old new : Snapshot) (p : FilePath)
    → let r = diff_directory_snapshot old new in
      (replay r.0 (λ q. has_key q old) p ≡ has_key p new) × (r.1 ≡ new)
unfolding diff_directory_snapshot
replay-diff_directory_snapshot old new p = (
  ground (
    arith,
    ap (λ t. t p)
        (replay-append (entry_events (unmatched new old) (unmatched old new))
          (changed_events old new) (λ q. has_key q old)),
    replay-changed old new
        (replay (entry_events (unmatched new old) (unmatched old new)) (λ q. has_key q old)) p,
    replay-entry (unmatched new old) (unmatched old new) (λ q. has_key q old) p,
    named-unmatched p new old,
    named-unmatched p old new,
  ),
  refl,
)
