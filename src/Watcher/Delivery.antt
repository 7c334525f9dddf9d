-- ===== src/Watcher/Delivery.antt =====
-- Which callbacks an event reaches.
use libfilewatch.Base.{
  ◌≡◌, refl, ◌≢◌, ◌↔◌, Bool, [], ◌∷◌, map, keep, In, In-keep, text_eq, none, some, arith,
}
use libfilewatch.Base.Dict
use libfilewatch.Base.Dict.{Dict, lookup, Unique}
use libfilewatch.Path.{FilePath, fix_slashes, normalize_path}
use libfilewatch.Path.Under.{IsUnder, is_path_under_watch_iff}
use libfilewatch.Event.{FileEvent}
use libfilewatch.Filter.{Regex}
use libfilewatch.Watcher.{Platform, WatchEntry, Watcher, takes, call_all, dispatch_event}

module _ {W : Type 0} where
  -- The watches' callbacks in turn.
  abbrev pub call_each : Dict FilePath (WatchEntry W) → FileEvent → W → W
  call_each [] ev w = w
  call_each ((_, e) ∷ es) ev w = call_each es ev (e.callback ev w)

  call_all-each :
      (es : Dict FilePath (WatchEntry W)) (ev : FileEvent) (w : W)
      → call_all (map (λ e. e.1.callback) es) ev w ≡ call_each es ev w
  unfolding call_all
  call_all-each [] ev w = refl
  call_all-each ((p, e) ∷ es) ev w = call_all-each es ev (e.callback ev w)

  keep-none :
      (t : FilePath × WatchEntry W → Bool) (k : FilePath) (d : Dict FilePath (WatchEntry W))
      → lookup k d ≡ none
      → lookup k (keep t d) ≡ none
  keep-none t k [] h = refl
  keep-none t k ((j, e) ∷ d) h = ground (arith, keep-none t k d)

  keep-Unique :
      (t : FilePath × WatchEntry W → Bool) (d : Dict FilePath (WatchEntry W))
      → Unique d
      → Unique (keep t d)
  keep-Unique t [] u = tt
  keep-Unique t ((j, e) ∷ d) u = ground (arith, keep-Unique t d u.1, keep-none t j d u.0)

  -- The path is read as `isPathUnderWatch` reads it: where it is "/", it stays, and what it takes below
  -- it begins with two slashes.
  abbrev pub IsTaken : FilePath → WatchEntry W → FileEvent → Type 0
  IsTaken p e ev =
      (p ≢ []) × IsUnder (normalize_path (fix_slashes p)) (fix_slashes ev.path) e.recursive

  selected_iff :
      (d : Dict FilePath (WatchEntry W)) (ev : FileEvent) (p : FilePath) (e : WatchEntry W)
      → Unique d
      → In (p, e) (keep (takes ev) d) ↔ ((lookup p d ≡ some e) × IsTaken p e ev)
  selected_iff d ev p e u = (
    λ m.
        let (at, t) = (In-keep (takes ev) d (p, e)).0 m in
        (Dict.lookup-of_In p e d u at, (is_path_under_watch_iff p ev.path e.recursive).0 t),
    λ (at, t).
        (In-keep (takes ev) d (p, e)).1
          (Dict.In-of_lookup p e d at, (is_path_under_watch_iff p ev.path e.recursive).1 t),
  )

  -- If no path is watched twice, an event is handed once to the callback of each watch that takes it,
  -- and to no other. A watch takes an event if its path is not empty and, with backslashes read as
  -- slashes in both paths and the slashes at its end left out, is the path of the event, or the path
  -- of the event is this one, a slash and a rest, in which a watch that is not recursive allows no
  -- slash. A watch of "/" so takes only events whose path is "/" or begins with two slashes.
  pub dispatch_event_lem :
      {X : Regex} {P : Platform} (s : Watcher X P W) (ev : FileEvent)
      → Unique s.watches
      → (called : Dict FilePath (WatchEntry W)) × Unique called
        × ((p : FilePath) (e : WatchEntry W)
            → In (p, e) called ↔ ((lookup p s.watches ≡ some e) × IsTaken p e ev))
        × ((w : W) → dispatch_event ev s w ≡ call_each called ev w)
  unfolding dispatch_event
  dispatch_event_lem s ev u = (
    keep (takes ev) s.watches,
    keep-Unique (takes ev) s.watches u,
    λ p e. selected_iff s.watches ev p e u,
    λ w. call_all-each (keep (takes ev) s.watches) ev w,
  )
