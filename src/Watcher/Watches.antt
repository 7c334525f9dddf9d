-- ===== src/Watcher/Watches.antt =====
-- The table of watches under `addWatch`, `removeWatch` and `addWatchWithRegex`.
use libfilewatch.Base.{
  ◌≡◌, refl, ◌≢◌, ◌↔◌, ◌⊎◌, Bool, true, false, [], if◌then◌else◌, ◌==◌, text_eq, none, some,
  Option-cases, arith,
}
use libfilewatch.Base.Dict
use libfilewatch.Base.Dict.{Dict, has_key, lookup, Unique}
use libfilewatch.Path.{FilePath}
use libfilewatch.PathUtils.{Os, get_absolute_path, exists}
use libfilewatch.Errc.{success, already_watching}
use libfilewatch.Filter.{Regex}
use libfilewatch.Watcher.{
  Outcome, returned, threw, Platform, EventCallback, WatchEntry, Watcher, add_watch, after_add,
  set_error,
}

has_key_of :
    {V : Type 0} (k : FilePath) (v : V) (d : Dict FilePath V) → has_key k (Dict.insert k v d) ≡ true
has_key_of k v d = ground (arith, Dict.lookup-insert k k v d)

module _ {X : Regex} {P : Platform} {W : Type 0} (os : Os) (path : FilePath) where
  add_watch_watched :
      (recursive : Bool) (cb : EventCallback W) (s : Watcher X P W)
      → path ≢ []
      → exists os (get_absolute_path os path) ≡ true
      → has_key (get_absolute_path os path) s.watches ≡ true
      → add_watch os path recursive cb s ≡ (false, set_error already_watching s)
  unfolding add_watch
  add_watch_watched recursive cb s n e k = ground arith

module _ {X : Regex} {P : Platform} {W : Type 0} (os : Os) (path : FilePath) (recursive : Bool)
    (cb : EventCallback W) (s : Watcher X P W) where
  -- The path that the watcher and its backend know.
  abbrev pub target : FilePath
  target = get_absolute_path os path

  abbrev pub answer : Outcome Bool
  answer = (P.add_watch target recursive s.platform_watcher).0

  -- The checks that come before the backend is asked.
  abbrev pub IsAdmissible : Type 0
  IsAdmissible = (path ≢ []) × (exists os target ≡ true) × (lookup target s.watches ≡ none)

  abbrev pub entry : WatchEntry W
  entry = record { callback = cb; recursive = recursive }

  abbrev pub added : Bool × Watcher X P W
  added = add_watch os path recursive cb s

  -- What `addWatch` does behind its checks, for any answer of the backend.
  after_add_lem :
      (o : Outcome Bool × P.State)
      → let r = after_add target o (record s { watches = Dict.insert target entry s.watches }) in
        ((r.0 ≡ true) ↔ (o.0 ≡ returned true))
        × ((r.1.last_error ≡ success) ↔ (r.0 ≡ true))
        × (o.0 ≢ returned false → r.1.watches ≡ Dict.insert target entry s.watches)
        × (o.0 ≡ returned false
            → r.1.watches ≡ Dict.erase target (Dict.insert target entry s.watches))
  after_add_lem (returned true, ps) = ground arith
  after_add_lem (returned false, ps) = ground arith
  after_add_lem (threw, ps) = ground arith

  -- A watch is added exactly when the path is not empty, what it stands for exists and is not watched
  -- yet, and the backend takes it.
  pub add_watch_iff : (added.0 ≡ true) ↔ (IsAdmissible × (answer ≡ returned true))
  unfolding add_watch
  add_watch_iff = ground (
    arith,
    after_add_lem (P.add_watch target recursive s.platform_watcher),
    Option-cases (lookup target s.watches),
  )

  after_add-platform :
      (o : Outcome Bool × P.State) (t : Watcher X P W)
      → (after_add target o t).1.platform_watcher ≡ o.1
  after_add-platform (returned true, ps) t = refl
  after_add-platform (returned false, ps) t = refl
  after_add-platform (threw, ps) t = refl

  -- A watch that is added leaves the backend in the state that its answer came with.
  pub added_platform :
      added.0 ≡ true
      → added.1.platform_watcher ≡ (P.add_watch target recursive s.platform_watcher).1
  unfolding add_watch
  added_platform h = ground (
    arith,
    after_add-platform (P.add_watch target recursive s.platform_watcher)
        (record s { watches = Dict.insert target entry s.watches }),
  )

  -- The watches behind `addWatch`, on every branch.
  pub added_watches :
      ((added.0 ≡ true) × (added.1.watches ≡ Dict.insert target entry s.watches))
      ⊎ ((added.0 ≡ false)
          × (answer ≡ threw)
          × IsAdmissible
          × (added.1.watches ≡ Dict.insert target entry s.watches))
      ⊎ ((added.0 ≡ false)
          × (answer ≢ threw)
          × (lookup target s.watches ≡ none)
          × (added.1.watches ≡ Dict.erase target (Dict.insert target entry s.watches)))
      ⊎ ((added.0 ≡ false) × (¬ IsAdmissible) × (added.1.watches ≡ s.watches))
  unfolding add_watch
  added_watches = ground (
    arith,
    after_add_lem (P.add_watch target recursive s.platform_watcher),
    Option-cases (lookup target s.watches),
  )

  added_error : (added.1.last_error ≡ success) ↔ (added.0 ≡ true)
  unfolding add_watch
  added_error = ground (arith, after_add_lem (P.add_watch target recursive s.platform_watcher))

  added_threw :
      IsAdmissible
      → answer ≡ threw
      → (added.0 ≡ false) × (added.1.watches ≡ Dict.insert target entry s.watches)
  unfolding add_watch
  added_threw a t = ground (arith, after_add_lem (P.add_watch target recursive s.platform_watcher))

  -- The last error says success exactly when the call succeeded. A success enters the watch, with its
  -- callback and its depth, and leaves the other watches alone; a failure leaves all watches alone,
  -- if the checks fail or the backend does not throw.
  pub add_watch_effect :
      ((added.1.last_error ≡ success) ↔ (added.0 ≡ true))
      × ((k : FilePath)
          → added.0 ≡ true
          → lookup k added.1.watches ≡ (if k == target then some entry else lookup k s.watches))
      × ((k : FilePath)
          → added.0 ≡ false
          → (¬ IsAdmissible) ⊎ (answer ≢ threw)
          → lookup k added.1.watches ≡ lookup k s.watches)
  add_watch_effect = (
    added_error,
    λ k h. ground (arith, added_watches, Dict.lookup-insert target k entry s.watches),
    λ k h t. ground (
      arith,
      added_watches,
      Dict.lookup-insert target k entry s.watches,
      Dict.lookup-erase target k (Dict.insert target entry s.watches),
    ),
  )

  -- Where the backend throws, the watch that was not made stays in the table, and the path cannot be
  -- watched any more: the next call, whatever its other arguments, answers that it is watched.
  pub add_watch_throw_sticks :
      (recursive' : Bool) (cb' : EventCallback W)
      → IsAdmissible
      → answer ≡ threw
      → (added.0 ≡ false)
        × (add_watch os path recursive' cb' added.1 ≡ (false, set_error already_watching added.1))
  add_watch_throw_sticks recursive' cb' a t =
      let (failed, w) = added_threw a t in
      (
        failed,
        add_watch_watched os path recursive' cb' added.1 a.0 a.1
            (rw w (has_key_of target entry s.watches)),
      )
