-- ===== src/Watcher/Removal.antt =====
-- `removeWatch` and `addWatchWithRegex` (src/FileWatcher.cpp).
use libfilewatch.Base.{
  ◌≡◌, refl, ap, sym, ◌∙◌, ==_iff, ◌≢◌, ◌↔◌, Bool, true, false, [], not, ◌&&◌, is_empty,
  if◌then◌else◌, ◌==◌, text_eq, none, some, arith,
}
use libfilewatch.Base.Dict
use libfilewatch.Base.Dict.{Dict, has_key, lookup, Unique}
use libfilewatch.Path.{FilePath}
use libfilewatch.PathUtils.{Os, get_absolute_path}
use libfilewatch.Errc.{success, invalid_path, regex_error}
use libfilewatch.Event.{FileEvent}
use libfilewatch.Filter.{Regex}
use libfilewatch.Watcher.{
  Outcome, returned, threw, Platform, EventCallback, WatchEntry, Watcher, add_watch, after_call,
  remove_watch, add_watch_with_regex, matching, set_error,
}
use libfilewatch.Watcher.Watches.{add_watch_effect}

module _ {X : Regex} {P : Platform} {W : Type 0} (os : Os) (path : FilePath)
    (s : Watcher X P W) where
  abbrev pub removed : Bool × Watcher X P W
  removed = remove_watch os path s

  after_call_lem :
      (o : Outcome Bool × P.State) (r : Watcher X P W)
      → (((after_call o r).0 ≡ true) ↔ (o.0 ≡ returned true))
        × (((after_call o r).1.last_error ≡ success) ↔ ((after_call o r).0 ≡ true))
        × ((after_call o r).1.watches ≡ r.watches)
  after_call_lem (returned true, ps) r = ground arith
  after_call_lem (returned false, ps) r = ground arith
  after_call_lem (threw, ps) r = ground arith

  -- A watch is removed exactly when the path is not empty and the backend removes it; the last error
  -- says success exactly then. The watch is gone from the table for any path that is not empty, also
  -- where the backend fails and the call reports a failure; the other watches stay.
  pub remove_watch_lem :
      ((removed.0 ≡ true) ↔ (
        (path ≢ [])
        × ((P.remove_watch (get_absolute_path os path) s.platform_watcher).0 ≡ returned true)))
      × ((removed.1.last_error ≡ success) ↔ (removed.0 ≡ true))
      × ((k : FilePath)
          → lookup k removed.1.watches ≡ (
              if not (is_empty path) && k == get_absolute_path os path
              then none
              else lookup k s.watches))
  unfolding remove_watch
  remove_watch_lem =
      let r : Watcher X P W = record s {
        watches = Dict.erase (get_absolute_path os path) s.watches;
      } in
      let o = P.remove_watch (get_absolute_path os path) s.platform_watcher in
      (
        ground (arith, after_call_lem o r),
        ground (arith, after_call_lem o r),
        λ k.
            ground (
              arith,
              after_call_lem o r,
              Dict.lookup-erase (get_absolute_path os path) k s.watches,
            ),
      )

module _ {X : Regex} {P : Platform} {W : Type 0} (os : Os) (path pattern : FilePath)
    (recursive : Bool) (cb : EventCallback W) (s : Watcher X P W) where
  regex-add :
      (r : X.Pattern)
      → path ≢ []
      → X.compile pattern ≡ some r
      → add_watch_with_regex os path pattern recursive cb s
        ≡ add_watch os path recursive (matching X r cb) s
  unfolding add_watch_with_regex
  regex-add r n e = ground arith

  bad_path :
      path ≡ []
      → add_watch_with_regex os path pattern recursive cb s ≡ (false, set_error invalid_path s)
  unfolding add_watch_with_regex
  bad_path e = ground arith

  bad_pattern :
      path ≢ []
      → X.compile pattern ≡ none
      → add_watch_with_regex os path pattern recursive cb s ≡ (false, set_error regex_error s)
  unfolding add_watch_with_regex
  bad_pattern n e = ground arith

  same_key : (k : FilePath) → (k == k) ≡ true
  same_key k = (==_iff k k).1 refl

  registered_watch :
      (r : X.Pattern)
      → (add_watch os path recursive (matching X r cb) s).0 ≡ true
      → lookup
          (get_absolute_path os path)
          (add_watch os path recursive (matching X r cb) s).1.watches
        ≡ some (record { callback = matching X r cb; recursive = recursive })
  registered_watch r h =
      (add_watch_effect os path recursive (matching X r cb) s).1 (get_absolute_path os path) h
      ∙ ap
          (λ b.
            if b
            then some (record { callback = matching X r cb; recursive = recursive })
            else lookup (get_absolute_path os path) s.watches)
          (same_key (get_absolute_path os path))

  -- A watch with a pattern fails as invalid for an empty path, then with an error of its own for a
  -- text that is no pattern, with all else left alone; where it is added, its callback hands on
  -- the events whose whole path matches and drops the others.
  pub add_watch_with_regex_lem :
      (path ≡ []
        → add_watch_with_regex os path pattern recursive cb s ≡ (false, set_error invalid_path s))
      × (path ≢ []
          → X.compile pattern ≡ none
          → add_watch_with_regex os path pattern recursive cb s ≡ (false, set_error regex_error s))
      × ((r : X.Pattern)
          → path ≢ []
          → X.compile pattern ≡ some r
          → (add_watch_with_regex os path pattern recursive cb s).0 ≡ true
          → (registered : WatchEntry W) × (lookup
                (get_absolute_path os path)
                (add_watch_with_regex os path pattern recursive cb s).1.watches
              ≡ some registered)
            × (registered.recursive ≡ recursive)
            × ((ev : FileEvent) (w : W)
                → X.match ev.path r ≡ true
                → registered.callback ev w ≡ cb ev w)
            × ((ev : FileEvent) (w : W) → X.match ev.path r ≡ false → registered.callback ev w ≡ w))
  add_watch_with_regex_lem = (
    bad_path,
    bad_pattern,
    λ r n e h.
        let same = regex-add r n e in
        (
          record { callback = matching X r cb; recursive = recursive },
          rw same (registered_watch r (ap (λ (t : Bool × Watcher X P W). t.0) (sym same) ∙ h)),
          refl,
          λ ev w m. rw m,
          λ ev w m. rw m,
        ),
  )
