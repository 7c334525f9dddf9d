-- ===== src/Watcher.antt =====
-- `FileWatcher::Impl` (src/FileWatcher.cpp). What the client's callbacks do to the client's world `W`
-- is a function; the backend is the parameter `Platform`; regular expressions and system calls are
-- those of Filter and PathUtils. The mutexes make each locked block one step: a state is passed
-- through the blocks in the order of the code. The event loop of `start` calls `process_event` and
-- the timer handlers; those calls are steps of their own here.
pub mod Watches
pub mod Removal
pub mod Pipeline
pub mod Delivery
pub mod Unordered
use mathlib.Core.List.{foldl}
use libfilewatch.Base.{
  ℕ, ◌≡◌, Bool, true, false, not, List, [], ◌∷◌, map, keep, is_empty, if◌then◌else◌, Eq, text_eq,
  Option, none, some,
}
use libfilewatch.Base.Dict
use libfilewatch.Base.Dict.{Dict, has_key}
use libfilewatch.Path.{FilePath, is_path_under_watch}
use libfilewatch.PathUtils.{Os, get_absolute_path, exists}
use libfilewatch.Event.{FileEvent}
use libfilewatch.Errc.{
  WatcherErrc, success, invalid_path, path_not_exist, platform_error, regex_error, internal_error,
  already_watching,
}
use libfilewatch.Filter.{Regex, Filter, blank_filter, passes}
use libfilewatch.Debounce.{Debouncer, new_debouncer, apply_debounce}

-- A call that returns, or throws a `std::exception`.
pub data Outcome (A : Type 0) : Type 0 where
  returned : A → Outcome A
  threw : Outcome A

-- `PlatformWatcher`. The state comes back also where the call throws.
pub record Platform : Type 1 where
  pub State : Type 0
  pub add_watch : FilePath → Bool → State → Outcome Bool × State
  pub remove_watch : FilePath → State → Outcome Bool × State
  pub start : State → Outcome Bool × State
  pub stop : State → Outcome (Unit {0}) × State

abbrev pub EventCallback : Type 0 → Type 0
EventCallback W = FileEvent → W → W

pub record WatchEntry (W : Type 0) : Type 0 where
  pub callback : EventCallback W
  pub recursive : Bool

pub record Watcher (X : Regex) (P : Platform) (W : Type 0) : Type 0 where
  pub platform_watcher : P.State
  pub watches : Dict FilePath (WatchEntry W)
  pub last_error : WatcherErrc
  pub filter : Filter X
  pub debouncer : Debouncer

-- The callback that `addWatchWithRegex` registers.
abbrev pub matching : (X : Regex) {W : Type 0} → X.Pattern → EventCallback W → EventCallback W
matching X r cb ev w = if X.match ev.path r then cb ev w else w

module _ {X : Regex} {P : Platform} {W : Type 0} where
  -- The constructor, over a new platform watcher.
  abbrev pub new_watcher : P.State → ℕ → Watcher X P W
  new_watcher p now = record {
    platform_watcher = p;
    watches = [];
    last_error = success;
    filter = blank_filter;
    debouncer = new_debouncer now;
  }

  abbrev pub set_error : WatcherErrc → Watcher X P W → Watcher X P W
  set_error code s = record s { last_error = code }

  -- What follows the call of the platform watcher in `addWatch`.
  abbrev pub after_add : FilePath → Outcome Bool × P.State → Watcher X P W → Bool × Watcher X P W
  after_add p (returned true, ps) s = (true, set_error success (record s { platform_watcher = ps }))
  after_add p (returned false, ps) s = (
    false,
    set_error platform_error (record s { platform_watcher = ps; watches = Dict.erase p s.watches }),
  )
  after_add p (threw, ps) s = (false, set_error internal_error (record s { platform_watcher = ps }))

  unfoldable pub add_watch :
      Os → FilePath → Bool → EventCallback W → Watcher X P W → Bool × Watcher X P W
  unfolding Dict.insert Dict.erase
  add_watch os path recursive cb s =
      let normalized = get_absolute_path os path in
      let entry : WatchEntry W = record { callback = cb; recursive = recursive } in
      let registered : Watcher X P W = record s {
        watches = Dict.insert normalized entry s.watches;
      } in
      if is_empty path
      then (false, set_error invalid_path s)
      else if not (exists os normalized)
      then (false, set_error path_not_exist s)
      else if has_key normalized s.watches
      then (false, set_error already_watching s)
      else after_add normalized (P.add_watch normalized recursive s.platform_watcher) registered

  abbrev pub after_call : Outcome Bool × P.State → Watcher X P W → Bool × Watcher X P W
  after_call (returned true, ps) s = (true, set_error success (record s { platform_watcher = ps }))
  after_call (returned false, ps) s =
      (false, set_error platform_error (record s { platform_watcher = ps }))
  after_call (threw, ps) s = (false, set_error internal_error (record s { platform_watcher = ps }))

  unfoldable pub remove_watch : Os → FilePath → Watcher X P W → Bool × Watcher X P W
  unfolding Dict.erase
  remove_watch os path s =
      let normalized = get_absolute_path os path in
      if is_empty path
      then (false, set_error invalid_path s)
      else after_call (P.remove_watch normalized s.platform_watcher)
          (record s { watches = Dict.erase normalized s.watches })

  unfoldable pub add_watch_with_regex :
      Os → FilePath → FilePath → Bool → EventCallback W → Watcher X P W → Bool × Watcher X P W
  unfolding add_watch
  add_watch_with_regex os folder pattern recursive cb s =
      if is_empty folder then (false, set_error invalid_path s) else elim (X.compile pattern) [
        | some r ↦ add_watch os folder recursive (matching X r cb) s
        | none ↦ (false, set_error regex_error s)
      ]

  unfoldable pub start : Watcher X P W → Bool × Watcher X P W
  start s = after_call (P.start s.platform_watcher) s

  abbrev pub after_stop : Outcome (Unit {0}) × P.State → Watcher X P W → Watcher X P W
  after_stop (returned _, ps) s = set_error success (record s { platform_watcher = ps })
  after_stop (threw, ps) s = set_error internal_error (record s { platform_watcher = ps })

  unfoldable pub stop : Watcher X P W → Watcher X P W
  stop s = after_stop (P.stop s.platform_watcher) s

  abbrev pub set_filter : Filter X → Watcher X P W → Watcher X P W
  set_filter f s = record s { filter = f }

-- The test of one entry in `dispatchEvent`.
abbrev pub takes : {W : Type 0} → FileEvent → FilePath × WatchEntry W → Bool
takes ev e = is_path_under_watch e.0 ev.path e.1.recursive

-- `dispatchEvent`: the callbacks are collected first, then called.
unfoldable pub callbacks_for :
    {W : Type 0} → Dict FilePath (WatchEntry W) → FileEvent → List (EventCallback W)
unfolding is_path_under_watch
callbacks_for watches ev = map (λ e. e.1.callback) (keep (takes ev) watches)

unfoldable pub call_all : {W : Type 0} → List (EventCallback W) → FileEvent → W → W
call_all [] ev w = w
call_all (cb ∷ cbs) ev w = call_all cbs ev (cb ev w)

module _ {X : Regex} {P : Platform} {W : Type 0} where
  unfoldable pub dispatch_event : FileEvent → Watcher X P W → W → W
  unfolding callbacks_for call_all
  dispatch_event ev s w = call_all (callbacks_for s.watches ev) ev w

  unfoldable pub process_event : FileEvent → ℕ → Watcher X P W → W → Watcher X P W × W
  unfolding passes apply_debounce dispatch_event
  process_event ev now s w =
      let (d, dropped) = apply_debounce ev now s.debouncer in
      if not (passes s.filter ev)
      then (s, w)
      else if dropped
      then (record s { debouncer = d }, w)
      else (record s { debouncer = d }, dispatch_event ev s w)

  -- Events in the order in which the backend reports them, with the clock's readings.
  unfoldable pub process_events : List (ℕ × FileEvent) → Watcher X P W → W → Watcher X P W × W
  unfolding process_event
  process_events [] s w = (s, w)
  process_events ((now, ev) ∷ es) s w =
      let r = process_event ev now s w in process_events es r.0 r.1
