-- ===== src/Client.antt =====
-- The class `FileWatcher` as a client sees it (src/FileWatcher.cpp, include/filewatch/FileWatcher.h):
-- its methods hand on to `Impl`, whose watcher and whose timers are the two halves of a `System`.
use libfilewatch.Base.{ℕ, Bool, true, false, if◌then◌else◌, text_eq, nat_eq}
use libfilewatch.Path.{FilePath}
use libfilewatch.PathUtils.{Os}
use libfilewatch.Errc.{
  WatcherErrc, success, platform_error, internal_error, ErrorCode, make_error_code,
}
use libfilewatch.Filter.{Regex, Filter}
use libfilewatch.Timer
use libfilewatch.Watcher
use libfilewatch.Watcher.{Platform, Outcome, returned, threw, EventCallback, Watcher}
use libfilewatch.Backend.{System, with_platform}

module _ {X : Regex} {P : Platform} {W : Type 0} where
  -- A call of the watcher, its answer, and the system.
  abbrev pub answering : Bool × Watcher X P W → System X P W → Bool × System X P W
  answering r s = (r.0, record s { watcher = r.1 })

  unfoldable pub add_watch :
      Os → FilePath → Bool → EventCallback W → System X P W → Bool × System X P W
  unfolding Watcher.add_watch
  add_watch os path recursive cb s = answering (Watcher.add_watch os path recursive cb s.watcher) s

  unfoldable pub remove_watch : Os → FilePath → System X P W → Bool × System X P W
  unfolding Watcher.remove_watch
  remove_watch os path s = answering (Watcher.remove_watch os path s.watcher) s

  unfoldable pub add_watch_with_regex :
      Os → FilePath → FilePath → Bool → EventCallback W → System X P W → Bool × System X P W
  unfolding Watcher.add_watch_with_regex
  add_watch_with_regex os directory pattern recursive cb s =
      answering (Watcher.add_watch_with_regex os directory pattern recursive cb s.watcher) s

  abbrev pub with_error : WatcherErrc → System X P W → System X P W
  with_error code s = record s { watcher = record s.watcher { last_error = code } }

  -- The whole call: where the platform watcher starts, its loop `run` is in between, and what follows
  -- comes when that is answering.
  unfoldable pub start : (System X P W → System X P W) → System X P W → Bool × System X P W
  start run s =
      let r = P.start s.watcher.platform_watcher in
      let t = with_platform r.1 s in
      elim r.0 [
        | returned ok ↦
            if ok then (true, with_error success (run t)) else (false, with_error platform_error t)
        | threw ↦ (false, with_error internal_error t)
      ]

  unfoldable pub stop : System X P W → System X P W
  unfolding Watcher.stop
  stop s = record s { watcher = Watcher.stop s.watcher }

  -- Both calls take the clock's reading, and answer true.
  unfoldable pub add_timer : ℕ → ℕ → ℕ → System X P W → Bool × System X P W
  unfolding Timer.add_timer
  add_timer p timeout_ms now s =
      (true, record s { timers = Timer.add_timer p timeout_ms now s.timers })

  unfoldable pub remove_timer : ℕ → System X P W → Bool × System X P W
  unfolding Timer.remove_timer
  remove_timer p s = (true, record s { timers = Timer.remove_timer p s.timers })

  abbrev pub get_last_error : System X P W → ErrorCode
  get_last_error s = make_error_code s.watcher.last_error

  abbrev pub set_filter : Filter X → System X P W → System X P W
  set_filter f s = record s { watcher = record s.watcher { filter = f } }
