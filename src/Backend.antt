-- ===== src/Backend.antt =====
-- The file watcher over its backends: `FileWatcher::Impl` (src/FileWatcher.cpp) holds an
-- `InotifyWatcher`, `FanotifyWatcher` or `WindowsWatcher` (src/core) behind the interface
-- `PlatformWatcher` (src/core/PlatformWatcher.h), made by `createPlatformWatcher`
-- (src/core/PlatformWatcherFactory.cpp), and is called back by its event loop: `processEvent` for each
-- event, then the timer handler.
pub mod Delivered
pub mod Added
pub mod Tied
pub mod Reach
pub mod Hosting
pub mod Looped
use libfilewatch.Base.{
  ℕ, zero, suc, ◌+◌, if◌then◌else◌, Bool, true, false, List, [], ◌∷◌, ◌++◌, Option, none, some,
}
use libfilewatch.Event.{FileEvent}
use libfilewatch.EventLoop.{stamped}
use libfilewatch.Filter.{Regex}
use libfilewatch.Timer.{Timers, process_expired_timers}
use libfilewatch.Watcher.{Platform, returned, Watcher, process_event, process_events}
use libfilewatch.Inotify.{Kernel, Inotify, add_watch, remove_watch}
use libfilewatch.Fanotify
use libfilewatch.Fanotify.{FanKernel, Fanotify}
use libfilewatch.Inotify.Events
use libfilewatch.Inotify.Events.{InotifyEvent}
use libfilewatch.Inotify.Loop.{start, stop}
use libfilewatch.Windows
use libfilewatch.Windows.{Win32, Windows}

-- The fuel bounds the depth of the trees that are walked.
abbrev pub inotify_platform : Kernel → ℕ → Platform
inotify_platform K fuel = record {
  State = Inotify K;
  add_watch = λ path rec s. let r = add_watch fuel path rec s in (returned r.0, r.1);
  remove_watch = λ path s. let r = remove_watch path s in (returned r.0, r.1);
  start = λ s. let r = start s in (returned r.0, r.1);
  stop = λ s. (returned tt, stop s);
}

abbrev pub fanotify_platform : FanKernel → Platform
fanotify_platform K = record {
  State = Fanotify K;
  add_watch = λ path rec s. let r = Fanotify.add_watch path rec s in (returned r.0, r.1);
  remove_watch = λ path s. let r = Fanotify.remove_watch path s in (returned r.0, r.1);
  start = λ s. let r = Fanotify.start s in (returned r.0, r.1);
  stop = λ s. (returned tt, Fanotify.stop s);
}

abbrev pub windows_platform : Win32 → Platform
windows_platform E = record {
  State = Windows E;
  add_watch = λ path rec s. let r = Windows.add_watch path rec s in (returned r.0, r.1);
  remove_watch = λ path s. let r = Windows.remove_watch path s in (returned r.0, r.1);
  start = λ s. let r = Windows.start s in (returned r.0, r.1);
  stop = λ s. (returned tt, Windows.stop s);
}

pub data LinuxBackend : Type 0 where
  inotify : LinuxBackend
  fanotify : LinuxBackend

-- `createPlatformWatcher` as it is built on Linux.
abbrev pub create_platform_watcher : Kernel → FanKernel → ℕ → LinuxBackend → Platform
create_platform_watcher K F fuel inotify = inotify_platform K fuel
create_platform_watcher K F fuel fanotify = fanotify_platform F

-- What `Impl` has: the watcher with its backend, the timers and the client's world.
pub record System (X : Regex) (P : Platform) (W : Type 0) : Type 0 where
  pub watcher : Watcher X P W
  pub timers : Timers
  pub world : W

module _ {X : Regex} {P : Platform} {W : Type 0} where
  -- The lambda that `Impl` hands to the platform watcher for one event.
  unfoldable pub on_event : ℕ → FileEvent → System X P W → System X P W
  unfolding process_event
  on_event now ev s =
      let r = process_event ev now s.watcher s.world in record s { watcher = r.0; world = r.1 }

  -- The one for the timers.
  unfoldable pub expire : (ℕ → ℕ → Timers → Timers) → ℕ → System X P W → System X P W
  unfolding process_expired_timers
  expire fire now s = record s { timers = (process_expired_timers fire now s.timers).1 }

  abbrev pub with_platform : P.State → System X P W → System X P W
  with_platform p s = record s { watcher = record s.watcher { platform_watcher = p } }

  -- The backend has gone a step, and its calls of the callback follow.
  unfoldable pub call_back : (ℕ → ℕ) → List FileEvent × P.State → System X P W → System X P W
  unfolding process_events
  call_back clock r s =
      let t =
        process_events (stamped clock r.0) (record s.watcher { platform_watcher = r.1 }) s.world in
      record s { watcher = t.0; world = t.1 }

-- One event of the kernel; the fuel bounds the depth of the trees.
unfoldable pub on_kernel_event :
    {X : Regex} {K : Kernel} (fuel : ℕ) {W : Type 0}
    → (ℕ → ℕ)
    → InotifyEvent
    → System X (inotify_platform K fuel) W
    → System X (inotify_platform K fuel) W
unfolding call_back Events.process_event
on_kernel_event fuel clock ev s =
    call_back clock (Events.process_event fuel ev s.watcher.platform_watcher) s
