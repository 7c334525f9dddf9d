-- ===== src/Tests/Runs.antt =====
-- A run of the whole system on Linux (src/FileWatcher.cpp, src/core/InotifyWatcher.cpp).
use libfilewatch.Base.{ℕ, refl, true, false, List, [], ◌∷◌, nat_eq, text_eq, none, some}
use libfilewatch.Path.{normalize_path}
use libfilewatch.PathUtils.{Os, folder}
use libfilewatch.Event.{FileEvent}
use libfilewatch.Timer.{new_timer, Timers}
use libfilewatch.Timer.Runs.{idle}
use libfilewatch.Watcher
use libfilewatch.Watcher.{new_watcher}
use libfilewatch.Inotify.{new_inotify}
use libfilewatch.Inotify.Events.{InotifyEvent}
use libfilewatch.Inotify.Loop.{mask_of}
use libfilewatch.Backend.{inotify_platform, System, on_kernel_event}
use libfilewatch.Backend.Tied.{IsTied}
use libfilewatch.Backend.Reach.{
  here, next, added, regex_added, removed, kernel_event, started, EndsPlain, Reach-IsTied,
}
use libfilewatch.Inotify.Frames.{encode_events}
use libfilewatch.EventLoop.{Round, Last, watch_loop}
use libfilewatch.EventLoop.OnInotify.{Waited, ready, inotify_loop}
use libfilewatch.EventLoop.Kept.{Within}
use libfilewatch.Backend.Hosting.{impl_host}
use libfilewatch.Backend.Looped.{IsTiedSystem, watch_loop-IsTied}
use libfilewatch.Tests.Instances.{literal, counting, keep_events, path_a, path_b}

-- All paths exist and are absolute.
abbrev all_there : Os
all_there = record { realpath = λ p. some p; stat = λ p. some folder }

path_a-EndsPlain : EndsPlain all_there path_a
unfolding normalize_path nat_eq
path_a-EndsPlain = refl

path_b-EndsPlain : EndsPlain all_there path_b
unfolding normalize_path nat_eq
path_b-EndsPlain = refl

abbrev unused : Timers
unused = idle (λ p. new_timer none false)

abbrev first_state : System literal (inotify_platform counting 2) (List FileEvent)
first_state = record {
  watcher =
      new_watcher {P = inotify_platform counting 2}
        (new_inotify {K = counting} 1 (some 3) (some 4) (some 5)) 0;
  timers = unused;
  world = [];
}

abbrev with_a : System literal (inotify_platform counting 2) (List FileEvent)
with_a = record first_state {
  watcher = (Watcher.add_watch all_there path_a true keep_events first_state.watcher).1;
}

abbrev clock : ℕ → ℕ
clock n = 1000

-- A directory "c" is made.
abbrev made : InotifyEvent
made = record { wd = 1; cookie = 0; mask = mask_of 1073742080; name = some (99 ∷ []) }

abbrev with_c : System literal (inotify_platform counting 2) (List FileEvent)
with_c = on_kernel_event 2 clock made with_a

abbrev with_b : System literal (inotify_platform counting 2) (List FileEvent)
with_b = record with_c {
  watcher =
      (Watcher.add_watch_with_regex all_there path_b path_a false keep_events with_c.watcher).1;
}

-- "/a" is removed again.
Reach-IsTied_example :
    let t = (Watcher.remove_watch all_there path_a with_b.watcher).1 in
    IsTied 4 t.platform_watcher t.watches
Reach-IsTied_example =
    Reach-IsTied literal counting 2 (List FileEvent) 4 1 (some 3) (some 5) 0 unused [] (
      next
        (next
          (next (next here (added all_there path_a true keep_events path_a-EndsPlain))
            (kernel_event clock made))
          (regex_added all_there path_b path_a false keep_events path_b-EndsPlain))
        (removed all_there path_a path_a-EndsPlain))

abbrev running_a : System literal (inotify_platform counting 2) (List FileEvent)
running_a = record with_a { watcher = (Watcher.start with_a.watcher).1 }

running_a-IsTied : IsTied 4 running_a.watcher.platform_watcher running_a.watcher.watches
running_a-IsTied =
    Reach-IsTied literal counting 2 (List FileEvent) 4 1 (some 3) (some 5) 0 unused []
      (next (next here (added all_there path_a true keep_events path_a-EndsPlain)) started)

-- The kernel tells of the directory "c".
abbrev told : Round Waited (System literal (inotify_platform counting 2) (List FileEvent))
told = record {
  others = λ s. s;
  answer = ready (
      record {
        fd = 4;
        buffer =
            encode_events
              (record { wd = 1; mask = 1073742080; cookie = 0; name = some (99 ∷ [], 2) } ∷ []);
      }
      ∷ []);
  clock = clock;
  now = 1000;
}

abbrev last : Last
last = record { clock = clock; now = 2000 }

watch_loop-IsTied_example : Within (IsTiedSystem {X = literal} {K = counting} 4 2) (
    watch_loop
      (inotify_loop 2)
      (impl_host literal (inotify_platform counting 2) (List FileEvent) (λ p now s. s))
      (told ∷ [])
      last
      running_a)
watch_loop-IsTied_example =
    watch_loop-IsTied 4 2 (λ p now s. s) (told ∷ []) last running_a (λ s h. h, tt) running_a-IsTied
