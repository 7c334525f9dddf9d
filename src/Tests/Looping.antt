-- ===== src/Tests/Looping.antt =====
-- The event loops (`watchLoop` of the platform watchers in src/core) on concrete input.
use libfilewatch.Base.{
  ℕ, ◌+◌, ◌≡◌, refl, Bool, true, false, List, [], ◌∷◌, ◌++◌, map, Option, none, some, nat_eq,
  text_eq, arith,
}
use libfilewatch.Event.{FileEvent, file, create, modify, file_event}
use libfilewatch.Timer.{new_timer, Timers}
use libfilewatch.Timer.Runs.{idle}
use libfilewatch.Watcher.{new_watcher, start, stop}
use libfilewatch.Watcher.Pipeline.{reference}
use libfilewatch.Inotify.{Inotify}
use libfilewatch.Fanotify
use libfilewatch.Fanotify.{Fanotify}
use libfilewatch.Fanotify.Reported.{encode_all}
use libfilewatch.Mac
use libfilewatch.Mac.{Mac}
use libfilewatch.Backend.{inotify_platform, fanotify_platform, System}
use libfilewatch.Backend.Hosting.{impl_host, watch_loop-reference}
use libfilewatch.EventLoop.{Host, EventLoop, Round, Last, watch_loop}
use libfilewatch.EventLoop.Stopping.{stop_ends_loop}
use libfilewatch.EventLoop.Simulated.{BackendRound, lifted, recorder}
use libfilewatch.EventLoop.OnInotify.{
  Waited, ready, interrupted, inotify_loop, inotify_loop-IsTotal,
}
use libfilewatch.EventLoop.OnFanotify.{fanotify_loop}
use libfilewatch.EventLoop.OnFanotify
use libfilewatch.EventLoop.OnMac.{Answer, kevents, mac_loop}
use libfilewatch.EventLoop.Drained.{Run, events_of, pending_delivered}
use libfilewatch.Tests.Instances.{literal, counting, path_a}
use libfilewatch.Tests.OnLinux.{watching_a, Local, naming, marked, given, clock}
use libfilewatch.EventLoop.OnMac
use libfilewatch.Tests.OnMac.{mac, running_mac, written, item_a, path_ax, small}

abbrev at_rest : ℕ → ℕ → Timers → Timers
at_rest p now s = s

abbrev local_host : Host (inotify_platform counting 2).State
local_host = impl_host literal (inotify_platform counting 2) (List FileEvent) at_rest

abbrev last : Last
last = record { clock = clock; now = 90000000 }

-- The descriptor of the wake-up is ready.
abbrev stopping : Round Waited Local
stopping = record {
  others = λ t. record t { watcher = stop t.watcher };
  answer = ready (record { fd = 5; buffer = [] } ∷ []);
  clock = clock;
  now = 3;
}

abbrev running_a : Local
running_a = record watching_a { watcher = (start watching_a.watcher).1 }

abbrev local_loop : EventLoop (Inotify counting)
local_loop = inotify_loop {K = counting} 2

stop_ends_loop_example :
    let before = local_host.backend running_a in
    ((t : Local) × ((rs : List (Round Waited Local))
        → watch_loop local_loop local_host (stopping ∷ rs) last running_a ≡ some (true, t)))
    × (local_loop.continues before ≡ true
        → local_loop.can_wake before ≡ true
        → local_loop.wakeups (local_host.backend (stopping.others running_a))
          ≡ local_loop.wakeups before + 1)
unfolding stop
stop_ends_loop_example =
    stop_ends_loop local_loop local_host stopping last running_a
      (inotify_loop-IsTotal {K = counting} 2) refl

abbrev on_fanotify : System literal (fanotify_platform naming) (List FileEvent)
on_fanotify = record {
  watcher = new_watcher {P = fanotify_platform naming} marked 0;
  timers = idle (λ p. new_timer none false);
  world = [];
}

-- The marked mount reports, then the watcher is stopped.
abbrev rounds : List (BackendRound Waited (Fanotify naming))
rounds =
    record {
      meanwhile = λ s. s;
      answer = ready (record { fd = 4; buffer = encode_all given } ∷ []);
      clock = clock;
      now = 80000000;
    }
    ∷ record { meanwhile = Fanotify.stop; answer = interrupted; clock = clock; now = 0 }
    ∷ []

abbrev log : List (ℕ × FileEvent)
log = (70000000, file_event modify path_a file) ∷ []

abbrev stopped : Fanotify naming
stopped = record marked { system = 1; running = false; wakeups = 1 }

rounds_recorded :
    ◌≡◌ {A = Option (Bool × (Fanotify naming × List (ℕ × FileEvent)))}
      (watch_loop fanotify_loop
        (recorder (Fanotify naming))
        (map (lifted (recorder (Fanotify naming))) rounds)
        last
        (marked, []))
      (some (true, (stopped, log)))
unfolding watch_loop Fanotify.stop nat_eq OnFanotify.handle
rounds_recorded = refl

watch_loop-reference_example :
    let host = impl_host literal (fanotify_platform naming) (List FileEvent) at_rest in
    (u : System literal (fanotify_platform naming) (List FileEvent)) × (watch_loop fanotify_loop
        host
        (map (lifted host) rounds)
        last
        on_fanotify
      ≡ some (true, u))
    × (u.watcher.platform_watcher ≡ stopped)
    × (u.world ≡ reference [] log on_fanotify.watcher [])
watch_loop-reference_example =
    watch_loop-reference at_rest fanotify_loop rounds last on_fanotify 0 true stopped log
      rounds_recorded refl (omega arith, tt)

-- An event waits and a directory was written in when `stop` is called.
abbrev busy : Run mac
busy = (
  record running_mac {
    kqueue = record running_mac.kqueue { pending_events = file_event modify path_a file ∷ [] };
  },
  [],
)

abbrev stopping_mac : Round Answer (Run mac)
stopping_mac = record {
  others = λ v. (Mac.stop v.0, v.1);
  answer = kevents (written ∷ []);
  clock = clock;
  now = 0;
}

-- The file "/a/x" is found in the directory.
abbrev looped : Run mac
looped = (
  record running_mac {
    kqueue = record running_mac.kqueue {
      system = 7;
      items =
          (
            1,
            record item_a { children = (path_ax, small) ∷ []; child_file_fds = (path_ax, 6) ∷ [] },
          )
          ∷ [];
      fd_map = (5, 1) ∷ (6, 1) ∷ [];
      child_fd_to_path = (6, path_ax) ∷ [];
      wakeups = 2;
    };
    has_stream = false;
    running = false;
  },
  (70000000, file_event modify path_a file) ∷ (70000001, file_event create path_ax file) ∷ [],
)

stopping_mac-loops :
    watch_loop mac_loop (recorder (Mac mac)) (stopping_mac ∷ []) last busy ≡ some (true, looped)
unfolding watch_loop Mac.stop nat_eq text_eq OnMac.handle OnMac.drain
stopping_mac-loops = refl

pending_delivered_example :
    let t = stopping_mac.others busy in
    (looped.0.kqueue.pending_events ≡ [])
    × ((more : List FileEvent) × (events_of looped.1
          ≡ events_of t.1 ++ t.0.kqueue.pending_events ++ more))
pending_delivered_example =
    pending_delivered stopping_mac [] last busy looped tt refl stopping_mac-loops
