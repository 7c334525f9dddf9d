-- ===== src/Tests/OnLinux.antt =====
-- The whole system on Linux (src/FileWatcher.cpp, src/core/InotifyWatcher.cpp) on concrete input.
use libfilewatch.Base.{
  if◌then◌else◌, ◌==◌, ℕ, ◌+◌, ◌≡◌, refl, true, false, List, [], ◌∷◌, ◌++◌, In, map, length, nat_eq,
  text_eq, none, some, arith,
}
use libfilewatch.Base.Dict.{Dict, Unique}
use libfilewatch.Path.{FilePath, normalize_path, fix_slashes}
use libfilewatch.Event.{FileEvent, modify, file, file_event}
use libfilewatch.Filter.{passes}
use libfilewatch.Debounce.{apply_debounce}
use libfilewatch.Timer.{new_timer, Timers}
use libfilewatch.Timer.Runs.{idle}
use libfilewatch.Watcher
use libfilewatch.Watcher.{WatchEntry, Watcher, new_watcher, stop}
use libfilewatch.Watcher.Delivery.{call_each}
use libfilewatch.Inotify
use libfilewatch.Inotify.{Inotify, new_inotify, child_path}
use libfilewatch.Inotify.Events.{InotifyEvent, process_buffer}
use libfilewatch.Inotify.Loop.{read_event, process_bytes}
use libfilewatch.Inotify.Frames.{RawEvent, IsRaw, encode_events, event_of, process_bytes-encode}
use libfilewatch.Fanotify.{FanKernel, Fanotify}
use libfilewatch.Fanotify.Reported.{Given}
use libfilewatch.Backend.{inotify_platform, System, on_kernel_event}
use libfilewatch.Backend.Delivered.{IsWrite}
use libfilewatch.Backend.Added.{IsPlain, IsName, added_directory_delivers}
use libfilewatch.Tests.Instances.{literal, all_folders, counting, keep_events, path_a}

abbrev pub fresh : Inotify counting
fresh = new_inotify {K = counting} 1 (some 3) (some 4) (some 5)

abbrev pub Local : Type 0
Local = System literal (inotify_platform counting 2) (List FileEvent)

abbrev pub first_state : Local
first_state = record {
  watcher = new_watcher {P = inotify_platform counting 2} fresh 0;
  timers = idle (λ p. new_timer none false);
  world = [];
}

abbrev pub watching_a : Local
watching_a = record first_state {
  watcher = (Watcher.add_watch all_folders path_a false keep_events first_state.watcher).1;
}

-- "f" was written in the directory of descriptor 1.
abbrev raw_write : RawEvent
raw_write = record { wd = 1; mask = 8; cookie = 0; name = some (102 ∷ [], 2) }

abbrev pub write : InotifyEvent
write = event_of raw_write

write-IsWrite : IsWrite write (102 ∷ [])
unfolding nat_eq
write-IsWrite = record { written = refl; only = (refl, refl, refl); named = refl }

abbrev pub clock : ℕ → ℕ
clock n = 70000000 + n

abbrev written_f : FileEvent
written_f = file_event modify (child_path path_a (102 ∷ [])) file

path_a-IsPlain : IsPlain path_a
unfolding normalize_path fix_slashes nat_eq
path_a-IsPlain = record { nonempty = ground arith; ends = refl; slashes = refl }

added_directory_delivers_example :
    (wd : ℕ) × ((clock : ℕ → ℕ) (ev : InotifyEvent) (n : FilePath)
      → ev.wd ≡ wd
      → IsWrite ev n
      → IsName n
      → let fe = file_event modify (child_path path_a n) file in
        (passes watching_a.watcher.filter fe ≡ true)
          × ((apply_debounce fe (clock 0) watching_a.watcher.debouncer).1 ≡ false)
        → (called : Dict FilePath (WatchEntry (List FileEvent))) × Unique called
          × In (path_a, record { callback = keep_events; recursive = false }) called
          × ((on_kernel_event 2 clock ev watching_a).world ≡ call_each called fe []))
unfolding Watcher.add_watch Inotify.add_watch nat_eq text_eq
added_directory_delivers_example =
    added_directory_delivers {K = counting} 2 all_folders path_a keep_events first_state
      path_a-IsPlain tt refl refl

abbrev at_rest : ℕ → ℕ → Timers → Timers
at_rest c p s = s

raw_write-IsRaw : IsRaw raw_write
raw_write-IsRaw = record {
  wd_bound = omega arith;
  mask_bound = omega arith;
  cookie_bound = omega arith;
  size_bound = omega arith;
  no_null = (ground arith, tt);
}

process_bytes-encode_example :
    let buffer = encode_events (raw_write ∷ raw_write ∷ []) ++ 1 ∷ [] in
    process_bytes 2 (length buffer) buffer fresh
    ≡ process_buffer 2 (map event_of (raw_write ∷ raw_write ∷ [])) fresh
unfolding read_event
process_bytes-encode_example =
    process_bytes-encode 2 (raw_write ∷ raw_write ∷ []) (1 ∷ []) fresh
      (raw_write-IsRaw, (raw_write-IsRaw, tt)) refl

-- Descriptor 7 is "/a", no other has a name.
abbrev pub naming : FanKernel
naming = record {
  State = ℕ;
  mark = λ b p n. (true, n);
  readlink = λ fd. if fd == 7 then some path_a else none;
  fstat_dir = λ fd. some false;
  close_fd = λ fd n. n + 1;
}

abbrev pub marked : Fanotify naming
marked = record {
  system = 0;
  epoll_fd = some 3;
  fanotify_fd = some 4;
  wakeup_fd = some 5;
  running = true;
  wakeups = 0;
}

abbrev pub given : List Given
given = record { mask = 8; fd = 7; pid = 4000 } ∷ record { mask = 256; fd = 6; pid = 70000 } ∷ []
