-- ===== src/Backend/Reach.antt =====
-- Runs of the whole system on Linux: the file watcher's calls (src/FileWatcher.cpp) and the kernel's
-- events (src/core/InotifyWatcher.cpp) in any order.
use libfilewatch.Base.{
  ℕ, ◌≡◌, refl, inl, inr, Bool, true, false, List, [], ◌∷◌, if◌then◌else◌, nat_eq, text_eq, Option,
  some, Option-cases, arith,
}
use libfilewatch.Base.Dict
use libfilewatch.Base.Dict.{Dict, lookup, has_key}
use libfilewatch.Path.{FilePath, normalize_path}
use libfilewatch.PathUtils.{Os, get_absolute_path}
use libfilewatch.Event.{FileEvent}
use libfilewatch.Filter.{Regex, Filter}
use libfilewatch.Timer
use libfilewatch.Timer.{Timers}
use libfilewatch.Watcher
use libfilewatch.Watcher.{
  Platform, returned, Watcher, WatchEntry, EventCallback, matching, after_add, set_filter,
  new_watcher, process_event, process_events,
}
use libfilewatch.Inotify
use libfilewatch.Inotify.{Kernel, Inotify, RootWatch, new_inotify}
use libfilewatch.Inotify.Events
use libfilewatch.Inotify.Events.{InotifyEvent}
use libfilewatch.Inotify.Invariant.{new-IsConsistent}
use libfilewatch.Backend.{inotify_platform, System, on_kernel_event, call_back, expire}
use libfilewatch.EventLoop.{stamped}
use libfilewatch.Backend.Tied.{
  IsTied, added-IsTied, removed-IsTied, event-IsTied, start-IsTied, stop-IsTied,
}

module _ {X : Regex} {P : Platform} {W : Type 0} where
  process_events-tables :
      (es : List (ℕ × FileEvent)) (s : Watcher X P W) (w : W)
      → let t = (process_events es s w).0 in
        (t.platform_watcher ≡ s.platform_watcher) × (t.watches ≡ s.watches)
  unfolding process_events
  process_events-tables [] s w = (refl, refl)
  process_events-tables ((now, ev) ∷ es) s w =
      let r = process_event ev now s w in ground (arith, process_events-tables es r.0 r.1)

  after_add-tables :
      (p : FilePath) (b : Bool) (ps : P.State) (s : Watcher X P W)
      → let t = (after_add p (returned b, ps) s).1 in
        (t.platform_watcher ≡ ps) × (t.watches ≡ (if b then s.watches else Dict.erase p s.watches))
  after_add-tables p true ps s = (refl, refl)
  after_add-tables p false ps s = (refl, refl)

-- The absolute path has no slash at its end, as that of a path that exists.
abbrev pub EndsPlain : Os → FilePath → Type 0
EndsPlain os p = normalize_path (get_absolute_path os p) ≡ get_absolute_path os p

module _ (X : Regex) (K : Kernel) (fuel : ℕ) (W : Type 0) where
  -- What may happen next; each call meets the files as they are by then.
  pub data Step (s : System X (inotify_platform K fuel) W)
      : System X (inotify_platform K fuel) W → Type 0 where
    added :
        (os : Os) (path : FilePath) (rec : Bool) (cb : EventCallback W)
        → EndsPlain os path
        → Step s (record s { watcher = (Watcher.add_watch os path rec cb s.watcher).1 })
    regex_added :
        (os : Os) (folder pattern : FilePath) (rec : Bool) (cb : EventCallback W)
        → EndsPlain os folder
        → Step s (record s {
          watcher = (Watcher.add_watch_with_regex os folder pattern rec cb s.watcher).1;
        })
    removed :
        (os : Os) (path : FilePath)
        → EndsPlain os path
        → Step s (record s { watcher = (Watcher.remove_watch os path s.watcher).1 })
    kernel_event : (clock : ℕ → ℕ) (ev : InotifyEvent) → Step s (on_kernel_event fuel clock ev s)
    started : Step s (record s { watcher = (Watcher.start s.watcher).1 })
    stopped : Step s (record s { watcher = Watcher.stop s.watcher })
    filtered : (f : Filter X) → Step s (record s { watcher = set_filter f s.watcher })
    timer_added :
        (p timeout_ms now : ℕ)
        → Step s (record s { timers = Timer.add_timer p timeout_ms now s.timers })
    timer_removed : (p : ℕ) → Step s (record s { timers = Timer.remove_timer p s.timers })
    expired : (fire : ℕ → ℕ → Timers → Timers) (now : ℕ) → Step s (expire fire now s)

  pub data Reach (s : System X (inotify_platform K fuel) W)
      : System X (inotify_platform K fuel) W → Type 0 where
    here : Reach s s
    next : {t u : System X (inotify_platform K fuel) W} → Reach s t → Step t u → Reach s u

  module _ (fd : ℕ) where
    add_into :
        (os : Os) (path : FilePath) (rec : Bool) (cb : EventCallback W)
        (s : Watcher X (inotify_platform K fuel) W)
        → EndsPlain os path
        → IsTied fd s.platform_watcher s.watches
        → let t = (Watcher.add_watch os path rec cb s).1 in IsTied fd t.platform_watcher t.watches
    unfolding Watcher.add_watch
    add_into os path rec cb s plain h =
        let norm = get_absolute_path os path in
        let e : WatchEntry W = record { callback = cb; recursive = rec } in
        let r = Inotify.add_watch fuel norm rec s.platform_watcher in
        let entered : Watcher X (inotify_platform K fuel) W = record s {
          watches = Dict.insert norm e s.watches;
        } in
        let after = after_add-tables {P = inotify_platform K fuel} norm r.0 r.1 entered in
        elim (Option-cases (lookup norm s.watches)) [
          | inl n ↦ ground (
            arith,
            h,
            after,
            added-IsTied fd fuel norm rec e s.platform_watcher s.watches plain h n,
          )
          | inr (w, n) ↦ ground (arith, h)
        ]

    regex_into :
        (os : Os) (folder pattern : FilePath) (rec : Bool) (cb : EventCallback W)
        (s : Watcher X (inotify_platform K fuel) W)
        → EndsPlain os folder
        → IsTied fd s.platform_watcher s.watches
        → let t = (Watcher.add_watch_with_regex os folder pattern rec cb s).1 in
          IsTied fd t.platform_watcher t.watches
    unfolding Watcher.add_watch_with_regex
    regex_into os folder pattern rec cb s plain h = elim (Option-cases (X.compile pattern)) [
      | inl n ↦ ground (arith, h)
      | inr (r, n) ↦ ground (arith, h, add_into os folder rec (matching X r cb) s plain h)
    ]

    remove_into :
        (os : Os) (path : FilePath) (s : Watcher X (inotify_platform K fuel) W)
        → EndsPlain os path
        → IsTied fd s.platform_watcher s.watches
        → let t = (Watcher.remove_watch os path s).1 in IsTied fd t.platform_watcher t.watches
    unfolding Watcher.remove_watch
    remove_into os path s plain h =
        let norm = get_absolute_path os path in
        ground (arith, h, removed-IsTied fd norm s.platform_watcher s.watches plain h)

    start_into :
        (s : Watcher X (inotify_platform K fuel) W)
        → IsTied fd s.platform_watcher s.watches
        → let t = (Watcher.start s).1 in IsTied fd t.platform_watcher t.watches
    unfolding Watcher.start
    start_into s h = ground (arith, start-IsTied fd s.platform_watcher s.watches h)

    stop_into :
        (s : Watcher X (inotify_platform K fuel) W)
        → IsTied fd s.platform_watcher s.watches
        → IsTied fd (Watcher.stop s).platform_watcher (Watcher.stop s).watches
    unfolding Watcher.stop
    stop_into s h = stop-IsTied fd s.platform_watcher s.watches h

    event_into :
        (clock : ℕ → ℕ) (ev : InotifyEvent) (s : System X (inotify_platform K fuel) W)
        → IsTied fd s.watcher.platform_watcher s.watcher.watches
        → let t = (on_kernel_event fuel clock ev s).watcher in
          IsTied fd t.platform_watcher t.watches
    unfolding on_kernel_event call_back
    event_into clock ev s h =
        let r = Events.process_event fuel ev s.watcher.platform_watcher in
        let same =
          process_events-tables {P = inotify_platform K fuel} (stamped clock r.0)
            (record s.watcher { platform_watcher = r.1 }) s.world in
        ground (arith, same, event-IsTied fd fuel ev s.watcher.platform_watcher s.watcher.watches h)

    Step-IsTied :
        {s t : System X (inotify_platform K fuel) W}
        → Step s t
        → IsTied fd s.watcher.platform_watcher s.watcher.watches
        → IsTied fd t.watcher.platform_watcher t.watcher.watches
    unfolding expire
    Step-IsTied {s} (added os path rec cb plain) h = add_into os path rec cb s.watcher plain h
    Step-IsTied {s} (regex_added os folder pattern rec cb plain) h =
        regex_into os folder pattern rec cb s.watcher plain h
    Step-IsTied {s} (removed os path plain) h = remove_into os path s.watcher plain h
    Step-IsTied {s} (kernel_event clock ev) h = event_into clock ev s h
    Step-IsTied {s} started h = start_into s.watcher h
    Step-IsTied {s} stopped h = stop_into s.watcher h
    Step-IsTied {s} (filtered f) h = h
    Step-IsTied {s} (timer_added p timeout_ms now) h = h
    Step-IsTied {s} (timer_removed p) h = h
    Step-IsTied {s} (expired fire now) h = h

    -- In every state that a new file watcher over a new inotify watcher with an open descriptor comes
    -- to, by calls of the client and events of the kernel in any order and on files that may change
    -- between them, where the absolute paths of the paths that are added, with a pattern or without,
    -- and removed have no slash at their ends: the path of each watch descriptor leads back to it,
    -- each descriptor with a path is held by a root, each root that holds a descriptor lists it, and
    -- each root is a path that the file watcher watches.
    pub Reach-IsTied :
        (k : K.State) (e w : Option ℕ) (now : ℕ) (timers : Timers) (world : W)
        {t : System X (inotify_platform K fuel) W}
        → Reach
            (record {
              watcher =
                  new_watcher {P = inotify_platform K fuel}
                    (new_inotify {K = K} k e (some fd) w)
                    now;
              timers = timers;
              world = world;
            })
            t
        → IsTied fd t.watcher.platform_watcher t.watcher.watches
    Reach-IsTied k e w now timers world here = record {
      consistent = new-IsConsistent {K = K} k e (some fd) w;
      roots = record { opened = refl; within = λ r v m. cc };
    }
    Reach-IsTied k e w now timers world (next r st) =
        Step-IsTied st (Reach-IsTied k e w now timers world r)
