-- ===== src/Backend/Delivered.antt =====
-- The way from the kernel to the client: the event of a file that was written in a watched directory
-- (src/core/InotifyWatcher.cpp, src/FileWatcher.cpp).
use libfilewatch.Base.{
  ℕ, ◌≡◌, ◌↔◌, refl, ap, ◌∙◌, true, false, [], ◌∷◌, In, nat_eq, text_eq, some, arith,
}
use libfilewatch.Base.Dict.{Dict, lookup, Unique}
use libfilewatch.Path.{FilePath}
use libfilewatch.Event.{modify, file, FileEvent, file_event}
use libfilewatch.Filter.{Regex, passes}
use libfilewatch.Debounce.{apply_debounce}
use libfilewatch.Watcher.{Platform, Watcher, WatchEntry, process_events, dispatch_event}
use libfilewatch.Watcher.Delivery.{call_each, IsTaken, dispatch_event_lem}
use libfilewatch.Inotify.{Kernel, Inotify, child_path}
use libfilewatch.Inotify.Events.{InotifyEvent, process_event, report}
use libfilewatch.Backend.{inotify_platform, System, on_kernel_event, call_back}

-- A file named `n` was closed after it was written, in the directory of the descriptor.
pub record IsWrite (ev : InotifyEvent) (n : FilePath) : Type 0 where
  pub written : ev.mask.close_write ≡ true
  pub only : (ev.mask.ignored ≡ false) × (ev.mask.is_dir ≡ false) × (ev.mask.on_create ≡ false)
  pub named : ev.name ≡ some n

module _ {X : Regex} {P : Platform} {W : Type 0} where
  -- Neither the filter nor the debounce keeps the event from the watches.
  abbrev pub IsLetThrough : FileEvent → ℕ → Watcher X P W → Type 0
  IsLetThrough fe now s =
      (passes s.filter fe ≡ true) × ((apply_debounce fe now s.debouncer).1 ≡ false)

  process_one :
      (fe : FileEvent) (now : ℕ) (s : Watcher X P W) (w : W)
      → IsLetThrough fe now s
      → process_events ((now, fe) ∷ []) s w
        ≡ (record s { debouncer = (apply_debounce fe now s.debouncer).0 }, dispatch_event fe s w)
  unfolding process_events
  process_one fe now s w h = ground arith

  call_back_one :
      (clock : ℕ → ℕ) (fe : FileEvent) (p : P.State) (s : System X P W)
      → p ≡ s.watcher.platform_watcher
      → IsLetThrough fe (clock 0) s.watcher
      → (call_back clock (fe ∷ [], p) s).world ≡ dispatch_event fe s.watcher s.world
  unfolding call_back dispatch_event
  call_back_one clock fe p s e h =
      ap (λ r. r.1) (process_one fe (clock 0) (record s.watcher { platform_watcher = p }) s.world h)

process_event-write :
    {K : Kernel} (f : ℕ) (ev : InotifyEvent) (base n : FilePath) (i : Inotify K)
    → IsWrite ev n
    → lookup ev.wd i.watch_map ≡ some base
    → process_event f ev i ≡ (file_event modify (child_path base n) file ∷ [], i)
unfolding process_event report
process_event-write f ev base n i w e = ground (arith, w.written, w.only, w.named)

module _ {X : Regex} {K : Kernel} (fuel : ℕ) {W : Type 0} where
  -- When a file is written in a directory that the backend watches, the filter lets the event through
  -- and the debounce does not drop it, the client's world changes by the callbacks of the watches
  -- that take a modification of the file in that directory, each called once, and by nothing else, if
  -- no path is watched twice.
  pub written_file_delivered :
      (clock : ℕ → ℕ) (ev : InotifyEvent) (base n : FilePath)
      (s : System X (inotify_platform K fuel) W)
      → IsWrite ev n
      → lookup ev.wd s.watcher.platform_watcher.watch_map ≡ some base
      → Unique s.watcher.watches
      → let fe = file_event modify (child_path base n) file in
        IsLetThrough fe (clock 0) s.watcher
        → (called : Dict FilePath (WatchEntry W)) × Unique called
          × ((p : FilePath) (e : WatchEntry W)
              → In (p, e) called ↔ ((lookup p s.watcher.watches ≡ some e) × IsTaken p e fe))
          × ((on_kernel_event fuel clock ev s).world ≡ call_each called fe s.world)
  unfolding on_kernel_event
  written_file_delivered clock ev base n s w at u h =
      let fe = file_event modify (child_path base n) file in
      let i = s.watcher.platform_watcher in
      let (called, single, named, calls) = dispatch_event_lem s.watcher fe u in
      (
        called,
        single,
        named,
        ap (λ r. (call_back clock r s).world) (process_event-write fuel ev base n i w at)
            ∙ (call_back_one clock fe i s refl h ∙ calls s.world),
      )
