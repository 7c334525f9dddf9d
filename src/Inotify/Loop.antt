-- ===== src/Inotify/Loop.antt =====
-- The event loop of `InotifyWatcher` (src/core/InotifyWatcher.cpp), `start`, `stop`, `wakeup` and the
-- destructor. `watchLoop` reads a buffer of `struct inotify_event`: four numbers of 32 bits and a
-- name, which fills up with nulls. What the callbacks are called with is the list of events.
use libfilewatch.Base.{
  ℕ, zero, suc, ◌+◌, ◌/◌, ◌%◌, Bool, true, false, not, ◌&&◌, List, [], ◌∷◌, ◌++◌, length, take,
  drop, if◌then◌else◌, ltb, ◌==◌, nat_eq, Option, none, some,
}
use libfilewatch.Base.Bytes.{◌>>=◌, read_dword, c_str}
use libfilewatch.Base.Dict.{Dict}
use libfilewatch.Path.{FilePath}
use libfilewatch.Event.{FileEvent}
use libfilewatch.Inotify.{Kernel, Inotify}
use libfilewatch.Inotify.Events.{Mask, InotifyEvent, process_event}

-- `m & w` of a mask and a single bit.
abbrev pub has_bit : ℕ → ℕ → Bool
has_bit m w = m / w % 2 == 1

abbrev pub mask_of : ℕ → Mask
mask_of m = record {
  ignored = has_bit m 32768;
  is_dir = has_bit m 1073741824;
  on_create = has_bit m 256;
  close_write = has_bit m 8;
  on_delete = has_bit m 512;
  delete_self = has_bit m 1024;
  moved_from = has_bit m 64;
  moved_to = has_bit m 128;
}

abbrev pub name_of : ℕ → List ℕ → Option FilePath
name_of size bytes = if size == 0 then none else some (c_str (take size bytes))

-- The test of `watchLoop` for an event that the bytes end before: its size is cast to an `int` of 32
-- bits, and one that is negative as such passes for whole.
unfoldable pub is_cut : (size available : ℕ) → Bool
is_cut size available =
    let cast = (16 + size) % 4294967296 in ltb cast 2147483648 && ltb (16 + available) cast

-- The event that the bytes begin with, and the bytes behind it; `none` where the loop leaves the rest
-- alone. Where the size of an event that passes for whole is larger than what there is, nothing is
-- left, and its name is taken from what there is.
unfoldable pub read_event : List ℕ → Option (InotifyEvent × List ℕ)
unfolding read_dword is_cut
read_event bytes = read_dword bytes >>= λ (wd, r). read_dword r >>= λ (mask, q).
    read_dword q >>= λ (cookie, p). read_dword p >>= λ (size, name).
    if is_cut size (length name)
    then none
    else some (
      record { wd = wd; cookie = cookie; mask = mask_of mask; name = name_of size name },
      drop size name,
    )

-- What `epoll_wait` says of one descriptor, and what reading that gives.
pub record Ready : Type 0 where
  pub fd : ℕ
  pub buffer : List ℕ

abbrev pub is_fd : Option ℕ → ℕ → Bool
is_fd o fd = elim o [ some x ↦ fd == x | none ↦ false ]

-- The loop of the destructor.
unfoldable pub rm_all : (K : Kernel) → Dict ℕ FilePath → K.State → K.State
rm_all K [] k = k
rm_all K ((wd, _) ∷ ws) k = rm_all K ws (K.inotify_rm_watch wd k)

module _ {K : Kernel} where
  unfoldable pub wakeup : Inotify K → Inotify K
  wakeup s = elim s.wakeup_fd [ some _ ↦ record s { wakeups = s.wakeups + 1 } | none ↦ s ]

  -- `start` up to the loop.
  unfoldable pub start : Inotify K → Bool × Inotify K
  start s = elim s.epoll_fd [
    | none ↦ (false, s)
    | some _ ↦ elim s.inotify_fd [
      | none ↦ (false, s)
      | some _ ↦ if s.running then (false, s) else (true, record s { running = true })
    ]
  ]

  unfoldable pub stop : Inotify K → Inotify K
  unfolding wakeup
  stop s = if not s.running then s else wakeup (record s { running = false })

  -- The loop over a buffer. Each round takes 16 bytes at least, so the length is fuel enough; the
  -- first fuel bounds the depth of the trees.
  unfoldable pub process_bytes : ℕ → ℕ → List ℕ → Inotify K → List FileEvent × Inotify K
  unfolding read_event process_event
  process_bytes f zero bytes s = ([], s)
  process_bytes f (suc n) bytes s = elim (read_event bytes) [
    | none ↦ ([], s)
    | some (ev, rest) ↦
        let first = process_event f ev s in
        let more = process_bytes f n rest first.1 in (first.0 ++ more.0, more.1)
  ]

  -- One round of the loop over the descriptors that are ready.
  unfoldable pub serve : ℕ → Ready → Inotify K → List FileEvent × Inotify K
  unfolding process_bytes
  serve f r s =
      if is_fd s.wakeup_fd r.fd
      then ([], record s { wakeups = 0 })
      else if is_fd s.inotify_fd r.fd
      then process_bytes f (length r.buffer) r.buffer s
      else ([], s)

  -- `~InotifyWatcher()`; the closed descriptors are gone.
  unfoldable pub destroy_inotify : Inotify K → Inotify K
  unfolding stop rm_all
  destroy_inotify s =
      let t = if s.running then stop s else s in
      record t {
        kernel = rm_all K t.watch_map t.kernel;
        watch_map = [];
        path_watch_map = [];
        watch_recursive = [];
        root_watches = [];
        wd_to_roots = [];
        epoll_fd = none;
        inotify_fd = none;
        wakeup_fd = none;
      }
