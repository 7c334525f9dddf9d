-- ===== src/Fanotify.antt =====
-- `FanotifyWatcher` (src/core/FanotifyWatcher.cpp): `addWatch`, `removeWatch`, `start`, `stop`, the
-- destructor, `processEvent` and the loop over a buffer of `struct fanotify_event_metadata`, byte by
-- byte. The kernel is the parameter `FanKernel`. A descriptor of -1 is `none`.
pub mod Reported
use libfilewatch.Base.{
  ℕ, zero, suc, ◌+◌, ◌*◌, ◌/◌, ◌%◌, Bool, true, false, not, ◌&&◌, ◌||◌, List, [], ◌∷◌, ◌++◌, length,
  drop, is_empty, if◌then◌else◌, Eq, ◌==◌, nat_eq, Option, none, some,
}
use libfilewatch.Base.Bytes.{◌>>=◌, read_dword}
use libfilewatch.Path.{FilePath}
use libfilewatch.Inotify.Loop.{Ready, is_fd}
use libfilewatch.Event.{
  EventType, create, modify, delete, PathType, file, directory, FileEvent, file_event,
}

-- `mark` adds or, with false, removes a mark of the mount that a path lies on, and says whether it
-- could. `readlink` is what "/proc/self/fd" says of an event's descriptor, and `fstat_dir` whether that
-- is a directory, if the call does not fail.
pub record FanKernel : Type 1 where
  pub State : Type 0
  pub mark : Bool → FilePath → State → Bool × State
  pub readlink : ℕ → Option FilePath
  pub fstat_dir : ℕ → Option Bool
  pub close_fd : ℕ → State → State

pub record Fanotify (K : FanKernel) : Type 0 where
  pub system : K.State
  pub epoll_fd : Option ℕ
  pub fanotify_fd : Option ℕ
  pub wakeup_fd : Option ℕ
  pub running : Bool
  pub wakeups : ℕ

pub record Metadata : Type 0 where
  pub event_len : ℕ
  pub mask : ℕ
  pub fd : ℕ

-- Of the fields between the length and the mask, and of the last, nothing is used.
unfoldable pub read_metadata : List ℕ → Option Metadata
unfolding read_dword
read_metadata bytes = read_dword bytes >>= λ (len, a). read_dword a >>= λ (_, b).
    read_dword b >>= λ (low, c). read_dword c >>= λ (high, d). read_dword d >>= λ (fd, e).
    read_dword e >>= λ _. some (record { event_len = len; mask = low + high * 4294967296; fd = fd })

abbrev pub has_flag : ℕ → ℕ → Bool
has_flag m w = m / w % 2 == 1

-- The type of the event for a mask, if there is one.
unfoldable pub type_of_mask : ℕ → Option EventType
type_of_mask m =
    if has_flag m 256
    then some create
    else if has_flag m 512
    then some delete
    else if has_flag m 8
    then some modify
    else none

module _ (K : FanKernel) where
  abbrev pub type_of_fd : ℕ → PathType
  type_of_fd fd = elim (K.fstat_dir fd) [
    | none ↦ file
    | some is_dir ↦ if is_dir then directory else file
  ]

module _ {K : FanKernel} where
  -- The constructor, over the three descriptors that it opens.
  abbrev pub new_fanotify : K.State → Option ℕ → Option ℕ → Option ℕ → Fanotify K
  new_fanotify system epoll fan wake = record {
    system = system;
    epoll_fd = epoll;
    fanotify_fd = fan;
    wakeup_fd = wake;
    running = false;
    wakeups = 0;
  }

  unfoldable pub wakeup : Fanotify K → Fanotify K
  wakeup s = elim s.wakeup_fd [ some _ ↦ record s { wakeups = s.wakeups + 1 } | none ↦ s ]

  -- `recursive` is not read.
  unfoldable pub add_watch : FilePath → Bool → Fanotify K → Bool × Fanotify K
  add_watch path recursive s = elim s.fanotify_fd [
    | none ↦ (false, s)
    | some _ ↦ let r = K.mark true path s.system in (r.0, record s { system = r.1 })
  ]

  unfoldable pub remove_watch : FilePath → Fanotify K → Bool × Fanotify K
  remove_watch path s = elim s.fanotify_fd [
    | none ↦ (false, s)
    | some _ ↦ let r = K.mark false path s.system in (r.0, record s { system = r.1 })
  ]

  -- `start` up to the loop.
  unfoldable pub start : Fanotify K → Bool × Fanotify K
  start s = elim s.epoll_fd [
    | none ↦ (false, s)
    | some _ ↦ elim s.fanotify_fd [
      | none ↦ (false, s)
      | some _ ↦ if s.running then (false, s) else (true, record s { running = true })
    ]
  ]

  unfoldable pub stop : Fanotify K → Fanotify K
  unfolding wakeup
  stop s = if not s.running then s else wakeup (record s { running = false })

  -- `~FanotifyWatcher()`; the closed descriptors are gone.
  unfoldable pub destroy_fanotify : Fanotify K → Fanotify K
  unfolding stop
  destroy_fanotify s = record (stop s) { epoll_fd = none; fanotify_fd = none; wakeup_fd = none }

  unfoldable pub process_event : Metadata → Fanotify K → List FileEvent × Fanotify K
  unfolding type_of_mask
  process_event m s = elim (K.readlink m.fd) [
    | none ↦ ([], s)
    | some path ↦
        let closed = record s { system = K.close_fd m.fd s.system } in
        elim (type_of_mask m.mask) [
          | none ↦ ([], closed)
          | some t ↦ (file_event t path (type_of_fd K m.fd) ∷ [], closed)
        ]
  ]

  -- The loop over a buffer. No result is a read behind the buffer, or a loop that outlasts the fuel,
  -- as it does where a length is 0; any other round takes a byte at least.
  unfoldable pub process_bytes : ℕ → List ℕ → Fanotify K → Option (List FileEvent × Fanotify K)
  unfolding read_metadata process_event
  process_bytes zero bytes s = if is_empty bytes then some ([], s) else none
  process_bytes (suc n) bytes s =
      if is_empty bytes
      then some ([], s)
      else read_metadata bytes >>= λ m.
          let first = process_event m s in
          process_bytes n (drop m.event_len bytes) first.1 >>= λ more.
          some (first.0 ++ more.0, more.1)

  unfoldable pub read_buffer : List ℕ → Fanotify K → Option (List FileEvent × Fanotify K)
  unfolding process_bytes
  read_buffer bytes s = process_bytes (length bytes) bytes s

  -- One round of the loop over the descriptors that are ready.
  unfoldable pub serve : Ready → Fanotify K → Option (List FileEvent × Fanotify K)
  unfolding read_buffer
  serve r s =
      if is_fd s.wakeup_fd r.fd
      then some ([], record s { wakeups = 0 })
      else if is_fd s.fanotify_fd r.fd
      then read_buffer r.buffer s
      else some ([], s)
