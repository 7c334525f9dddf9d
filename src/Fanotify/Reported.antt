-- ===== src/Fanotify/Reported.antt =====
-- What a buffer of events leads to in `FanotifyWatcher` (src/core/FanotifyWatcher.cpp).
use libfilewatch.Base.{ℕ, ◌<◌, List, [], ◌∷◌, ◌++◌, nat_eq, Option, none, some}
use libfilewatch.Base.Bytes.{dword}
use libfilewatch.Event.{FileEvent, file_event}
use libfilewatch.Fanotify.{FanKernel, Fanotify, Metadata, type_of_mask, type_of_fd}

-- An event as the kernel gives it: a mask of 32 bits, a descriptor and a process.
pub record Given : Type 0 where
  pub mask : ℕ
  pub fd : ℕ
  pub pid : ℕ

pub record IsGiven (g : Given) : Type 0 where
  pub mask_bound : g.mask < 4294967296
  pub fd_bound : g.fd < 4294967296
  pub pid_bound : g.pid < 4294967296

-- The version of the layout, a reserved byte, and the length of an event in two bytes.
abbrev metadata_head : List ℕ
metadata_head = 3 ∷ 0 ∷ 24 ∷ 0 ∷ []

-- `struct fanotify_event_metadata`: 24 bytes, with a mask of 64 bits whose upper half is not in use.
abbrev pub encode_given : Given → List ℕ
encode_given g = dword 24 ++ metadata_head ++ dword g.mask ++ dword 0 ++ dword g.fd ++ dword g.pid

abbrev pub encode_all : List Given → List ℕ
encode_all [] = []
encode_all (g ∷ gs) = encode_given g ++ encode_all gs

module _ (K : FanKernel) where
  -- The event for a descriptor that names a path, with a mask that has a type.
  abbrev pub event_for : Given → Option FileEvent
  event_for g = elim (K.readlink g.fd) [
    | none ↦ none
    | some path ↦ elim (type_of_mask g.mask) [
      | none ↦ none
      | some t ↦ some (file_event t path (type_of_fd K g.fd))
    ]
  ]

  abbrev pub reported : List Given → List FileEvent
  reported [] = []
  reported (g ∷ gs) = elim (event_for g) [ none ↦ reported gs | some ev ↦ ev ∷ reported gs ]

  -- The descriptors that name a path, closed in turn.
  abbrev pub close_named : List Given → K.State → K.State
  close_named [] k = k
  close_named (g ∷ gs) k = elim (K.readlink g.fd) [
    | none ↦ close_named gs k
    | some _ ↦ close_named gs (K.close_fd g.fd k)
  ]

abbrev metadata_of : Given → Metadata
metadata_of g = record { event_len = 24; mask = g.mask; fd = g.fd }
