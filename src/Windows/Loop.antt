-- ===== src/Windows/Loop.antt =====
-- The event loop of `WindowsWatcher` (src/core/WindowsWatcher.cpp): what it does with one packet of
-- the completion port.
use libfilewatch.Base.{
  ℕ, Bool, not, ◌&&◌, ◌||◌, List, [], if◌then◌else◌, ltb, ◌==◌, nat_eq, text_eq, Option, none, some,
}
use libfilewatch.Base.Dict.{lookup}
use libfilewatch.Event.{FileEvent}
use libfilewatch.Windows.{Win32, WatchItem, Windows, issue_read, wakeup_key}
use libfilewatch.Base.Bytes.{◌>>=◌}
use libfilewatch.Windows.Notify.{process_notifications}

-- What `GetQueuedCompletionStatus` hands over. Of the overlapped structure the code reads only
-- whether it is there; `buffer` is what the buffer of the item holds.
pub record Packet : Type 0 where
  pub ok : Bool
  pub bytes_transferred : ℕ
  pub completion_key : ℕ
  pub has_overlapped : Bool
  pub buffer : List ℕ

module _ {E : Win32} where
  -- The directory is watched again.
  unfoldable pub reissue : WatchItem → Windows E → Windows E
  unfolding issue_read
  reissue item s = elim item.h_dir [
    | none ↦ s
    | some _ ↦ if s.running then (issue_read item s).1 else s
  ]

  -- No result is an access to an item that is gone, or one behind its buffer.
  unfoldable pub on_item : WatchItem → Packet → Windows E → Option (List FileEvent × Windows E)
  unfolding process_notifications reissue
  on_item item p s =
      let found =
        if p.ok && ltb 0 p.bytes_transferred
        then process_notifications item.path p.bytes_transferred p.buffer s
        else some ([], s) in
      found >>= λ r. some (r.0, reissue item r.1)

  -- A packet whose key is the address of an item that is gone: the code looks at the item if the
  -- packet carries changes, or else if the watcher runs.
  unfoldable pub on_gone : Packet → Windows E → Option (List FileEvent × Windows E)
  on_gone p s = if p.ok && ltb 0 p.bytes_transferred || s.running then none else some ([], s)

  unfoldable pub on_packet : Packet → Windows E → Option (List FileEvent × Windows E)
  unfolding on_item on_gone
  on_packet p s =
      let reached =
        elim (lookup p.completion_key s.items) as (λ _. Option (List FileEvent × Windows E)) [
          | none ↦ on_gone p s
          | some item ↦ on_item item p s
        ] in
      if not p.ok && not p.has_overlapped
      then some ([], s)
      else if p.completion_key == wakeup_key
      then some ([], s)
      else if not (p.completion_key == 0) && p.has_overlapped
      then reached
      else some ([], s)
