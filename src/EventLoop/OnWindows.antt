-- ===== src/EventLoop/OnWindows.antt =====
-- The loop of `WindowsWatcher` (src/core/WindowsWatcher.cpp).
use libfilewatch.Base.{
  ℕ, zero, suc, ◌+◌, ◌%◌, ◌≡◌, sym, ap, ◌∙◌, inl, inr, true, false, List, [], drop, nat_eq, text_eq,
  Option, some, Option-cases, arith,
}
use libfilewatch.Base.Bytes.{◌>>=◌}
use libfilewatch.Base.Dict.{lookup}
use libfilewatch.Path.{FilePath}
use libfilewatch.Event.{FileEvent}
use libfilewatch.Kqueue.{is_open}
use libfilewatch.Windows.{Win32, WatchItem, Windows, stop, issue_read}
use libfilewatch.Windows.Notify.{
  Notification, notify, read_notification, process_entries, process_notifications, on_added,
  on_removed, on_modified, on_old_name, on_new_name,
}
use libfilewatch.Windows.Loop.{Packet, on_packet, on_item, on_gone, reissue}
use libfilewatch.EventLoop.{Handled, served, after, some_after, EventLoop}

module _ {E : Win32} where
  -- A round of the loop; it has neither a `break` nor a `continue`.
  unfoldable pub handle : Packet → Windows E → Option (Handled (Windows E))
  unfolding on_packet
  handle p s = on_packet p s >>= λ r. some (served r.0 r.1)

  notify-running :
      (base : FilePath) (n : Notification) (s : Windows E) → (notify base n s).1.running ≡ s.running
  unfolding notify on_added on_removed on_modified on_old_name on_new_name
  notify-running base n s = ground arith

  -- Where a loop has a result, it leaves the flag as it was.
  KeepsFlag : Windows E → Option (List FileEvent × Windows E) → Type 0
  KeepsFlag s o = (r : List FileEvent × Windows E) → o ≡ some r → r.1.running ≡ s.running

  process_entries-KeepsFlag :
      (f : ℕ) (base : FilePath) (transferred : ℕ) (buffer : List ℕ) (offset : ℕ) (s : Windows E)
      → KeepsFlag s (process_entries f base transferred buffer offset s)
  unfolding process_entries KeepsFlag
  process_entries-KeepsFlag zero base transferred buffer offset s r e = absurd (ground arith)
  process_entries-KeepsFlag (suc f) base transferred buffer offset s r e =
      elim (Option-cases (read_notification (drop offset buffer))) [
        | inl none_read ↦ ground arith
        | inr (n, read) ↦
            let t = (notify base n s).1 in
            let further = (offset + n.next_entry_offset) % 4294967296 in
            elim (Option-cases (process_entries f base transferred buffer further t)) [
              | inl stuck ↦ ground (arith, notify-running base n s)
              | inr (more, rest) ↦ ground (
                arith,
                notify-running base n s,
                process_entries-KeepsFlag f base transferred buffer further t more rest,
              )
            ]
      ]

  reissue-running : (item : WatchItem) (s : Windows E) → (reissue item s).running ≡ s.running
  unfolding reissue issue_read
  reissue-running item s = ground arith

  on_item-KeepsFlag :
      (item : WatchItem) (p : Packet) (s : Windows E) → KeepsFlag s (on_item item p s)
  unfolding on_item process_notifications KeepsFlag
  on_item-KeepsFlag item p s r e =
      let n = p.bytes_transferred in
      elim (Option-cases (process_entries n item.path n p.buffer 0 s)) [
        | inl stuck ↦ ground (arith, reissue-running item s)
        | inr (x, done) ↦ ground (
          arith,
          reissue-running item s,
          reissue-running item x.1,
          process_entries-KeepsFlag n item.path n p.buffer 0 s x done,
        )
      ]

  on_packet-KeepsFlag : (p : Packet) (s : Windows E) → KeepsFlag s (on_packet p s)
  unfolding on_packet on_gone KeepsFlag
  on_packet-KeepsFlag p s r e = elim (Option-cases (lookup p.completion_key s.items)) [
    | inl gone ↦ ground arith
    | inr (item, at) ↦ ground (arith, on_item-KeepsFlag item p s r)
  ]

  pub handle-running :
      (p : Packet) (s : Windows E) (h : Handled (Windows E))
      → handle p s ≡ some h
      → s.running ≡ false
      → (after h).running ≡ false
  unfolding handle KeepsFlag
  handle-running p s h e r = elim (Option-cases (on_packet p s)) [
    | inl stuck ↦ ground arith
    | inr (x, done) ↦
        some_after (λ t. t.running ≡ false) {h = served x.0 x.1}
          (sym (ap (λ o. o >>= λ y. some (served y.0 y.1)) done) ∙ e)
          (on_packet-KeepsFlag p s x done ∙ r)
  ]

  pub stop-running : (s : Windows E) → (stop s).running ≡ false
  unfolding stop
  stop-running s = ground arith

  pub stop-wakeups :
      (s : Windows E) → s.running ≡ true → is_open s.iocp ≡ true → (stop s).wakeups ≡ s.wakeups + 1
  unfolding stop
  stop-wakeups s r w = ground arith

  -- `watchLoop` of the Windows watcher.
  abbrev pub windows_loop : EventLoop (Windows E)
  windows_loop = record {
    Answer = Packet;
    continues = λ s. s.running;
    handle = handle;
    drain = λ s. ([], s);
    stop = stop;
    wakeups = λ s. s.wakeups;
    can_wake = λ s. is_open s.iocp;
    continues-stop = stop-running;
    continues-handle = handle-running;
    wakeups-stop = stop-wakeups;
  }
