-- ===== src/Windows/Runs.antt =====
-- Runs of `WindowsWatcher` (src/core/WindowsWatcher.cpp): calls of the client and packets of the
-- completion port in any order.
use libfilewatch.Base.{
  ℕ, zero, suc, ◌≡◌, ap, ◌∙◌, subst, ◌⊎◌, inl, inr, Bool, true, false, List, [], ◌++◌,
  if◌then◌else◌, ◌&&◌, ◌<◌, ◌+◌, ◌%◌, drop, ltb, ◌==◌, nat_eq, text_eq, Option, none, some,
  Option-cases, arith,
}
use libfilewatch.Base.Dict
use libfilewatch.Base.Dict.{Dict, lookup}
use libfilewatch.Path.{FilePath}
use libfilewatch.Event.{FileEvent}
use libfilewatch.PathUtils.OnWindows.{normalize_windows}
use libfilewatch.Windows.{
  Win32, WatchItem, Windows, new_windows, issue_read, close_item, enter, register, add_watch,
  remove_watch, start, stop,
}
use libfilewatch.Base.Bytes.{◌>>=◌}
use libfilewatch.Windows.Notify.{
  Notification, read_notification, notify, on_added, on_removed, on_modified, on_old_name,
  on_new_name, process_entries, process_notifications,
}
use libfilewatch.Windows.Loop.{Packet, reissue, on_item, on_gone, on_packet}
use libfilewatch.Windows.Items.{
  Same, IsOwned, Same-IsOwned, new-IsOwned, add_watch-IsOwned, remove_watch-IsOwned,
  add_watch_cases, remove_watch_cases, issue_read-Same, lookup-entered,
}

module _ {E : Win32} where
  notify-Same : (base : FilePath) (n : Notification) (s : Windows E) → Same s (notify base n s).1
  unfolding notify on_added on_removed on_modified on_old_name on_new_name
  notify-Same base n s = ground arith

  -- A call without result, or one that leaves the owners alone.
  abbrev EndsSame : Windows E → Option (List FileEvent × Windows E) → Type 0
  EndsSame s o = elim o [ none ↦ Unit {0} | some r ↦ Same s r.1 ]

  entry_Same :
      (done within : Bool) (s : Windows E) (first : List FileEvent × Windows E)
      (rest : Option (List FileEvent × Windows E))
      → Same s first.1
      → EndsSame first.1 rest
      → EndsSame s (
          if done
          then some first
          else if within
          then rest >>= (λ r. some (first.0 ++ r.0, r.1))
          else some first)
  entry_Same true within s first rest a b = a
  entry_Same false false s first rest a b = a
  entry_Same false true s first none a b = tt
  entry_Same false true s first (some r) a b = (b.0 ∙ a.0, b.1 ∙ a.1, b.2 ∙ a.2)

  process_entries-Same :
      (f : ℕ) (base : FilePath) (transferred : ℕ) (buffer : List ℕ) (offset : ℕ) (s : Windows E)
      → EndsSame s (process_entries f base transferred buffer offset s)
  unfolding process_entries
  process_entries-Same zero base transferred buffer offset s = tt
  process_entries-Same (suc f) base transferred buffer offset s =
      elim (Option-cases (read_notification (drop offset buffer))) [
        | inl e ↦ rw e tt
        | inr (n, e) ↦
            let further = (offset + n.next_entry_offset) % 4294967296 in
            rw e (
              entry_Same (n.next_entry_offset == 0) (ltb further transferred) s (notify base n s)
                (process_entries f base transferred buffer further (notify base n s).1)
                (notify-Same base n s)
                (process_entries-Same f base transferred buffer further (notify base n s).1))
      ]

  process_notifications-Same :
      (base : FilePath) (transferred : ℕ) (buffer : List ℕ) (s : Windows E)
      → EndsSame s (process_notifications base transferred buffer s)
  unfolding process_notifications
  process_notifications-Same base transferred buffer s =
      ground (arith, process_entries-Same transferred base transferred buffer 0 s)

  reissue-Same : (item : WatchItem) (s : Windows E) → Same s (reissue item s)
  unfolding reissue
  reissue-Same item s = ground (arith, issue_read-Same item s)

  read_Same :
      (item : WatchItem) (s : Windows E) (o : Option (List FileEvent × Windows E))
      → EndsSame s o
      → EndsSame s (o >>= λ r. some (r.0, reissue item r.1))
  read_Same item s none h = tt
  read_Same item s (some r) h =
      let later = reissue-Same item r.1 in (later.0 ∙ h.0, later.1 ∙ h.1, later.2 ∙ h.2)

  on_item-Same : (item : WatchItem) (p : Packet) (s : Windows E) → EndsSame s (on_item item p s)
  unfolding on_item
  on_item-Same item p s =
      read_Same item s
        (if p.ok && ltb 0 p.bytes_transferred
          then process_notifications item.path p.bytes_transferred p.buffer s
          else some ([], s))
        (ground (arith, process_notifications-Same item.path p.bytes_transferred p.buffer s))

  on_packet-Same : (p : Packet) (s : Windows E) → EndsSame s (on_packet p s)
  unfolding on_packet on_gone
  on_packet-Same p s = elim (Option-cases (lookup p.completion_key s.items)) [
    | inl e ↦ ground arith
    | inr (item, e) ↦ ground (arith, on_item-Same item p s)
  ]

  on_packet-IsOwned :
      (p : Packet) (s : Windows E) (r : List FileEvent × Windows E)
      → on_packet p s ≡ some r
      → IsOwned s
      → IsOwned r.1
  on_packet-IsOwned p s r e o = Same-IsOwned s r.1 (subst (EndsSame s) e (on_packet-Same p s)) o

  -- What may happen next. A packet whose handling has no result takes the run nowhere.
  pub data Step (s : Windows E) : Windows E → Type 0 where
    added : (path : FilePath) (rec : Bool) → Step s (add_watch path rec s).1
    removed : (path : FilePath) → Step s (remove_watch path s).1
    started : Step s (start s).1
    stopped : Step s (stop s)
    packet :
        (p : Packet) (es : List FileEvent) (t : Windows E) → on_packet p s ≡ some (es, t) → Step s t

  pub data Reach (s : Windows E) : Windows E → Type 0 where
    here : Reach s s
    next : {t u : Windows E} → Reach s t → Step t u → Reach s u

  start-Same : (s : Windows E) → Same s (start s).1
  unfolding start
  start-Same s = ground arith

  stop-Same : (s : Windows E) → Same s (stop s)
  unfolding stop
  stop-Same s = ground arith

  Step-IsOwned : {s t : Windows E} → Step s t → IsOwned s → IsOwned t
  Step-IsOwned {s} (added path rec) o = add_watch-IsOwned path rec s o
  Step-IsOwned {s} (removed path) o = remove_watch-IsOwned path s o
  Step-IsOwned {s} started o = Same-IsOwned s _ (start-Same s) o
  Step-IsOwned {s} stopped o = Same-IsOwned s _ (stop-Same s) o
  Step-IsOwned {s} (packet p es t e) o = on_packet-IsOwned p s (es, t) e o

  -- The states that a new watcher comes to.
  pub Reach-IsOwned :
      (k : E.wide.State) (port : Option ℕ) {t : Windows E}
      → Reach (new_windows {E = E} k port) t
      → IsOwned t
  Reach-IsOwned k port here = new-IsOwned k port
  Reach-IsOwned k port (next r st) = Step-IsOwned st (Reach-IsOwned k port r)

  remove_watch-running :
      (path : FilePath) (s : Windows E) → (remove_watch path s).1.running ≡ s.running
  unfolding remove_watch close_item
  remove_watch-running path s = ground arith

  add_watch-running :
      (path : FilePath) (rec : Bool) (s : Windows E) → (add_watch path rec s).1.running ≡ s.running
  unfolding add_watch register issue_read enter
  add_watch-running path rec s = ground arith

  removed_gone :
      (path : FilePath) (a : ℕ) (s : Windows E)
      → IsOwned s
      → lookup (normalize_windows path) s.watches ≡ some a
      → lookup a (remove_watch path s).1.items ≡ none
  removed_gone path a s o w = elim (remove_watch_cases path s o) [
    | inl (e, r) ↦ cc
    | inr (b, e, done, ws, i, n) ↦ ground (arith, Dict.lookup-erase b a s.items)
  ]

  readded_gone :
      (path : FilePath) (rec : Bool) (a : ℕ) (s : Windows E)
      → IsOwned s
      → lookup (normalize_windows path) s.watches ≡ some a
      → (add_watch path rec s).0 ≡ true
      → a < s.next_item
      → lookup a (add_watch path rec s).1.items ≡ none
  readded_gone path rec a s o w done below = elim (add_watch_cases path rec s) [
    | inl (f, same) ↦ cc
    | inr (item, t, at, opened, same, r) ↦
        let norm = normalize_windows path in
        let entered = lookup-entered norm item t a (Same-IsOwned s t same o) in
        ap (λ x. lookup a x.1.items) r ∙ ground arith
  ]

  -- The packet carries changes, or the watcher runs.
  abbrev pub LooksAtItem : Packet → Windows E → Type 0
  LooksAtItem p s = ((p.ok ≡ true) × (0 < p.bytes_transferred)) ⊎ (s.running ≡ true)

  gone_packet :
      (a : ℕ) (p : Packet) (t : Windows E)
      → lookup a t.items ≡ none
      → 1 < a
      → p.completion_key ≡ a
      → p.has_overlapped ≡ true
      → LooksAtItem p t
      → on_packet p t ≡ none
  unfolding on_packet on_gone
  gone_packet a p t e big k o looks = ground arith

  -- If a path is watched, then after it is removed, and also after it is watched once more with
  -- success, the handling of a packet that has an overlapped structure and the key of its item, and
  -- that carries changes or comes while the watcher runs, has no result: the code looks at an item
  -- that is gone.
  pub freed_item_accessed :
      (path : FilePath) (rec : Bool) (a : ℕ) (p : Packet) (s : Windows E)
      → IsOwned s
      → lookup (normalize_windows path) s.watches ≡ some a
      → (add_watch path rec s).0 ≡ true
      → p.completion_key ≡ a
      → p.has_overlapped ≡ true
      → LooksAtItem p s
      → (on_packet p (remove_watch path s).1 ≡ none) × (on_packet p (add_watch path rec s).1 ≡ none)
  freed_item_accessed path rec a p s o w done k l looks =
      let norm = normalize_windows path in
      let (item, at, named, opened) = o.live norm a w in
      let used = o.used a item at in
      (
        gone_packet a p (remove_watch path s).1 (removed_gone path a s o w) used.0 k l
            (ground (arith, remove_watch-running path s)),
        gone_packet a p (add_watch path rec s).1 (readded_gone path rec a s o w done used.1) used.0
            k l (ground (arith, add_watch-running path rec s)),
      )
