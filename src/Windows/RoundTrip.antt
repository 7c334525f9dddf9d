-- ===== src/Windows/RoundTrip.antt =====
-- `processNotifications` (src/core/WindowsWatcher.cpp) on buffers as the system writes them.
use libfilewatch.Base.{
  ℕ, zero, suc, ◌+◌, ◌<◌, ◌≡◌, ◌≢◌, refl, sym, ap, ◌∙◌, false, List, [], ◌∷◌, ◌++◌, append_assoc,
  append-nil, All, length, length-append, drop, ◌==◌, nat_eq, some, arith,
}
use libfilewatch.Path.{FilePath}
use libfilewatch.Event.{FileEvent}
use libfilewatch.Windows.{Win32, Windows}
use libfilewatch.Windows.Notify.{
  Notification, read_notification, notify, process_entries, process_notifications,
}
use libfilewatch.Windows.Layout.{
  Change, IsChange, encode, read_body, drop-padded, drop-add, unwrapped, encode_long, encode_longer,
  length-padded, length-body, padded, stride, body, padding,
}

nonzero : (n : ℕ) → 0 < n → (n == 0) ≡ false
nonzero n h = ground arith

module _ {E : Win32} where
  abbrev pub handle : FilePath → Change → Windows E → List FileEvent × Windows E
  handle base c s =
      notify base (record { next_entry_offset = 0; action = c.action; file_name = c.name }) s

  -- The changes in turn.
  abbrev pub handle_all : FilePath → List Change → Windows E → List FileEvent × Windows E
  handle_all base [] s = ([], s)
  handle_all base (c ∷ cs) s =
      let first = handle base c s in
      let rest = handle_all base cs first.1 in (first.0 ++ rest.0, rest.1)

  notify_next :
      (base : FilePath) (n : Notification) (s : Windows E)
      → notify base n s ≡ notify base (record n { next_entry_offset = 0 }) s
  unfolding notify
  notify_next base n s = refl

  entry_last :
      (f : ℕ) (base : FilePath) (transferred offset : ℕ) (buffer : List ℕ) (n : Notification)
      (s : Windows E)
      → read_notification (drop offset buffer) ≡ some n
      → n.next_entry_offset ≡ 0
      → process_entries (suc f) base transferred buffer offset s ≡ some (notify base n s)
  unfolding process_entries
  entry_last f base transferred offset buffer n s e z = rw e (ground arith)

  entry_more :
      (f : ℕ) (base : FilePath) (transferred offset : ℕ) (buffer : List ℕ) (n : Notification)
      (s : Windows E) (p r : List FileEvent × Windows E)
      → read_notification (drop offset buffer) ≡ some n
      → notify base n s ≡ p
      → n.next_entry_offset ≢ 0
      → offset + n.next_entry_offset < transferred
      → transferred < 4294967296
      → process_entries f base transferred buffer (offset + n.next_entry_offset) p.1 ≡ some r
      → process_entries (suc f) base transferred buffer offset s ≡ some (p.0 ++ r.0, r.1)
  unfolding process_entries
  entry_more f base transferred offset buffer n s p r e now z within small rest =
      rw (e, now, unwrapped offset n.next_entry_offset transferred within small, rest)
        (ground arith)

  process-encode :
      (f : ℕ) (base : FilePath) (transferred offset : ℕ) (buffer junk : List ℕ) (c : Change)
      (cs : List Change) (s : Windows E)
      → All IsChange (c ∷ cs)
      → length cs < f
      → drop offset buffer ≡ encode c cs ++ junk
      → transferred ≡ offset + length (encode c cs)
      → transferred < 4294967296
      → process_entries f base transferred buffer offset s ≡ some (handle_all base (c ∷ cs) s)
  process-encode zero base transferred offset buffer junk c cs s h few at e small =
      absurd (omega arith)
  process-encode (suc f) base transferred offset buffer junk c [] s h few at e small =
      let n : Notification = record {
        next_entry_offset = 0;
        action = c.action;
        file_name = c.name;
      } in
      let size = length-body 0 c in
      let found : read_notification (drop offset buffer) ≡ some n =
        rw at (read_body 0 c junk (omega arith) (omega arith) h.0) in
      entry_last f base transferred offset buffer n s found refl
      ∙ ap (λ es. some (es, (handle base c s).1)) (sym (append-nil (handle base c s).0))
  process-encode (suc f) base transferred offset buffer junk c (d ∷ cs) s h few at e small =
      let next : ℕ = stride c in
      let n : Notification = record {
        next_entry_offset = next;
        action = c.action;
        file_name = c.name;
      } in
      let size = length-append (padded next c) (encode d cs) in
      let size2 = length-padded next c in
      let some_bytes = encode_long d cs in
      let bracket : encode c (d ∷ cs) ++ junk ≡ padded next c ++ (encode d cs ++ junk) =
        append_assoc (padded next c) (encode d cs) junk in
      let found : read_notification (drop offset buffer) ≡ some n =
        rw (at ∙ (bracket ∙ append_assoc (body next c) (padding c.name) (encode d cs ++ junk))) (
          read_body next c (padding c.name ++ (encode d cs ++ junk)) (omega arith) (omega arith)
            h.0) in
      let further : drop (offset + next) buffer ≡ encode d cs ++ junk =
        drop-add offset next buffer
        ∙ ap (drop next) (at ∙ bracket)
        ∙ drop-padded next c (encode d cs ++ junk) next refl in
      let rest =
        process-encode f base transferred (offset + next) buffer junk d cs (handle base c s).1 h.1
          (omega arith) further (omega arith) small in
      entry_more f base transferred offset buffer n s (handle base c s) _ found
        (notify_next base n s) (omega arith) (omega arith) small rest

  -- `processNotifications` reads back what the system writes: on a buffer that begins with the entries
  -- of any changes, each padded and pointing to the next, and goes on with anything, it neither reads
  -- behind the entries nor stops early, and does for the changes in turn what the switch does for one.
  pub process_notifications-encode :
      (base : FilePath) (c : Change) (cs : List Change) (junk : List ℕ) (s : Windows E)
      → All IsChange (c ∷ cs)
      → length (encode c cs) < 4294967296
      → process_notifications base (length (encode c cs)) (encode c cs ++ junk) s
        ≡ some (handle_all base (c ∷ cs) s)
  unfolding process_notifications
  process_notifications-encode base c cs junk s h small =
      let bytes = length (encode c cs) in
      let long = encode_long c cs in
      let few = encode_longer c cs in
      rw (nonzero bytes (omega arith)) (
        process-encode bytes base bytes 0 (encode c cs ++ junk) junk c cs s h (omega arith) refl
          (omega arith) small)
