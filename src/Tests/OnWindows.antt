-- ===== src/Tests/OnWindows.antt =====
-- A Windows system that gives each directory the next handle, and texts that are written as they are.
use libfilewatch.Base.{
  ℕ, ◌+◌, ◌≡◌, refl, inr, true, [], ◌∷◌, ◌++◌, All, length, nat_eq, text_eq, arith, none, some,
}
use libfilewatch.Base.Dict
use libfilewatch.Path.{FilePath}
use libfilewatch.Event.{modify, rename, file_event, file_event_from}
use libfilewatch.Encoding.{WideApi, utf8_to_utf16}
use libfilewatch.PathUtils.OnWindows.{normalize_windows}
use libfilewatch.Windows.{
  Win32, Windows, new_windows, issue_read, enter, register, add_watch, remove_watch, start,
  no_rename,
}
use libfilewatch.Windows.Notify.{process_notifications}
use libfilewatch.Windows.Loop.{Packet, on_packet}
use libfilewatch.Windows.Layout.{Change, IsChange, encode}
use libfilewatch.Windows.RoundTrip.{handle, handle_all, process_notifications-encode}
use libfilewatch.Windows.Renames.{IsNoRename, old_type, new_type, path_of, rename_notified}
use libfilewatch.Windows.Items.{IsOwned}
use libfilewatch.Windows.Runs.{added, started, here, next, Reach-IsOwned, freed_item_accessed}

abbrev plain : WideApi
plain = record {
  State = ℕ;
  to_wide = λ t. t ++ 0 ∷ [];
  to_multi_byte = λ t. t ++ 0 ∷ [];
  full_path_name = λ t n. none;
  attributes = λ t n. none;
}

abbrev granting : Win32
granting = record {
  wide = plain;
  create_file = λ p n. (some n, n + 1);
  associate = λ h p k n. (true, n);
  read_changes = λ h r n. (true, n);
  cancel_io = λ h n. n;
  close_handle = λ h n. n;
}

-- "C:"
abbrev drive : FilePath
drive = 67 ∷ 58 ∷ []

abbrev fresh : Windows granting
fresh = new_windows {E = granting} 7 (some 3)

abbrev watched : Windows granting
watched = (add_watch drive true fresh).1

abbrev old_name : Change
old_name = record { action = 4; name = 97 ∷ [] }

abbrev written : Change
written = record { action = 3; name = 98 ∷ 99 ∷ [] }

abbrev new_name : Change
new_name = record { action = 5; name = 100 ∷ [] }

-- The watcher runs.
abbrev running : Windows granting
running = (start watched).1

running-IsOwned : IsOwned running
running-IsOwned =
    Reach-IsOwned {E = granting} 7 (some 3) (next (next here (added drive true)) started)

abbrev late : Packet
late = record {
  ok = true;
  bytes_transferred = 0;
  completion_key = 2;
  has_overlapped = true;
  buffer = [];
}

freed_item_accessed_example :
    (on_packet late (remove_watch drive running).1 ≡ none)
    × (on_packet late (add_watch drive true running).1 ≡ none)
unfolding start add_watch utf8_to_utf16 normalize_windows register issue_read enter nat_eq text_eq
freed_item_accessed_example =
    freed_item_accessed {E = granting} drive true 2 late running running-IsOwned refl refl refl refl
      (inr refl)

changes_fit : All IsChange (old_name ∷ written ∷ new_name ∷ [])
changes_fit = (
  record { action_bound = omega arith; unit_bound = (omega arith, tt) },
  (
    record { action_bound = omega arith; unit_bound = (omega arith, (omega arith, tt)) },
    (record { action_bound = omega arith; unit_bound = (omega arith, tt) }, tt),
  ),
)

process_notifications-encode_example :
    process_notifications drive
      (length (encode old_name (written ∷ new_name ∷ [])))
      (encode old_name (written ∷ new_name ∷ []) ++ 7 ∷ [])
      watched
    ≡ some (handle_all drive (old_name ∷ written ∷ new_name ∷ []) watched)
unfolding nat_eq
process_notifications-encode_example =
    process_notifications-encode {E = granting} drive old_name (written ∷ new_name ∷ []) (7 ∷ [])
      watched changes_fit (omega arith)

path_bound : All IsNoRename (written ∷ [])
path_bound = ((λ e. absurd (omega (arith, e)), λ e. absurd (omega (arith, e))), tt)

rename_notified_example :
    let p = path_of granting drive old_name in
    let q = path_of granting drive new_name in
    let first = handle drive old_name watched in
    let t = (handle_all drive (written ∷ []) first.1).1 in
    let last = handle drive new_name t in
    let k = new_type (old_type p watched) q t in
    (first.0 ≡ file_event modify p (old_type p watched) ∷ [])
    × (Dict.lookup p first.1.known_path_types ≡ none)
    × (last.0 ≡ file_event_from rename q k p (old_type p watched) ∷ [])
    × (Dict.lookup q last.1.known_path_types ≡ some k)
    × (last.1.rename_info ≡ no_rename)
rename_notified_example =
    rename_notified {E = granting} drive old_name new_name (written ∷ []) watched refl refl
      path_bound
