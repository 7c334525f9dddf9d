-- ===== src/Windows/Notify.antt =====
-- `processNotifications` (src/core/WindowsWatcher.cpp): a buffer of `FILE_NOTIFY_INFORMATION`, byte
-- by byte, and the switch over the actions. A number in the buffer has its low byte first.
use libfilewatch.Base.{
  ℕ, zero, suc, ◌+◌, ◌*◌, ◌/◌, ◌%◌, Bool, List, [], ◌∷◌, ◌++◌, drop, if◌then◌else◌, ltb, ◌==◌,
  nat_eq, text_eq, Option, none, some,
}
use libfilewatch.Base.Bytes.{◌>>=◌, read_dword}
use libfilewatch.Base.Dict
use libfilewatch.Base.Dict.{Dict, lookup}
use libfilewatch.Path.{FilePath}
use libfilewatch.Event.{
  create, modify, delete, rename, PathType, file, directory, FileEvent, file_event, file_event_from,
  same_path_type,
}
use libfilewatch.Encoding.{utf16_to_utf8}
use libfilewatch.PathUtils.OnWindows.{is_directory_windows, normalize_windows}
use libfilewatch.Windows.{Win32, Windows, join_windows_path, no_rename}

pub record Notification : Type 0 where
  pub next_entry_offset : ℕ
  pub action : ℕ
  pub file_name : List ℕ

-- `std::wstring(FileName, count)`
unfoldable pub read_units : ℕ → List ℕ → Option (List ℕ)
read_units zero r = some []
read_units (suc n) (a ∷ b ∷ r) =
    let rest = read_units n r in elim rest [ some us ↦ some ((a + b * 256) ∷ us) | none ↦ none ]
read_units (suc n) _ = none

-- The entry that the bytes begin with. Its length of the name counts bytes.
unfoldable pub read_notification : List ℕ → Option Notification
unfolding read_dword read_units
read_notification bytes = do
  (next, r) ← read_dword bytes
  (act, q) ← read_dword r
  (size, p) ← read_dword q
  name ← read_units (size / 2) p
  some (record { next_entry_offset = next; action = act; file_name = name })

abbrev pub type_or_file : Option PathType → PathType
type_or_file o = elim o [ some t ↦ t | none ↦ file ]

module _ {E : Win32} where
  abbrev pub is_directory : FilePath → Windows E → Bool
  is_directory path s = is_directory_windows E.wide path s.system

  abbrev pub stat_type : FilePath → Windows E → PathType
  stat_type path s = if is_directory path s then directory else file

  -- The case of each action: what the callback is called with, and the state.
  unfoldable pub on_added : FilePath → Windows E → List FileEvent × Windows E
  unfolding Dict.insert is_directory_windows
  on_added path s =
      let t = stat_type path s in
      (
        file_event create path t ∷ [],
        record s { known_path_types = Dict.insert path t s.known_path_types },
      )

  unfoldable pub on_removed : FilePath → Windows E → List FileEvent × Windows E
  unfolding Dict.erase
  on_removed path s = (
    file_event delete path (type_or_file (lookup path s.known_path_types)) ∷ [],
    record s { known_path_types = Dict.erase path s.known_path_types },
  )

  unfoldable pub on_modified : FilePath → Windows E → List FileEvent × Windows E
  on_modified path s =
      (file_event modify path (type_or_file (lookup path s.known_path_types)) ∷ [], s)

  unfoldable pub on_old_name : FilePath → Windows E → List FileEvent × Windows E
  unfolding Dict.erase is_directory_windows
  on_old_name path s =
      let t : PathType = elim (lookup path s.known_path_types) [
        | some k ↦ k
        | none ↦ stat_type path s
      ] in
      (
        file_event modify path t ∷ [],
        record s {
          known_path_types = Dict.erase path s.known_path_types;
          rename_info = record { old_path = path; old_path_type = t };
        },
      )

  unfoldable pub on_new_name : FilePath → Windows E → List FileEvent × Windows E
  unfolding Dict.insert is_directory_windows
  on_new_name path s =
      let old = s.rename_info in
      let t =
        if same_path_type old.old_path_type directory
        then directory
        else if is_directory path s
        then directory
        else old.old_path_type in
      (
        file_event_from rename path t old.old_path old.old_path_type ∷ [],
        record s {
          known_path_types = Dict.insert path t s.known_path_types;
          rename_info = no_rename;
        },
      )

  unfoldable pub notify : FilePath → Notification → Windows E → List FileEvent × Windows E
  unfolding on_added on_removed on_modified on_old_name on_new_name utf16_to_utf8 normalize_windows
  notify base n s =
      let path = join_windows_path base (utf16_to_utf8 E.wide n.file_name) in
      if n.action == 1
      then on_added path s
      else if n.action == 2
      then on_removed path s
      else if n.action == 3
      then on_modified path s
      else if n.action == 4
      then on_old_name path s
      else if n.action == 5
      then on_new_name path s
      else (file_event modify path file ∷ [], s)

  -- The loop over the entries. No result is a read behind the buffer, or a loop that outlasts the
  -- fuel.
  unfoldable pub process_entries :
      ℕ → FilePath → ℕ → List ℕ → ℕ → Windows E → Option (List FileEvent × Windows E)
  unfolding notify read_notification
  process_entries zero base transferred buffer offset s = none
  process_entries (suc f) base transferred buffer offset s =
      read_notification (drop offset buffer) >>= λ n.
      let first = notify base n s in
      let further = (offset + n.next_entry_offset) % 4294967296 in
      let rest = process_entries f base transferred buffer further first.1 in
      if n.next_entry_offset == 0
      then some first
      else if ltb further transferred
      then rest >>= (λ r. some (first.0 ++ r.0, r.1))
      else some first

  unfoldable pub process_notifications :
      FilePath → ℕ → List ℕ → Windows E → Option (List FileEvent × Windows E)
  unfolding process_entries
  process_notifications base transferred buffer s =
      if transferred == 0
      then some ([], s)
      else process_entries transferred base transferred buffer 0 s
