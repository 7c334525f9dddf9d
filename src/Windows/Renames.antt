-- ===== src/Windows/Renames.antt =====
-- The two notifications of a rename (src/core/WindowsWatcher.cpp).
use libfilewatch.Base.{
  ◌≡◌, ◌≢◌, refl, ◌∙◌, List, [], ◌∷◌, All, if◌then◌else◌, nat_eq, text_eq, none, some, arith,
}
use libfilewatch.Base.Dict
use libfilewatch.Base.Dict.{lookup}
use libfilewatch.Path.{FilePath}
use libfilewatch.Event.{
  modify, rename, PathType, directory, file_event, file_event_from, same_path_type,
}
use libfilewatch.Encoding.{utf16_to_utf8}
use libfilewatch.Windows.{Win32, RenameInfo, Windows, join_windows_path, no_rename}
use libfilewatch.Windows.Notify.{
  notify, on_added, on_removed, on_modified, on_old_name, on_new_name, stat_type, is_directory,
}
use libfilewatch.Windows.Layout.{Change}
use libfilewatch.Windows.RoundTrip.{handle, handle_all}

abbrev pub IsNoRename : Change → Type 0
IsNoRename c = (c.action ≢ 4) × (c.action ≢ 5)

abbrev pub path_of : (E : Win32) → FilePath → Change → FilePath
path_of E base c = join_windows_path base (utf16_to_utf8 E.wide c.name)

module _ {E : Win32} where
  -- The type that the code takes for a path that gets another name.
  abbrev pub old_type : FilePath → Windows E → PathType
  old_type path s = elim (lookup path s.known_path_types) [ some k ↦ k | none ↦ stat_type path s ]

  abbrev pub new_type : PathType → FilePath → Windows E → PathType
  new_type t path s =
      if same_path_type t directory then directory else if is_directory path s then directory else t

  handle-rename_info :
      (base : FilePath) (c : Change) (s : Windows E)
      → IsNoRename c
      → (handle base c s).1.rename_info ≡ s.rename_info
  unfolding notify on_added on_removed on_modified
  handle-rename_info base c s h = ground arith

  handle_all-rename_info :
      (base : FilePath) (cs : List Change) (s : Windows E)
      → All IsNoRename cs
      → (handle_all base cs s).1.rename_info ≡ s.rename_info
  handle_all-rename_info base [] s h = refl
  handle_all-rename_info base (c ∷ cs) s h =
      handle_all-rename_info base cs _ h.1 ∙ handle-rename_info base c s h.0

  handle_old :
      (base : FilePath) (c : Change) (s : Windows E)
      → c.action ≡ 4
      → let p = path_of E base c in
        ((handle base c s).0 ≡ file_event modify p (old_type p s) ∷ [])
        × ((handle base c s).1.rename_info ≡ record { old_path = p; old_path_type = old_type p s })
        × (lookup p (handle base c s).1.known_path_types ≡ none)
  unfolding notify on_old_name
  handle_old base c s e =
      let p = path_of E base c in ground (arith, Dict.lookup-erase p p s.known_path_types)

  handle_new :
      (base : FilePath) (c : Change) (s : Windows E) (i : RenameInfo)
      → c.action ≡ 5
      → s.rename_info ≡ i
      → let q = path_of E base c in
        let t = new_type i.old_path_type q s in
        ((handle base c s).0 ≡ file_event_from rename q t i.old_path i.old_path_type ∷ [])
        × ((handle base c s).1.rename_info ≡ no_rename)
        × (lookup q (handle base c s).1.known_path_types ≡ some t)
  unfolding notify on_new_name
  handle_new base c s i e k =
      let q = path_of E base c in
      ground (arith, Dict.lookup-insert q q (new_type i.old_path_type q s) s.known_path_types)

  -- When the old name of a rename is followed by its new name, with no other rename between them, the
  -- rename is reported once, from the old path to the new one, with the type that the old path was
  -- known with or has, and as a directory also if the new path is one; the new path is known with
  -- that type and nothing of the rename is kept. But the old name alone is reported, too, as a
  -- modification of the old path, which is not known any more.
  pub rename_notified :
      (base : FilePath) (old new : Change) (cs : List Change) (s : Windows E)
      → old.action ≡ 4
      → new.action ≡ 5
      → All IsNoRename cs
      → let p = path_of E base old in
        let q = path_of E base new in
        let first = handle base old s in
        let t = (handle_all base cs first.1).1 in
        let last = handle base new t in
        let k = new_type (old_type p s) q t in
        (first.0 ≡ file_event modify p (old_type p s) ∷ [])
        × (lookup p first.1.known_path_types ≡ none)
        × (last.0 ≡ file_event_from rename q k p (old_type p s) ∷ [])
        × (lookup q last.1.known_path_types ≡ some k)
        × (last.1.rename_info ≡ no_rename)
  rename_notified base old new cs s eo en h =
      let p = path_of E base old in
      let info : RenameInfo = record { old_path = p; old_path_type = old_type p s } in
      let first = handle_old base old s eo in
      let last =
        handle_new base new _ info en
          (handle_all-rename_info base cs (handle base old s).1 h ∙ first.1) in
      (first.0, first.2, last.0, last.2, last.1)
