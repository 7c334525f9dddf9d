-- ===== src/PathUtils/OnWindows.antt =====
-- `PathUtils` (src/utils/PathUtils.cpp) as it is built on Windows.
use libfilewatch.Base.{
  Bool, true, false, not, map, is_empty, if◌then◌else◌, ◌==◌, nat_eq, Option, none, some,
}
use libfilewatch.Base.Bytes.{c_str}
use libfilewatch.Path.{FilePath, slash, backslash}
use libfilewatch.Encoding.{WideApi, utf8_to_utf16, utf16_to_utf8}

unfoldable pub normalize_windows : FilePath → FilePath
normalize_windows = map (λ c. if c == slash then backslash else c)

module _ (A : WideApi) where
  unfoldable pub get_absolute_path_windows : FilePath → A.State → FilePath
  unfolding utf8_to_utf16 utf16_to_utf8
  get_absolute_path_windows path s =
      let wide = utf8_to_utf16 A path in
      if is_empty wide then path else elim (A.full_path_name wide s) [
        | some buffer ↦ utf16_to_utf8 A (c_str buffer)
        | none ↦ path
      ]

  -- `GetFileAttributesW` of a path, and whether they name a directory.
  abbrev pub attributes_of : FilePath → A.State → Option Bool
  attributes_of path s =
      let wide = utf8_to_utf16 A path in if is_empty wide then none else A.attributes wide s

  unfoldable pub exists_windows : FilePath → A.State → Bool
  unfolding utf8_to_utf16
  exists_windows path s = elim (attributes_of path s) [ some _ ↦ true | none ↦ false ]

  unfoldable pub is_directory_windows : FilePath → A.State → Bool
  unfolding utf8_to_utf16
  is_directory_windows path s = elim (attributes_of path s) [ some d ↦ d | none ↦ false ]

  unfoldable pub is_file_windows : FilePath → A.State → Bool
  unfolding utf8_to_utf16
  is_file_windows path s = elim (attributes_of path s) [ some d ↦ not d | none ↦ false ]
