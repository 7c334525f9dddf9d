-- ===== src/Encoding.antt =====
-- `EncodingUtils` (src/utils/EncodingUtils.cpp) as it is built on Windows. The conversions of the
-- Windows API are the parameter `WideApi`.
use libfilewatch.Base.{
  ℕ, ◌-◌, Bool, Option, List, [], take, length, is_empty, if◌then◌else◌, nat_eq,
}
use libfilewatch.Base.Bytes.{c_str}
use libfilewatch.Path.{FilePath}

-- What `MultiByteToWideChar` and `WideCharToMultiByte` write for a text that ends in a null, the null
-- included; nothing where they fail, so that the length they answer is 0. `full_path_name` is what
-- `GetFullPathNameW` writes, and `attributes` is whether a path is a directory, for one that has
-- attributes; both are read in a state of the file system.
pub record WideApi : Type 1 where
  pub State : Type 0
  pub to_wide : FilePath → List ℕ
  pub to_multi_byte : List ℕ → FilePath
  pub full_path_name : List ℕ → State → Option (List ℕ)
  pub attributes : List ℕ → State → Option Bool

-- `std::wstring utf16(length - 1)`, filled with what is written there.
abbrev pub drop_null : List ℕ → List ℕ
drop_null written = if is_empty written then [] else take (length written - 1) written

module _ (A : WideApi) where
  unfoldable pub utf8_to_utf16 : FilePath → List ℕ
  utf8_to_utf16 utf8 = if is_empty utf8 then [] else drop_null (A.to_wide (c_str utf8))

  unfoldable pub utf16_to_utf8 : List ℕ → FilePath
  utf16_to_utf8 utf16 = if is_empty utf16 then [] else drop_null (A.to_multi_byte (c_str utf16))

  unfoldable pub ensure_windows_path_encoding : FilePath → FilePath
  unfolding utf8_to_utf16 utf16_to_utf8
  ensure_windows_path_encoding path = utf16_to_utf8 (utf8_to_utf16 path)
