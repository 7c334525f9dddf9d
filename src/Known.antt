-- ===== src/Known.antt =====
-- The paths that the macOS watcher knows (src/core/MacOSWatcher.cpp): `isPathPrefixOf`,
-- `rememberPath`, `forgetPath`, `hasSeenPath`, `getKnownPathType`.
pub mod Forget
use libfilewatch.Base.{
  Bool, true, false, not, ◌&&◌, ◌||◌, List, [], keep, contains, erase, insert, length, get_or,
  is_empty, if◌then◌else◌, leb, Eq, ◌==◌, nat_eq, text_eq, Option,
}
use libfilewatch.Base.Dict
use libfilewatch.Base.Dict.{Dict, lookup}
use libfilewatch.Path.{FilePath, slash, back, has_prefix}
use libfilewatch.Event.{PathType}

pub record Known : Type 0 where
  pub known_paths : List FilePath
  pub known_path_types : Dict FilePath PathType

unfoldable pub is_path_prefix_of : FilePath → FilePath → Bool
is_path_prefix_of parent child =
    if child == parent
    then true
    else if leb (length child) (length parent) || not (has_prefix parent child)
    then false
    else if not (is_empty parent) && back parent == slash
    then true
    else get_or child (length parent) 0 == slash

unfoldable pub remember_path : FilePath → PathType → Known → Known
unfolding Dict.insert
remember_path path path_type s = record {
  known_paths = insert path s.known_paths;
  known_path_types = Dict.insert path path_type s.known_path_types;
}

unfoldable pub forget_path : FilePath → Known → Known
unfolding Dict.erase Dict.retain is_path_prefix_of
forget_path path s = record {
  known_paths = keep (λ q. not (is_path_prefix_of path q)) (erase path s.known_paths);
  known_path_types =
      Dict.retain (λ q _. not (is_path_prefix_of path q)) (Dict.erase path s.known_path_types);
}

abbrev pub has_seen_path : FilePath → Known → Bool
has_seen_path path s = contains s.known_paths path

-- `none` is `false`; else the type that is written to the reference.
abbrev pub get_known_path_type : FilePath → Known → Option PathType
get_known_path_type path s = lookup path s.known_path_types
