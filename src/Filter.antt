-- ===== src/Filter.antt =====
-- `FileWatcher::Filter` (src/FileWatcher.cpp, include/filewatch/FileWatcher.h). The regular
-- expressions of the C++ library are the parameter `Regex`.
pub mod Extension
pub mod Exclude
pub mod Passes
pub mod Setters
use mathlib.Core.List.{foldl}
use libfilewatch.Base.{
  ℕ, zero, suc, Bool, true, false, not, ◌&&◌, ◌||◌, List, [], ◌∷◌, ◌++◌, length, drop, get_or,
  is_empty, any, if◌then◌else◌, ltb, Eq, ◌==◌, nat_eq, text_eq, Option, none, some,
}
use libfilewatch.Path.{FilePath, slash, dot, back, has_prefix, fix_slashes, normalize_path}
use libfilewatch.Event.{EventType, PathType, file, directory, FileEvent, same_type, same_path_type}

-- What the code uses of `std::regex`. The constructor from a text throws for a text that is no
-- pattern: `compile` is `none` there.
pub record Regex : Type 1 where
  pub Pattern : Type 0
  pub blank : Pattern
  pub compile : FilePath → Option Pattern
  pub search : FilePath → Pattern → Bool
  pub match : FilePath → Pattern → Bool

pub record Filter (X : Regex) : Type 0 where
  pub event_types : List EventType
  pub extensions : List FilePath
  pub path_pattern : X.Pattern
  pub has_path_pattern : Bool
  pub exclude_patterns : List X.Pattern
  pub exclude_paths : List FilePath

-- `path.rfind(c)`; `none` is `npos`.
abbrev pub rfind : ℕ → FilePath → Option ℕ
rfind c [] = none
rfind c (x ∷ p) = elim (rfind c p) [
  | some i ↦ some (suc i)
  | none ↦ if x == c then some 0 else none
]

-- One round of the loop over the fixed paths, on the normalised path of the event.
unfoldable pub excludes : FilePath → FilePath → Bool
excludes x e =
    if e == x
    then true
    else ltb (length x) (length e)
      && has_prefix x e
      && (back x == slash || get_or e (length x) 0 == slash)

-- The test of the extension. A path with no dot fails.
unfoldable pub extension_listed : FilePath → List FilePath → Bool
extension_listed p exts = elim (rfind dot p) [
  | none ↦ false
  | some i ↦ any (λ ext. drop i p == ext) exts
]

module _ {X : Regex} where
  abbrev pub blank_filter : Filter X
  blank_filter = record {
    event_types = [];
    extensions = [];
    path_pattern = X.blank;
    has_path_pattern = false;
    exclude_patterns = [];
    exclude_paths = [];
  }

  unfoldable pub set_event_types : List EventType → Filter X → Filter X
  set_event_types types f = record f { event_types = types }

  unfoldable pub set_extensions : List FilePath → Filter X → Filter X
  set_extensions exts f = record f { extensions = exts }

  unfoldable pub set_path_pattern : FilePath → Filter X → Filter X
  set_path_pattern pattern f = elim (X.compile pattern) [
    | some r ↦ record f { path_pattern = r; has_path_pattern = true }
    | none ↦ record f { has_path_pattern = false }
  ]

  unfoldable pub add_exclude_pattern : FilePath → Filter X → Filter X
  add_exclude_pattern pattern f = elim (X.compile pattern) [
    | some r ↦ record f { exclude_patterns = f.exclude_patterns ++ r ∷ [] }
    | none ↦ f
  ]

  unfoldable pub set_exclude_patterns : List FilePath → Filter X → Filter X
  unfolding add_exclude_pattern
  set_exclude_patterns patterns f =
      foldl (λ g p. add_exclude_pattern p g) (record f { exclude_patterns = [] }) patterns

  unfoldable pub add_exclude_path : FilePath → Filter X → Filter X
  unfolding fix_slashes normalize_path
  add_exclude_path p f =
      if is_empty p
      then f
      else record f { exclude_paths = f.exclude_paths ++ normalize_path (fix_slashes p) ∷ [] }

  unfoldable pub set_exclude_paths : List FilePath → Filter X → Filter X
  unfolding add_exclude_path
  set_exclude_paths paths f =
      foldl (λ g p. add_exclude_path p g) (record f { exclude_paths = [] }) paths

  unfoldable pub passes : Filter X → FileEvent → Bool
  unfolding fix_slashes normalize_path excludes extension_listed
  passes f ev =
      if not (is_empty f.exclude_paths)
        && any (λ x. excludes x (normalize_path (fix_slashes ev.path))) f.exclude_paths
      then false
      else if any (λ r. X.search ev.path r) f.exclude_patterns
      then false
      else if not (is_empty f.event_types) && not (any (same_type ev.event_type) f.event_types)
      then false
      else if (not (is_empty f.extensions) && same_path_type ev.path_type file)
          && not (extension_listed ev.path f.extensions)
      then false
      else if f.has_path_pattern && not (X.match ev.path f.path_pattern)
      then false
      else true
