-- ===== src/Tests/Paths.antt =====
-- The paths (src/FileWatcher.cpp) on concrete input.
use libfilewatch.Base.{◌≡◌, ◌↔◌, ◌≢◌, true, false, [], ◌∷◌, nat_eq, text_eq}
use libfilewatch.Path.{FilePath, fix_slashes, normalize_path, is_path_under_watch}
use libfilewatch.Path.Under.{IsUnder, is_path_under_watch_iff}

-- "/a/" and "/a/b"
abbrev watched : FilePath
watched = 47 ∷ 97 ∷ 47 ∷ []

abbrev touched : FilePath
touched = 47 ∷ 97 ∷ 47 ∷ 98 ∷ []

is_path_under_watch_iff_example :
    (is_path_under_watch watched touched false ≡ true)
    ↔ ((watched ≢ []) × IsUnder (normalize_path (fix_slashes watched)) (fix_slashes touched) false)
is_path_under_watch_iff_example = is_path_under_watch_iff watched touched false
