-- ===== src/Path.antt =====
-- Paths as byte strings. The trailing-slash loop is the one of `InotifyWatcher::normalizePath`
-- (src/core/InotifyWatcher.cpp) that src/FileWatcher.cpp repeats in three places;
-- `is_path_under_watch` is `FileWatcher::Impl::isPathUnderWatch`.
pub mod Normal
pub mod Prefix
pub mod Under
use libfilewatch.Base.{
  ℕ, zero, suc, ◌+◌, Bool, true, false, not, ◌&&◌, List, [], ◌∷◌, map, length, take, drop, get_or,
  is_empty, any, if◌then◌else◌, ltb, leb, Eq, ◌==◌, nat_eq, text_eq,
}

abbrev pub FilePath : Type 0
FilePath = List ℕ

abbrev pub slash : ℕ
slash = b'/'

abbrev pub backslash : ℕ
backslash = 92

abbrev pub dot : ℕ
dot = b'.'

-- `std::replace(p.begin(), p.end(), '\\', '/')`
unfoldable pub fix_slashes : FilePath → FilePath
fix_slashes = map (λ c. if c == backslash then slash else c)

-- `p.back()`
abbrev pub back : FilePath → ℕ
back [] = 0
back (x ∷ []) = x
back (x ∷ y ∷ r) = back (y ∷ r)

-- `p.pop_back()`
abbrev pub pop_back : FilePath → FilePath
pop_back [] = []
pop_back (x ∷ []) = []
pop_back (x ∷ y ∷ r) = x ∷ pop_back (y ∷ r)

-- The test `p.size() > 1 && p.back() == '/'`.
abbrev pub has_trailing_slash : FilePath → Bool
has_trailing_slash p = ltb 1 (length p) && back p == slash

-- `while (p.size() > 1 && p.back() == '/') p.pop_back();` with fuel: each round shortens `p`.
unfoldable pub strip_loop : ℕ → FilePath → FilePath
strip_loop zero p = p
strip_loop (suc f) p =
    let rest = strip_loop f (pop_back p) in if has_trailing_slash p then rest else p

unfoldable pub normalize_path : FilePath → FilePath
unfolding strip_loop
normalize_path p = strip_loop (length p) p

-- `e.compare(0, w.size(), w) == 0`
abbrev pub has_prefix : FilePath → FilePath → Bool
has_prefix w e = take (length w) e == w

-- The tests on the normalised paths: `w` is watched, `e` is the event's path.
unfoldable pub under : FilePath → FilePath → Bool → Bool
under w e recursive =
    if e == w
    then true
    else if leb (length e) (length w)
    then false
    else if not (has_prefix w e)
    then false
    else if not (get_or e (length w) 0 == slash)
    then false
    else if recursive
    then true
    else not (any (λ c. c == slash) (drop (suc (length w)) e))

unfoldable pub is_path_under_watch : FilePath → FilePath → Bool → Bool
unfolding fix_slashes normalize_path under
is_path_under_watch watch_path event_path recursive =
    if is_empty watch_path
    then false
    else under (normalize_path (fix_slashes watch_path)) (fix_slashes event_path) recursive
