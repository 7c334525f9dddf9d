-- ===== src/Known/Forget.antt =====
-- `isPathPrefixOf` and `forgetPath` (src/core/MacOSWatcher.cpp): which paths are known afterwards.
use libfilewatch.Base.{
  ℕ, ◌≡◌, refl, ◌↔◌, ◌⊎◌, inl, inr, Bool, true, not, ◌&&◌, List, [], ◌∷◌, ◌++◌, keep, contains,
  erase, if◌then◌else◌, nat_eq, text_eq, none, Option-cases, arith,
}
use libfilewatch.Base.Dict
use libfilewatch.Base.Dict.{Dict, lookup, Unique}
use libfilewatch.Path.{FilePath, slash, back}
use libfilewatch.Event.{PathType}
use libfilewatch.Filter.{excludes}
use libfilewatch.Filter.Exclude.{excludes_iff}
use libfilewatch.Known.{Known, is_path_prefix_of, forget_path, has_seen_path, get_known_path_type}

-- The filter's test for a fixed path is the same.
is_path_prefix_of-excludes : (p q : FilePath) → is_path_prefix_of p q ≡ excludes p q
unfolding is_path_prefix_of excludes
is_path_prefix_of-excludes [] q = ground arith
is_path_prefix_of-excludes (x ∷ p) q = ground arith

-- A path is a prefix of another exactly when the other is the path itself, or the path followed by a
-- byte and a rest, where the byte is a slash or the path ends in one.
pub is_path_prefix_of_iff :
    (p q : FilePath)
    → (is_path_prefix_of p q ≡ true) ↔ (
        (q ≡ p)
        ⊎ ((c : ℕ) × (rest : FilePath) × (q ≡ p ++ c ∷ rest) × ((back p ≡ slash) ⊎ (c ≡ slash))))
is_path_prefix_of_iff p q = rw (is_path_prefix_of-excludes p q) (excludes_iff p q)

prefix_self : (p : FilePath) → is_path_prefix_of p p ≡ true
unfolding is_path_prefix_of
prefix_self p = ground arith

contains-forgotten :
    (t : FilePath → Bool) (p q : FilePath) (xs : List FilePath)
    → t p ≡ true
    → contains (keep (λ x. not (t x)) (erase p xs)) q ≡ (contains xs q && not (t q))
contains-forgotten t p q [] h = refl
contains-forgotten t p q (x ∷ xs) h = ground (arith, contains-forgotten t p q xs h)

lookup-forgotten :
    (t : FilePath → Bool) (p q : FilePath) (d : Dict FilePath PathType)
    → Unique d
    → t p ≡ true
    → lookup q (Dict.retain (λ x _. not (t x)) (Dict.erase p d))
      ≡ (if t q then none else lookup q d)
lookup-forgotten t p q d u h = elim (Option-cases (lookup q (Dict.erase p d))) [
  | inl e ↦ ground (
    arith,
    Dict.lookup-retain-none (λ x _. not (t x)) q (Dict.erase p d) e,
    Dict.lookup-erase p q d,
  )
  | inr (k, e) ↦ ground (
    arith,
    Dict.lookup-retain (λ x _. not (t x)) q (Dict.erase p d) k (Dict.erase-Unique p d u) e,
    Dict.lookup-erase p q d,
  )
]

-- If no path has two types, to forget a path is to forget it and what lies below it, and nothing
-- else: any other path is known afterwards exactly if it was, and with the same type.
pub forget_path_lem :
    (p q : FilePath) (s : Known)
    → Unique s.known_path_types
    → (has_seen_path q (forget_path p s) ≡ (has_seen_path q s && not (is_path_prefix_of p q)))
      × (get_known_path_type q (forget_path p s)
          ≡ (if is_path_prefix_of p q then none else get_known_path_type q s))
unfolding forget_path
forget_path_lem p q s u = (
  contains-forgotten (is_path_prefix_of p) p q s.known_paths (prefix_self p),
  lookup-forgotten (is_path_prefix_of p) p q s.known_path_types u (prefix_self p),
)
