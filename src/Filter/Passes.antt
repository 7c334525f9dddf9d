-- ===== src/Filter/Passes.antt =====
-- What passes a filter, stated without its loops.
use libfilewatch.Base.{
  ◌≡◌, refl, ◌↔◌, ◌⊎◌, inl, inr, List, [], ◌∷◌, In, any, is_empty, Bool, true, false, arith,
  if◌then◌else◌, not, ◌&&◌,
}
use libfilewatch.Path.{FilePath, fix_slashes, normalize_path}
use libfilewatch.Event.{
  EventType, PathType, file, directory, FileEvent, same_type, same_path_type, same_type_iff,
}
use libfilewatch.Filter.{Regex, Filter, excludes, extension_listed, passes}
use libfilewatch.Filter.Extension.{HasExtension, extension_listed_iff}
use libfilewatch.Filter.Exclude.{IsExcluded, excludes_iff}

any_none :
    {A : Type 0} (p : A → Bool) (xs : List A) (x : A) → any p xs ≡ false → In x xs → p x ≡ false
any_none p [] x h m = absurd m
any_none p (y ∷ xs) x h m = ground (arith, any_none p xs x)

none_any :
    {A : Type 0} (p : A → Bool) (xs : List A) → ((x : A) → In x xs → p x ≡ false) → any p xs ≡ false
none_any p [] h = refl
none_any p (y ∷ xs) h = ground (arith, h y, none_any p xs (λ x m. h x (inr m)))

any-same_type_iff : (t : EventType) (ts : List EventType) → (any (same_type t) ts ≡ true) ↔ In t ts
any-same_type_iff t [] = (λ h. cc, λ h. absurd h)
any-same_type_iff t (u ∷ ts) = ground (arith, any-same_type_iff t ts, same_type_iff t u)

all_false :
    (a b c d e : Bool)
    → ((if a
          then false
          else if b
          then false
          else if c
          then false
          else if d
          then false
          else if e
          then false
          else true)
        ≡ true)
      ↔ ((a ≡ false) × (b ≡ false) × (c ≡ false) × (d ≡ false) × (e ≡ false))
all_false a b c d e = ground arith

-- The loop over an empty list is skipped.
unguarded :
    {A : Type 0} (p : A → Bool) (xs : List A)
    → (not (is_empty xs) && any p xs) ≡ false
    → any p xs ≡ false
unguarded p [] h = refl
unguarded p (x ∷ xs) h = h

guarded :
    {A : Type 0} (p : A → Bool) (xs : List A)
    → any p xs ≡ false
    → (not (is_empty xs) && any p xs) ≡ false
guarded p [] h = refl
guarded p (x ∷ xs) h = h

either :
    (t : EventType) (ts : List EventType)
    → ((not (is_empty ts) && not (any (same_type t) ts)) ≡ false) ↔ ((ts ≡ []) ⊎ In t ts)
either t [] = (λ h. inl refl, λ h. refl)
either t (u ∷ ts) = ground (arith, any-same_type_iff t (u ∷ ts))

extended :
    (p : FilePath) (k : PathType) (exts : List FilePath)
    → (((not (is_empty exts) && same_path_type k file) && not (extension_listed p exts)) ≡ false)
      ↔ ((exts ≡ []) ⊎ (k ≡ directory) ⊎ ((ext : FilePath) × HasExtension p ext × In ext exts))
extended p k [] = (λ h. inl refl, λ h. refl)
extended p directory (x ∷ exts) = (λ h. inr (inl refl), λ h. refl)
extended p file (x ∷ exts) = (
  λ h. inr (inr ((extension_listed_iff p (x ∷ exts)).0 (ground arith))),
  elim [
    | inl e ↦ cc
    | inr (inl e) ↦ cc
    | inr (inr w) ↦ let listed = (extension_listed_iff p (x ∷ exts)).1 w in ground arith
  ],
)

required : (a b : Bool) → ((a && not b) ≡ false) ↔ (a ≡ true → b ≡ true)
required a b = ground arith

module _ {X : Regex} (f : Filter X) (ev : FileEvent) where
  -- The five stages in words: no fixed path excludes the event, no exclusion pattern is found in its
  -- path, its type is listed if types are, the extension of a file is listed if extensions are, and
  -- the whole path matches the path pattern if there is one.
  abbrev pub IsPassed : Type 0
  IsPassed =
      ((x : FilePath)
        → In x f.exclude_paths
        → ¬ IsExcluded x (normalize_path (fix_slashes ev.path)))
      × ((r : X.Pattern) → In r f.exclude_patterns → X.search ev.path r ≡ false)
      × ((f.event_types ≡ []) ⊎ In ev.event_type f.event_types)
      × ((f.extensions ≡ [])
          ⊎ (ev.path_type ≡ directory)
          ⊎ ((ext : FilePath) × HasExtension ev.path ext × In ext f.extensions))
      × (f.has_path_pattern ≡ true → X.match ev.path f.path_pattern ≡ true)

  path_stage : Bool
  path_stage =
      not (is_empty f.exclude_paths)
      && any (λ x. excludes x (normalize_path (fix_slashes ev.path))) f.exclude_paths

  pattern_stage : Bool
  pattern_stage = any (λ r. X.search ev.path r) f.exclude_patterns

  type_stage : Bool
  type_stage = not (is_empty f.event_types) && not (any (same_type ev.event_type) f.event_types)

  extension_stage : Bool
  extension_stage =
      (not (is_empty f.extensions) && same_path_type ev.path_type file)
      && not (extension_listed ev.path f.extensions)

  match_stage : Bool
  match_stage = f.has_path_pattern && not (X.match ev.path f.path_pattern)

  passes_stages : (passes f ev ≡ true) ↔ (
      (path_stage ≡ false)
      × (pattern_stage ≡ false)
      × (type_stage ≡ false)
      × (extension_stage ≡ false)
      × (match_stage ≡ false))
  unfolding passes path_stage pattern_stage type_stage extension_stage match_stage
  passes_stages = all_false path_stage pattern_stage type_stage extension_stage match_stage

  path_stage_iff : (path_stage ≡ false) ↔ (
      (x : FilePath) → In x f.exclude_paths → ¬ IsExcluded x (normalize_path (fix_slashes ev.path)))
  unfolding path_stage
  path_stage_iff = (
    λ h x m under.
        let hit = (excludes_iff x (normalize_path (fix_slashes ev.path))).1 under in
        let miss = any_none _ f.exclude_paths x (unguarded _ f.exclude_paths h) m in cc,
    λ h. guarded _ f.exclude_paths (
        none_any _ f.exclude_paths
          (λ x m. ground (arith, excludes_iff x (normalize_path (fix_slashes ev.path)), h x m))),
  )

  pattern_stage_iff :
      (pattern_stage ≡ false)
      ↔ ((r : X.Pattern) → In r f.exclude_patterns → X.search ev.path r ≡ false)
  unfolding pattern_stage
  pattern_stage_iff = (λ h r m. any_none _ f.exclude_patterns r h m, none_any _ f.exclude_patterns)

  type_stage_iff : (type_stage ≡ false) ↔ ((f.event_types ≡ []) ⊎ In ev.event_type f.event_types)
  unfolding type_stage
  type_stage_iff = either ev.event_type f.event_types

  extension_stage_iff : (extension_stage ≡ false) ↔ (
      (f.extensions ≡ [])
      ⊎ (ev.path_type ≡ directory)
      ⊎ ((ext : FilePath) × HasExtension ev.path ext × In ext f.extensions))
  unfolding extension_stage
  extension_stage_iff = extended ev.path ev.path_type f.extensions

  match_stage_iff :
      (match_stage ≡ false) ↔ (f.has_path_pattern ≡ true → X.match ev.path f.path_pattern ≡ true)
  unfolding match_stage
  match_stage_iff = required f.has_path_pattern (X.match ev.path f.path_pattern)

  -- An event passes a filter exactly when no fixed path excludes it, no exclusion pattern is found
  -- in its path, its type is listed if types are, the extension of a file is listed if extensions
  -- are, and the whole path matches the path pattern if there is one.
  pub passes_iff : (passes f ev ≡ true) ↔ IsPassed
  passes_iff = (
    λ h.
        let (a, b, c, d, e) = passes_stages.0 h in
        (
          path_stage_iff.0 a,
          pattern_stage_iff.0 b,
          type_stage_iff.0 c,
          extension_stage_iff.0 d,
          match_stage_iff.0 e,
        ),
    λ (a, b, c, d, e). passes_stages.1 (
      path_stage_iff.1 a,
      pattern_stage_iff.1 b,
      type_stage_iff.1 c,
      extension_stage_iff.1 d,
      match_stage_iff.1 e,
    ),
  )
