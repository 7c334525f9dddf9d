-- ===== src/Filter/Setters.antt =====
-- What the setters keep, whatever the order of their calls.
use mathlib.Core.List.{foldl}
use libfilewatch.Base.{
  ◌≡◌, refl, ap, sym, subst, replicate, ◌≢◌, ◌⊎◌, inl, inr, List, [], ◌∷◌, ◌++◌, In, In-append, All,
  false, arith, Bool-cases, nat_eq,
}
use libfilewatch.Path.{FilePath, slash, backslash, fix_slashes, normalize_path}
use libfilewatch.Path.Normal.{IsStripped, normalize_path-Normalizes, normalize_path-ne-nil}
use libfilewatch.Event.{EventType, FileEvent}
use libfilewatch.Filter.{
  Regex, Filter, blank_filter, set_event_types, set_extensions, set_path_pattern,
  add_exclude_pattern, set_exclude_patterns, add_exclude_path, set_exclude_paths, passes,
}
use libfilewatch.Filter.Exclude.{IsExcluded, below-IsExcluded}
use libfilewatch.Filter.Passes.{passes_iff}

-- One call of a setter.
pub data Setter : Type 0 where
  event_types : List EventType → Setter
  extensions : List FilePath → Setter
  path_pattern exclude_pattern exclude_path : FilePath → Setter
  exclude_patterns exclude_paths : List FilePath → Setter

module _ {X : Regex} where
  abbrev pub apply : Setter → Filter X → Filter X
  apply (event_types ts) f = set_event_types ts f
  apply (extensions es) f = set_extensions es f
  apply (path_pattern p) f = set_path_pattern p f
  apply (exclude_pattern p) f = add_exclude_pattern p f
  apply (exclude_path p) f = add_exclude_path p f
  apply (exclude_patterns ps) f = set_exclude_patterns ps f
  apply (exclude_paths ps) f = set_exclude_paths ps f

  abbrev pub configure : List Setter → Filter X → Filter X
  configure [] f = f
  configure (c ∷ cs) f = configure cs (apply c f)

-- A stored exclusion path is not empty (its last byte is read), ends in no slash unless it is a
-- single byte, and holds no backslash.
abbrev pub IsStored : FilePath → Type 0
IsStored x = (x ≢ []) × IsStripped x × (¬ In backslash x)

fix_slashes_no_backslash : (p : FilePath) → ¬ In backslash (fix_slashes p)
unfolding fix_slashes nat_eq
fix_slashes_no_backslash [] m = m
fix_slashes_no_backslash (c ∷ p) m = ground (arith, fix_slashes_no_backslash p)

normalize_path_no_backslash : (p : FilePath) → ¬ In backslash p → ¬ In backslash (normalize_path p)
normalize_path_no_backslash p n m =
    let (_, (k, e), _) = normalize_path-Normalizes p in
    n (
      subst (In backslash) (sym e)
        ((In-append backslash (normalize_path p) (replicate k slash)).1 (inl m)))

fix_slashes-ne-nil : (p : FilePath) → p ≢ [] → fix_slashes p ≢ []
unfolding fix_slashes
fix_slashes-ne-nil [] n = n
fix_slashes-ne-nil (c ∷ p) n = λ e. cc

trimmed-IsStored : (p : FilePath) → p ≢ [] → IsStored (normalize_path (fix_slashes p))
trimmed-IsStored p n =
    let (s, _, _) = normalize_path-Normalizes (fix_slashes p) in
    (
      normalize_path-ne-nil (fix_slashes p) (fix_slashes-ne-nil p n),
      s,
      normalize_path_no_backslash (fix_slashes p) (fix_slashes_no_backslash p),
    )

All-snoc :
    (xs : List FilePath) (x : FilePath) → All IsStored xs → IsStored x → All IsStored (xs ++ x ∷ [])
All-snoc [] x h s = (s, tt)
All-snoc (y ∷ xs) x h s = (h.0, All-snoc xs x h.1 s)

In-last : (x : FilePath) (xs : List FilePath) → In x (xs ++ x ∷ [])
In-last x [] = inl refl
In-last x (y ∷ xs) = inr (In-last x xs)

module _ {X : Regex} where
  abbrev pub IsSound : Filter X → Type 0
  IsSound f = All IsStored f.exclude_paths

  add_exclude_path-IsSound :
      (p : FilePath) (f : Filter X) → IsSound f → IsSound (add_exclude_path p f)
  unfolding add_exclude_path
  add_exclude_path-IsSound [] f h = h
  add_exclude_path-IsSound (c ∷ p) f h =
      All-snoc f.exclude_paths _ h (trimmed-IsStored (c ∷ p) (λ e. cc))

  add_exclude_paths-IsSound :
      (ps : List FilePath) (f : Filter X)
      → IsSound f
      → IsSound (foldl (λ g p. add_exclude_path p g) f ps)
  add_exclude_paths-IsSound [] f h = h
  add_exclude_paths-IsSound (p ∷ ps) f h =
      add_exclude_paths-IsSound ps (add_exclude_path p f) (add_exclude_path-IsSound p f h)

  add_exclude_patterns-IsSound :
      (ps : List FilePath) (f : Filter X)
      → IsSound f
      → IsSound (foldl (λ g p. add_exclude_pattern p g) f ps)
  unfolding add_exclude_pattern
  add_exclude_patterns-IsSound [] f h = h
  add_exclude_patterns-IsSound (p ∷ ps) f h =
      add_exclude_patterns-IsSound ps (add_exclude_pattern p f) (ground arith)

  apply-IsSound : (c : Setter) (f : Filter X) → IsSound f → IsSound (apply c f)
  unfolding set_event_types set_extensions set_path_pattern add_exclude_pattern set_exclude_patterns
      set_exclude_paths
  apply-IsSound (event_types ts) f h = h
  apply-IsSound (extensions es) f h = h
  apply-IsSound (path_pattern p) f h = ground arith
  apply-IsSound (exclude_pattern p) f h = ground arith
  apply-IsSound (exclude_path p) f h = add_exclude_path-IsSound p f h
  apply-IsSound (exclude_patterns ps) f h =
      add_exclude_patterns-IsSound ps (record f { exclude_patterns = [] }) h
  apply-IsSound (exclude_paths ps) f h =
      add_exclude_paths-IsSound ps (record f { exclude_paths = [] }) tt

  configure-IsSound : (cs : List Setter) (f : Filter X) → IsSound f → IsSound (configure cs f)
  configure-IsSound [] f h = h
  configure-IsSound (c ∷ cs) f h = configure-IsSound cs (apply c f) (apply-IsSound c f h)

  stored_path :
      (p : FilePath) (f : Filter X)
      → p ≢ []
      → In (normalize_path (fix_slashes p)) (add_exclude_path p f).exclude_paths
  unfolding add_exclude_path
  stored_path [] f n = absurd (n refl)
  stored_path (c ∷ p) f n = In-last _ f.exclude_paths

  -- Once a path that is not empty is excluded, no event at the path or below it passes, whatever the
  -- rest of the filter says.
  pub excluded_path_blocks :
      (p : FilePath) (f : Filter X) (ev : FileEvent)
      → p ≢ []
      → (ev.path ≡ p) ⊎ ((rel : FilePath) × (ev.path ≡ p ++ slash ∷ rel))
      → passes (add_exclude_path p f) ev ≡ false
  excluded_path_blocks p f ev n at = elim (Bool-cases (passes (add_exclude_path p f) ev)) [
    | inr h ↦ h
    | inl h ↦ absurd (
        ((passes_iff (add_exclude_path p f) ev).0 h).0 (normalize_path (fix_slashes p))
          (stored_path p f n) (under at))
  ]
    where
      under :
          (ev.path ≡ p) ⊎ ((rel : FilePath) × (ev.path ≡ p ++ slash ∷ rel))
          → IsExcluded (normalize_path (fix_slashes p)) (normalize_path (fix_slashes ev.path))
      under (inl e) = inl (ap (λ q. normalize_path (fix_slashes q)) e)
      under (inr (rel, e)) = rw e (below-IsExcluded p rel)

-- After any calls of the setters on a new filter, each exclusion path is not empty, has no trailing
-- slash unless it is a single byte, and has no backslash.
pub configure-blank-IsSound :
    (X : Regex) (cs : List Setter) → IsSound {X = X} (configure cs blank_filter)
configure-blank-IsSound X cs = configure-IsSound cs blank_filter tt
