-- ===== src/Base/Dict.antt =====
-- `std::unordered_map` as an association list. Only lookups and walks over all entries are used of
-- it; the list's order stands for the table's iteration order, which the language leaves open.
use mathlib.Core.Path.{◌≡◌, refl}
use mathlib.Core.Bool.{Bool, true, false}
use mathlib.Core.Option.{Option, none, some}
use mathlib.Core.List.{List, [], ◌∷◌}
use native.Mathlib.Omega.{arith}
use libfilewatch.Base.Tests.{Eq, ◌==◌, if◌then◌else◌}
use libfilewatch.Base.Lists.{In}

abbrev pub Dict : Type 0 → Type 0 → Type 0
Dict K V = List (K × V)

module _ {K V : Type 0} ⦃e : Eq K⦄ where
  -- `find`, and `operator[]` in a read of a key that is there
  abbrev pub lookup : K → Dict K V → Option V
  lookup k [] = none
  lookup k ((j, v) ∷ d) = if k == j then some v else lookup k d

  -- `d[k] = v`
  unfoldable pub insert : K → V → Dict K V → Dict K V
  insert k v [] = (k, v) ∷ []
  insert k v ((j, w) ∷ d) = if k == j then (k, v) ∷ d else (j, w) ∷ insert k v d

  -- `d.erase(k)`. Every entry of the key goes; a table has at most one.
  unfoldable pub erase : K → Dict K V → Dict K V
  erase k [] = []
  erase k ((j, w) ∷ d) = let rest = erase k d in if k == j then rest else (j, w) ∷ rest

  -- The loop over all entries that erases those that fail a test.
  unfoldable pub retain : (K → V → Bool) → Dict K V → Dict K V
  retain p [] = []
  retain p ((j, w) ∷ d) = let rest = retain p d in if p j w then (j, w) ∷ rest else rest

  abbrev pub has_key : K → Dict K V → Bool
  has_key k d = elim (lookup k d) [ none ↦ false | some _ ↦ true ]

  -- No key stands twice.
  abbrev pub Unique : Dict K V → Type 0
  Unique [] = Unit {0}
  Unique ((k, v) ∷ d) = (lookup k d ≡ none) × Unique d

  pub lookup-insert :
      (k j : K) (v : V) (d : Dict K V)
      → lookup j (insert k v d) ≡ (if j == k then some v else lookup j d)
  unfolding insert
  lookup-insert k j v [] = refl
  lookup-insert k j v ((i, w) ∷ d) = ground (arith, lookup-insert k j v d)

  pub lookup-erase :
      (k j : K) (d : Dict K V) → lookup j (erase k d) ≡ (if j == k then none else lookup j d)
  unfolding erase
  lookup-erase k j [] = ground arith
  lookup-erase k j ((i, w) ∷ d) = ground (arith, lookup-erase k j d)

  pub erase-insert : (k : K) (v : V) (d : Dict K V) → erase k (insert k v d) ≡ erase k d
  unfolding insert erase
  erase-insert k v [] = ground arith
  erase-insert k v ((i, w) ∷ d) = ground (arith, erase-insert k v d)

  pub lookup-retain-none :
      (p : K → V → Bool) (k : K) (d : Dict K V) → lookup k d ≡ none → lookup k (retain p d) ≡ none
  unfolding retain
  lookup-retain-none p k [] h = refl
  lookup-retain-none p k ((i, w) ∷ d) h = ground (arith, lookup-retain-none p k d)

  pub lookup-retain :
      (p : K → V → Bool) (k : K) (d : Dict K V) (v : V)
      → Unique d
      → lookup k d ≡ some v
      → lookup k (retain p d) ≡ (if p k v then some v else none)
  unfolding retain
  lookup-retain p k [] v u h = cc
  lookup-retain p k ((i, w) ∷ d) v u h =
      ground (arith, lookup-retain p k d v u.1, lookup-retain-none p i d)

  pub retain-Unique : (p : K → V → Bool) (d : Dict K V) → Unique d → Unique (retain p d)
  unfolding retain
  retain-Unique p [] u = tt
  retain-Unique p ((i, w) ∷ d) u =
      ground (arith, retain-Unique p d u.1, lookup-retain-none p i d u.0)

  pub insert-Unique : (k : K) (v : V) (d : Dict K V) → Unique d → Unique (insert k v d)
  unfolding insert
  insert-Unique k v [] u = (refl, tt)
  insert-Unique k v ((i, w) ∷ d) u = ground (arith, insert-Unique k v d u.1, lookup-insert k i v d)

  pub erase-Unique : (k : K) (d : Dict K V) → Unique d → Unique (erase k d)
  unfolding erase
  erase-Unique k [] u = tt
  erase-Unique k ((i, w) ∷ d) u = ground (arith, erase-Unique k d u.1, lookup-erase k i d)

  pub In-of_lookup : (k : K) (v : V) (d : Dict K V) → lookup k d ≡ some v → In (k, v) d
  In-of_lookup k v [] h = cc
  In-of_lookup k v ((i, w) ∷ d) h = ground (arith, In-of_lookup k v d)

  pub not-In_of_none : (k : K) (v : V) (d : Dict K V) → lookup k d ≡ none → ¬ In (k, v) d
  not-In_of_none k v [] h m = m
  not-In_of_none k v ((i, w) ∷ d) h m = ground (arith, not-In_of_none k v d)

  pub lookup-of_In : (k : K) (v : V) (d : Dict K V) → Unique d → In (k, v) d → lookup k d ≡ some v
  lookup-of_In k v [] u m = absurd m
  lookup-of_In k v ((i, w) ∷ d) u m =
      ground (arith, lookup-of_In k v d u.1, not-In_of_none i v d u.0)
