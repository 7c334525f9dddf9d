-- ===== src/Base/Lists.antt =====
-- Lists over the native numbers, Boolean membership, and the byte codes of a text.
use Prim.Native.Nat.{ℕ, zero, suc, ◌+◌}
use Prim.Native.Char.{code}
use Prim.Native.String.{String}
use mathlib.Core.Path.{◌≡◌, refl, ap}
use mathlib.Core.Logic.{◌⊎◌, inr, ◌↔◌, ◌≢◌}
use mathlib.Core.Bool.{Bool, true, false, ◌||◌}
use mathlib.Core.List.{List, [], ◌∷◌, ◌++◌}
use native.Mathlib.Omega.{arith}
use libfilewatch.Base.Tests.{Eq, ◌==◌, if◌then◌else◌}

abbrev pub codes : String → List ℕ
codes String.[] = []
codes (String.◌∷◌ c s) = code c ∷ codes s

module _ {ℓ} {A : Type ℓ} where
  abbrev pub length : List A → ℕ
  length [] = 0
  length (x ∷ xs) = suc (length xs)

  abbrev pub take : ℕ → List A → List A
  take zero xs = []
  take (suc n) [] = []
  take (suc n) (x ∷ xs) = x ∷ take n xs

  abbrev pub drop : ℕ → List A → List A
  drop zero xs = xs
  drop (suc n) [] = []
  drop (suc n) (x ∷ xs) = drop n xs

  abbrev pub get_or : List A → ℕ → A → A
  get_or [] i d = d
  get_or (x ∷ xs) zero d = x
  get_or (x ∷ xs) (suc i) d = get_or xs i d

  abbrev pub replicate : ℕ → A → List A
  replicate zero a = []
  replicate (suc n) a = a ∷ replicate n a

  abbrev pub is_empty : List A → Bool
  is_empty [] = true
  is_empty (x ∷ xs) = false

  -- The entries that pass a Boolean test.
  abbrev pub keep : (A → Bool) → List A → List A
  keep p [] = []
  keep p (x ∷ xs) = let rest = keep p xs in if p x then x ∷ rest else rest

  abbrev pub any : (A → Bool) → List A → Bool
  any p [] = false
  any p (x ∷ xs) = p x || any p xs

  pub length-append : (xs ys : List A) → length (xs ++ ys) ≡ length xs + length ys
  length-append [] ys = omega arith
  length-append (x ∷ xs) ys = omega (arith, length-append xs ys)

  pub take-append : (xs ys : List A) → take (length xs) (xs ++ ys) ≡ xs
  take-append [] ys = refl
  take-append (x ∷ xs) ys = ap (◌∷◌ x) (take-append xs ys)

  pub drop-append : (xs ys : List A) → drop (length xs) (xs ++ ys) ≡ ys
  drop-append [] ys = refl
  drop-append (x ∷ xs) ys = drop-append xs ys

  pub get_or-append :
      (xs : List A) (y : A) (ys : List A) (d : A) → get_or (xs ++ y ∷ ys) (length xs) d ≡ y
  get_or-append [] y ys d = refl
  get_or-append (x ∷ xs) y ys d = get_or-append xs y ys d

  abbrev pub All {κ} : (A → Type κ) → List A → Type κ
  All P [] = Unit
  All P (x ∷ xs) = P x × All P xs

-- Membership as a predicate by recursion.
module _ {A : Type 0} where
  abbrev pub In : A → List A → Type 0
  In a [] = ⊥
  In a (x ∷ xs) = (a ≡ x) ⊎ In a xs

  abbrev pub Nodup : List A → Type 0
  Nodup [] = Unit
  Nodup (x ∷ xs) = (¬ In x xs) × Nodup xs

  pub In-append : (a : A) (xs ys : List A) → In a (xs ++ ys) ↔ (In a xs ⊎ In a ys)
  In-append a [] ys = (λ h. inr h, λ h. ground arith)
  In-append a (x ∷ xs) ys = ground (arith, In-append a xs ys)

  pub append-Nodup : (a : A) (xs : List A) → ¬ In a xs → Nodup xs → Nodup (xs ++ a ∷ [])
  append-Nodup a [] n u = (λ h. absurd h, tt)
  append-Nodup a (x ∷ xs) n u =
      ground (arith, append-Nodup a xs (λ h. n (inr h)) u.1, In-append x xs (a ∷ []))

pub In-keep :
    {A : Type 0} (p : A → Bool) (xs : List A) (x : A) → In x (keep p xs) ↔ (In x xs × (p x ≡ true))
In-keep p [] x = (λ m. absurd m, λ m. absurd m.0)
In-keep p (y ∷ xs) x = ground (arith, In-keep p xs x)

module _ {A : Type 0} ⦃e : Eq A⦄ where
  abbrev pub contains : List A → A → Bool
  contains [] a = false
  contains (x ∷ xs) a = a == x || contains xs a

  -- Every occurrence goes; a set has at most one.
  abbrev pub erase : A → List A → List A
  erase a [] = []
  erase a (x ∷ xs) = let rest = erase a xs in if a == x then rest else x ∷ rest

  -- `erase(find(...))`: the first occurrence goes.
  abbrev pub erase_first : A → List A → List A
  erase_first a [] = []
  erase_first a (x ∷ xs) = if a == x then xs else x ∷ erase_first a xs

  -- The insertion of a set.
  abbrev pub insert : A → List A → List A
  insert a xs = if contains xs a then xs else xs ++ a ∷ []

  pub contains_iff : (xs : List A) (a : A) → (contains xs a ≡ true) ↔ In a xs
  contains_iff [] a = (λ h. cc, λ h. absurd h)
  contains_iff (x ∷ xs) a = ground (arith, contains_iff xs a)

  pub any-eq_iff : (a : A) (xs : List A) → (any (λ x. a == x) xs ≡ true) ↔ In a xs
  any-eq_iff a [] = (λ h. cc, λ h. absurd h)
  any-eq_iff a (x ∷ xs) = ground (arith, any-eq_iff a xs)

  pub In-erase : (a b : A) (xs : List A) → In a (erase b xs) ↔ (In a xs × (a ≢ b))
  In-erase a b [] = (λ h. absurd h, λ h. absurd h.0)
  In-erase a b (x ∷ xs) = ground (arith, In-erase a b xs)

  pub In-insert : (a b : A) (xs : List A) → In a (insert b xs) ↔ ((a ≡ b) ⊎ In a xs)
  In-insert a b xs = ground (arith, In-append a xs (b ∷ []), contains_iff xs b)

  pub contains-insert :
      (a b : A) (xs : List A) → contains (insert a xs) b ≡ (b == a || contains xs b)
  contains-insert a b xs =
      ground (arith, contains_iff (insert a xs) b, In-insert b a xs, contains_iff xs b)

  pub erase-Nodup : (a : A) (xs : List A) → Nodup xs → Nodup (erase a xs)
  erase-Nodup a [] u = tt
  erase-Nodup a (x ∷ xs) u = ground (arith, erase-Nodup a xs u.1, In-erase x a xs)

  pub insert-Nodup : (a : A) (xs : List A) → Nodup xs → Nodup (insert a xs)
  insert-Nodup a xs u = ground (arith, append-Nodup a xs, contains_iff xs a)

  pub In-erase_first :
      (a b : A) (xs : List A) → Nodup xs → In a (erase_first b xs) ↔ (In a xs × (a ≢ b))
  In-erase_first a b [] u = (λ h. absurd h, λ h. absurd h.0)
  In-erase_first a b (x ∷ xs) u = ground (arith, In-erase_first a b xs u.1)

  pub erase_first-Nodup : (a : A) (xs : List A) → Nodup xs → Nodup (erase_first a xs)
  erase_first-Nodup a [] u = tt
  erase_first-Nodup a (x ∷ xs) u =
      ground (arith, erase_first-Nodup a xs u.1, In-erase_first x a xs u.1)
