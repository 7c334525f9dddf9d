-- ===== src/Filter/Extension.antt =====
-- The extension of a path is what stands from its last dot on.
use libfilewatch.Base.{
  ℕ, zero, suc, ◌≡◌, refl, ap, sym, ◌∙◌, ◌↔◌, List, [], ◌∷◌, ◌++◌, drop, In, nat_eq, text_eq,
  any-eq_iff, subst, Option, none, some, arith, true,
}
use libfilewatch.Path.{FilePath, dot}
use libfilewatch.Filter.{rfind, extension_listed}

rfind-none : (c : ℕ) (p : FilePath) → rfind c p ≡ none → ¬ In c p
rfind-none c [] h m = m
rfind-none c (x ∷ p) h m = ground (arith, rfind-none c p)

none-rfind : (c : ℕ) (p : FilePath) → ¬ In c p → rfind c p ≡ none
none-rfind c [] n = refl
none-rfind c (x ∷ p) n = ground (arith, none-rfind c p)

-- `ext` is the part of `p` from its last dot on, the dot included.
abbrev pub HasExtension : FilePath → FilePath → Type 0
HasExtension p ext =
    (stem : FilePath) × (rest : FilePath) × (p ≡ stem ++ ext) × (ext ≡ dot ∷ rest) × (¬ In dot rest)

rfind_split : (p : FilePath) (i : ℕ) → rfind dot p ≡ some i → HasExtension p (drop i p)
rfind_split [] i h = cc
rfind_split (x ∷ p) zero h = ([], p, refl, ground (arith), rfind-none dot p (ground arith))
rfind_split (x ∷ p) (suc i) h =
    let (stem, rest, e, d, n) = rfind_split p i (ground arith) in
    (x ∷ stem, rest, ap (◌∷◌ x) e, d, n)

rfind-dot :
    (stem rest : FilePath)
    → ¬ In dot rest
    → (i : ℕ) × (rfind dot (stem ++ dot ∷ rest) ≡ some i)
      × (drop i (stem ++ dot ∷ rest) ≡ dot ∷ rest)
rfind-dot [] rest n = (0, ground (arith, none-rfind dot rest n), refl)
rfind-dot (x ∷ stem) rest n = let (i, e, d) = rfind-dot stem rest n in (suc i, ground arith, d)

listed_at :
    (p : FilePath) (exts : List FilePath) (o : Option ℕ)
    → rfind dot p ≡ o
    → extension_listed p exts ≡ true
    → (ext : FilePath) × HasExtension p ext × In ext exts
unfolding extension_listed
listed_at p exts none e h = absurd (ground arith)
listed_at p exts (some i) e h =
    (drop i p, rfind_split p i e, ground (arith, any-eq_iff (drop i p) exts))

listed_of :
    (stem rest : FilePath) (exts : List FilePath)
    → ¬ In dot rest
    → In (dot ∷ rest) exts
    → extension_listed (stem ++ dot ∷ rest) exts ≡ true
unfolding extension_listed
listed_of stem rest exts n m =
    let (i, found, tail) = rfind-dot stem rest n in
    rw (found, extension_listed) (rw tail ((any-eq_iff (dot ∷ rest) exts).1 m))

-- A path passes the test of the extensions exactly when its extension, the part from its last dot
-- on, is listed.
pub extension_listed_iff :
    (p : FilePath) (exts : List FilePath)
    → (extension_listed p exts ≡ true) ↔ ((ext : FilePath) × HasExtension p ext × In ext exts)
extension_listed_iff p exts = (
  listed_at p exts (rfind dot p) refl,
  λ (ext, (stem, rest, e, d, n), m).
      subst (λ q. extension_listed q exts ≡ true) (sym (e ∙ ap (◌++◌ stem) d))
        (listed_of stem rest exts n (subst (λ x. In x exts) d m)),
)
