-- ===== src/Filter/Exclude.antt =====
-- The fixed exclusion paths: what one of them excludes.
use libfilewatch.Base.{
  ℕ, zero, suc, ◌≡◌, refl, ap, sym, subst, ◌∙◌, ◌↔◌, ◌⊎◌, inl, inr, [], ◌∷◌, ◌++◌, append_assoc,
  replicate, length, drop, get_or, arith, ◌==◌, nat_eq, text_eq, ==_iff, Bool-cases, true,
}
use libfilewatch.Path.{
  FilePath, slash, back, pop_back, strip_loop, normalize_path, fix_slashes, has_trailing_slash,
}
use libfilewatch.Path.Prefix.{prefix_split, split_reads}
use libfilewatch.Path.Normal.{
  IsStripped, strip_step, strip_stop, strip_zero, normalize_path-Normalizes,
}
use mathlib.Core.List.{map-append}
use libfilewatch.Filter.{excludes}

-- `e` is `x` or lies below it: the byte behind `x` is a slash, or `x` itself ends in one.
abbrev pub IsExcluded : FilePath → FilePath → Type 0
IsExcluded x e =
    (e ≡ x) ⊎ ((c : ℕ) × (rest : FilePath) × (e ≡ x ++ c ∷ rest) × ((back x ≡ slash) ⊎ (c ≡ slash)))

IsExcluded-of : (x e : FilePath) → excludes x e ≡ true → IsExcluded x e
unfolding excludes
IsExcluded-of x e h = elim (Bool-cases (e == x)) [
  | inl same ↦ inl ((==_iff e x).0 same)
  | inr other ↦ inr (
    get_or e (length x) 0,
    drop (suc (length x)) e,
    ground (arith, prefix_split x e),
    ground arith,
  )
]

excludes_of : (x e : FilePath) → IsExcluded x e → excludes x e ≡ true
unfolding excludes
excludes_of x e (inl same) = ground arith
excludes_of x e (inr (c, rest, at, edge)) =
    subst (λ p. excludes x p ≡ true) (sym at) (ground (arith, split_reads x c rest))

pub excludes_iff : (x e : FilePath) → (excludes x e ≡ true) ↔ IsExcluded x e
excludes_iff x e = (IsExcluded-of x e, excludes_of x e)

pop_back-append :
    (x : FilePath) (c d : ℕ) (s : FilePath) → pop_back (x ++ c ∷ d ∷ s) ≡ x ++ c ∷ pop_back (d ∷ s)
pop_back-append [] c d s = refl
pop_back-append (y ∷ []) c d s = refl
pop_back-append (y ∷ z ∷ x) c d s = ap (◌∷◌ y) (pop_back-append (z ∷ x) c d s)

pop_back-append_one : (x : FilePath) (c : ℕ) → pop_back (x ++ c ∷ []) ≡ x
pop_back-append_one [] c = refl
pop_back-append_one (y ∷ []) c = refl
pop_back-append_one (y ∷ z ∷ x) c = ap (◌∷◌ y) (pop_back-append_one (z ∷ x) c)

-- Below an excluded path the normalisation of the event's path does not leave it.
strip_loop-IsExcluded :
    (f : ℕ) (x s : FilePath) → IsStripped x → IsExcluded x (strip_loop f (x ++ slash ∷ s))
strip_loop-IsExcluded zero x s h = rw (strip_zero (x ++ slash ∷ s)) (inr (slash, s, refl, inr refl))
strip_loop-IsExcluded (suc f) x s h = elim (Bool-cases (has_trailing_slash (x ++ slash ∷ s))) [
  | inr stop ↦ rw (strip_stop (suc f) (x ++ slash ∷ s) stop) (inr (slash, s, refl, inr refl))
  | inl more ↦
      rw (strip_step f (x ++ slash ∷ s) more) (shorter (λ t. strip_loop-IsExcluded f x t h) s)
]
  where
    shorter :
        ((t : FilePath) → IsExcluded x (strip_loop f (x ++ slash ∷ t)))
        → (t : FilePath) → IsExcluded x (strip_loop f (pop_back (x ++ slash ∷ t)))
    shorter ih [] = rw (pop_back-append_one x slash) (inl (strip_stop f x (ground arith)))
    shorter ih (c ∷ t) = rw (pop_back-append x slash c t) (ih (pop_back (c ∷ t)))

fix_slashes-slash : (p : FilePath) → fix_slashes (slash ∷ p) ≡ slash ∷ fix_slashes p
unfolding fix_slashes nat_eq
fix_slashes-slash p = refl

fix_slashes-append : (p q : FilePath) → fix_slashes (p ++ q) ≡ fix_slashes p ++ fix_slashes q
unfolding fix_slashes
fix_slashes-append p q = map-append _ p q

slashes_middle :
    (n : ℕ) (s : FilePath) → (t : FilePath) × (replicate n slash ++ slash ∷ s ≡ slash ∷ t)
slashes_middle zero s = (s, refl)
slashes_middle (suc n) s = (replicate n slash ++ slash ∷ s, refl)

below :
    (x p : FilePath)
    → IsStripped x
    → (n : ℕ) (s : FilePath) → p ≡ (x ++ replicate n slash) ++ slash ∷ s
    → IsExcluded x (normalize_path p)
unfolding normalize_path
below x p h n s e =
    let (t, m) = slashes_middle n s in
    let at : p ≡ x ++ slash ∷ t =
      e ∙ append_assoc x (replicate n slash) (slash ∷ s) ∙ ap (◌++◌ x) m in
    rw at (strip_loop-IsExcluded (length (x ++ slash ∷ t)) x t h)

-- An excluded path, as it is stored, excludes what lies below the path that the caller gave.
pub below-IsExcluded :
    (p rel : FilePath)
    → IsExcluded (normalize_path (fix_slashes p)) (normalize_path (fix_slashes (p ++ slash ∷ rel)))
below-IsExcluded p rel =
    let (s, (n, e), _) = normalize_path-Normalizes (fix_slashes p) in
    below (normalize_path (fix_slashes p)) (fix_slashes (p ++ slash ∷ rel)) s n (fix_slashes rel) (
      fix_slashes-append p (slash ∷ rel)
      ∙ ap (λ (q : FilePath). q ++ fix_slashes (slash ∷ rel)) e
      ∙ ap (◌++◌ (normalize_path (fix_slashes p) ++ replicate n slash)) (fix_slashes-slash rel))
