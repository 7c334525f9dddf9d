-- ===== src/Path/Prefix.antt =====
-- The test `e.size() > w.size() && e.compare(0, w.size(), w) == 0` and the byte behind the prefix.
use libfilewatch.Base.{
  ℕ, zero, suc, ◌<◌, ◌≡◌, refl, ap, ◌∙◌, [], ◌∷◌, ◌++◌, length, length-append, take-append,
  get_or-append, take, drop, get_or, arith, nat_eq, text_eq, ==_iff, true,
}
use libfilewatch.Path.{FilePath, has_prefix}

split_at : (n : ℕ) (e : FilePath) → n < length e → e ≡ take n e ++ get_or e n 0 ∷ drop (suc n) e
split_at n [] h = absurd (omega arith)
split_at zero (x ∷ e) h = refl
split_at (suc n) (x ∷ e) h = ap (◌∷◌ x) (split_at n e (omega arith))

drop-suc : (w : FilePath) (c : ℕ) (r : FilePath) → drop (suc (length w)) (w ++ c ∷ r) ≡ r
drop-suc [] c r = refl
drop-suc (x ∷ w) c r = drop-suc w c r

-- A proper prefix is a split, and the code's indices read its parts.
pub prefix_split :
    (w e : FilePath)
    → length w < length e
    → has_prefix w e ≡ true
    → e ≡ w ++ get_or e (length w) 0 ∷ drop (suc (length w)) e
prefix_split w e h p =
    split_at (length w) e h
    ∙ ap (λ s. s ++ get_or e (length w) 0 ∷ drop (suc (length w)) e)
        ((==_iff (take (length w) e) w).0 p)

pub has_prefix-append : (w r : FilePath) → has_prefix w (w ++ r) ≡ true
has_prefix-append w r = (==_iff (take (length w) (w ++ r)) w).1 (take-append w r)

-- The code's tests at a path that is `w`, the byte `c` and `r`.
pub split_reads :
    (w : FilePath) (c : ℕ) (r : FilePath)
    → (length w < length (w ++ c ∷ r))
      × (has_prefix w (w ++ c ∷ r) ≡ true)
      × (get_or (w ++ c ∷ r) (length w) 0 ≡ c)
      × (drop (suc (length w)) (w ++ c ∷ r) ≡ r)
split_reads w c r = (
  omega (arith, length-append w (c ∷ r)),
  has_prefix-append w (c ∷ r),
  get_or-append w c r 0,
  drop-suc w c r,
)
