-- ===== src/Path/Under.antt =====
-- `isPathUnderWatch` against its meaning: an event path is the watched path or lies below it.
use libfilewatch.Base.{
  ℕ, suc, ◌≡◌, refl, sym, subst, ◌≢◌, ◌↔◌, ◌⊎◌, inl, inr, [], ◌∷◌, ◌++◌, length, drop, any, In,
  arith, ◌==◌, nat_eq, text_eq, ==_iff, Bool-cases, Bool, true, false,
}
use libfilewatch.Path.{
  FilePath, slash, backslash, fix_slashes, normalize_path, under, is_path_under_watch,
}
use libfilewatch.Path.Prefix.{prefix_split, split_reads}

any-slash_iff : (p : FilePath) → (any (λ c. c == slash) p ≡ true) ↔ In slash p
any-slash_iff [] = (λ h. cc, λ h. absurd h)
any-slash_iff (c ∷ p) = ground (arith, any-slash_iff p)

-- The path `w` itself, or `w`, a slash and a rest, which has no slash if the watch is not recursive.
abbrev pub IsUnder : FilePath → FilePath → Bool → Type 0
IsUnder w e recursive =
    (e ≡ w) ⊎ ((rel : FilePath) × (e ≡ w ++ slash ∷ rel) × ((recursive ≡ true) ⊎ (¬ In slash rel)))

under-IsUnder : (w e : FilePath) (r : Bool) → under w e r ≡ true → IsUnder w e r
unfolding under
under-IsUnder w e r h = elim (Bool-cases (e == w)) [
  | inl same ↦ inl ((==_iff e w).0 same)
  | inr other ↦ inr (
    drop (suc (length w)) e,
    ground (arith, prefix_split w e),
    ground (arith, any-slash_iff (drop (suc (length w)) e)),
  )
]

IsUnder-under : (w e : FilePath) (r : Bool) → IsUnder w e r → under w e r ≡ true
unfolding under
IsUnder-under w e r (inl same) = ground arith
IsUnder-under w e r (inr (rel, at, deep)) =
    subst (λ p. under w p r ≡ true) (sym at)
      (ground (arith, split_reads w slash rel, any-slash_iff rel))

is_path_under_watch-cons :
    (c : ℕ) (w e : FilePath) (r : Bool)
    → is_path_under_watch (c ∷ w) e r
      ≡ under (normalize_path (fix_slashes (c ∷ w))) (fix_slashes e) r
unfolding is_path_under_watch
is_path_under_watch-cons c w e r = refl

-- A watch takes an event exactly when the watched path is not empty and, with backslashes read as
-- slashes and the watched path's trailing slashes dropped, the event's path is the watched path or
-- the watched path followed by a slash and a rest, which holds no slash unless the watch is recursive.
pub is_path_under_watch_iff :
    (w e : FilePath) (r : Bool)
    → (is_path_under_watch w e r ≡ true)
      ↔ ((w ≢ []) × IsUnder (normalize_path (fix_slashes w)) (fix_slashes e) r)
unfolding is_path_under_watch
is_path_under_watch_iff [] e r = (λ h. cc, λ h. absurd (h.0 refl))
is_path_under_watch_iff (c ∷ w) e r = (
  λ h. (λ n. cc, under-IsUnder (normalize_path (fix_slashes (c ∷ w))) (fix_slashes e) r h),
  λ h. IsUnder-under (normalize_path (fix_slashes (c ∷ w))) (fix_slashes e) r h.1,
)

-- A recursive watch of the root takes no event below the root whose second byte is no separator.
pub root_watch_blind :
    (c : ℕ) (e : FilePath)
    → c ≢ slash
    → c ≢ backslash
    → is_path_under_watch (slash ∷ []) (slash ∷ c ∷ e) true ≡ false
unfolding is_path_under_watch fix_slashes normalize_path nat_eq
root_watch_blind c e n m = ground arith
