-- ===== src/Path/Normal.antt =====
-- What the trailing-slash loop computes.
use libfilewatch.Base.{
  ℕ, zero, suc, ◌≤◌, ◌<◌, ◌≡◌, refl, ap, sym, subst, ◌∙◌, ◌≢◌, ◌↔◌, inl, inr, [], ◌∷◌, ◌++◌,
  append_assoc, append-nil, replicate, length, length-append, arith, nat_eq, Bool-cases, true,
  false,
}
use libfilewatch.Path.{
  FilePath, slash, back, pop_back, strip_loop, normalize_path, has_trailing_slash,
}

-- The loop's exit condition.
abbrev pub IsStripped : FilePath → Type 0
IsStripped q = ¬ ((1 < length q) × (back q ≡ slash))

length-pop_back : (x : ℕ) (p : FilePath) → length (pop_back (x ∷ p)) ≡ length p
length-pop_back x [] = refl
length-pop_back x (y ∷ p) = ap suc (length-pop_back y p)

pub pop_back-back : (x : ℕ) (p : FilePath) → x ∷ p ≡ pop_back (x ∷ p) ++ back (x ∷ p) ∷ []
pop_back-back x [] = refl
pop_back-back x (y ∷ p) = ap (◌∷◌ x) (pop_back-back y p)

pub back-snoc : (p : FilePath) (c : ℕ) → back (p ++ c ∷ []) ≡ c
back-snoc [] c = refl
back-snoc (x ∷ []) c = refl
back-snoc (x ∷ y ∷ p) c = back-snoc (y ∷ p) c

pop_back-snoc : (p : FilePath) (c : ℕ) → pop_back (p ++ c ∷ []) ≡ p
pop_back-snoc [] c = refl
pop_back-snoc (x ∷ []) c = refl
pop_back-snoc (x ∷ y ∷ p) c = ap (◌∷◌ x) (pop_back-snoc (y ∷ p) c)

replicate-snoc : (n : ℕ) → replicate (suc n) slash ≡ replicate n slash ++ slash ∷ []
replicate-snoc zero = refl
replicate-snoc (suc n) = ap (◌∷◌ slash) (replicate-snoc n)

append_slashes :
    (q : FilePath) (n : ℕ) → q ++ replicate (suc n) slash ≡ (q ++ replicate n slash) ++ slash ∷ []
append_slashes q n =
    ap (◌++◌ q) (replicate-snoc n) ∙ sym (append_assoc q (replicate n slash) (slash ∷ []))

back_of_trailing : (p : FilePath) → has_trailing_slash p ≡ true → back p ≡ slash
back_of_trailing p h = ground arith

-- With as much fuel as the path has bytes the loop ends by its test.
strip_loop-IsStripped : (f : ℕ) (p : FilePath) → length p ≤ suc f → IsStripped (strip_loop f p)
unfolding strip_loop
strip_loop-IsStripped zero p h = λ t. absurd (omega arith)
strip_loop-IsStripped (suc f) [] h = λ t. absurd (omega arith)
strip_loop-IsStripped (suc f) (x ∷ p) h =
    ground (arith, strip_loop-IsStripped f (pop_back (x ∷ p)), length-pop_back x p)

pub strip_step :
    (f : ℕ) (p : FilePath)
    → has_trailing_slash p ≡ true
    → strip_loop (suc f) p ≡ strip_loop f (pop_back p)
unfolding strip_loop
strip_step f p h = rw h

pub strip_zero : (p : FilePath) → strip_loop zero p ≡ p
unfolding strip_loop
strip_zero p = refl

pub strip_stop : (f : ℕ) (p : FilePath) → has_trailing_slash p ≡ false → strip_loop f p ≡ p
unfolding strip_loop
strip_stop zero p h = refl
strip_stop (suc f) p h = rw h

-- The bytes that the loop drops are slashes.
strip_loop_drops : (f : ℕ) (p : FilePath) → (n : ℕ) × (p ≡ strip_loop f p ++ replicate n slash)
strip_loop_drops zero p = (0, rw (strip_zero p) (sym (append-nil p)))
strip_loop_drops (suc f) [] = (0, rw (strip_stop (suc f) [] refl))
strip_loop_drops (suc f) (x ∷ p) = elim (Bool-cases (has_trailing_slash (x ∷ p))) [
  | inl h ↦
      let (n, e) = strip_loop_drops f (pop_back (x ∷ p)) in
      (
        suc n,
        rw (strip_step f (x ∷ p) h) (
            pop_back-back x p
            ∙ ap (λ r. r ++ back (x ∷ p) ∷ []) e
            ∙ ap (λ c. (strip_loop f (pop_back (x ∷ p)) ++ replicate n slash) ++ c ∷ [])
                (back_of_trailing (x ∷ p) h)
            ∙ sym (append_slashes (strip_loop f (pop_back (x ∷ p))) n)),
      )
  | inr h ↦ (0, rw (strip_stop (suc f) (x ∷ p) h) (sym (append-nil (x ∷ p))))
]

-- The first byte stays.
strip_loop-ne-nil : (f : ℕ) (x : ℕ) (p : FilePath) → strip_loop f (x ∷ p) ≢ []
unfolding strip_loop
strip_loop-ne-nil zero x p = λ e. cc
strip_loop-ne-nil (suc f) x [] = λ e. ground arith
strip_loop-ne-nil (suc f) x (y ∷ p) = ground (arith, strip_loop-ne-nil f x (pop_back (y ∷ p)))

trailing-snoc : (p : FilePath) → 1 ≤ length p → has_trailing_slash (p ++ slash ∷ []) ≡ true
trailing-snoc p h = ground (arith, back-snoc p slash, length-append p (slash ∷ []))

trailing_append :
    (x : ℕ) (q : FilePath) (n : ℕ) → has_trailing_slash ((x ∷ q) ++ replicate (suc n) slash) ≡ true
trailing_append x q n =
    subst (λ r. has_trailing_slash r ≡ true) (sym (append_slashes (x ∷ q) n))
      (trailing-snoc ((x ∷ q) ++ replicate n slash) (omega arith))

strip_loop-append :
    (f : ℕ) (x : ℕ) (q : FilePath) (n : ℕ)
    → n ≤ f
    → IsStripped (x ∷ q)
    → strip_loop f ((x ∷ q) ++ replicate n slash) ≡ x ∷ q
strip_loop-append f x q zero h s = rw (append-nil (x ∷ q)) (strip_stop f (x ∷ q) (ground arith))
strip_loop-append zero x q (suc n) h s = absurd (omega arith)
strip_loop-append (suc f) x q (suc n) h s =
    strip_step f ((x ∷ q) ++ replicate (suc n) slash) (trailing_append x q n)
    ∙ ap (λ r. strip_loop f (pop_back r)) (append_slashes (x ∷ q) n)
    ∙ ap (strip_loop f) (pop_back-snoc ((x ∷ q) ++ replicate n slash) slash)
    ∙ strip_loop-append f x q n (omega arith) s

-- `q` is `p` without trailing slashes, but for a path of slashes alone, of which one stays.
abbrev pub Normalizes : FilePath → FilePath → Type 0
Normalizes p q = IsStripped q × ((n : ℕ) × (p ≡ q ++ replicate n slash)) × ((q ≡ []) → p ≡ [])

pub normalize_path-Normalizes : (p : FilePath) → Normalizes p (normalize_path p)
unfolding normalize_path
normalize_path-Normalizes [] = (λ t. absurd (omega arith), (0, refl), λ e. refl)
normalize_path-Normalizes (x ∷ p) = (
  strip_loop-IsStripped (suc (length p)) (x ∷ p) (omega arith),
  strip_loop_drops (suc (length p)) (x ∷ p),
  λ e. absurd (strip_loop-ne-nil (suc (length p)) x p e),
)

length-replicate : (n : ℕ) → length (replicate n slash) ≡ n
length-replicate zero = refl
length-replicate (suc n) = ap suc (length-replicate n)

Normalizes-eq : (p q : FilePath) → Normalizes p q → normalize_path p ≡ q
unfolding normalize_path
Normalizes-eq p [] (s, (n, e), k) = rw (k refl)
Normalizes-eq p (x ∷ q) (s, (n, e), k) = rw e (
    strip_loop-append (length ((x ∷ q) ++ replicate n slash)) x q n
      (omega (arith, length-append q (replicate n slash), length-replicate n)) s)

-- The normal form of a path is the one path that does not end in a slash, unless it is a single
-- byte, that differs from the path by trailing slashes only, and that is empty only if the path is.
pub normalize_path_iff : (p q : FilePath) → (normalize_path p ≡ q) ↔ Normalizes p q
normalize_path_iff p q =
    (λ e. subst (Normalizes p) e (normalize_path-Normalizes p), Normalizes-eq p q)

pub normalize_path_idem : (p : FilePath) → normalize_path (normalize_path p) ≡ normalize_path p
normalize_path_idem p =
    let (s, _, _) = normalize_path-Normalizes p in
    Normalizes-eq (normalize_path p) (normalize_path p) (s, (0, sym (append-nil _)), λ e. e)

pub normalize_path-ne-nil : (p : FilePath) → p ≢ [] → normalize_path p ≢ []
normalize_path-ne-nil p n e = let (_, _, k) = normalize_path-Normalizes p in n (k e)
