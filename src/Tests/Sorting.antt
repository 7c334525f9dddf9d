-- ===== src/Tests/Sorting.antt =====
-- An insertion sort, by the comparison that the macOS watcher sorts with (src/core/MacOSWatcher.cpp).
use libfilewatch.Base.{
  ◌≡◌, ◌↔◌, ◌⊎◌, inl, inr, Bool, none, true, false, List, [], ◌∷◌, In, Nodup, All, if◌then◌else◌,
  Bool-cases, arith, nat_eq, text_eq,
}
use libfilewatch.FsEvents.{Typed, FileSystem, path_length_desc}
use libfilewatch.FsEvents.Deleted.{Ordered, IsSorting}

module _ (less : Typed → Typed → Bool) where
  abbrev pub put : Typed → List Typed → List Typed
  put x [] = x ∷ []
  put x (y ∷ ys) = if less y x then y ∷ put x ys else x ∷ y ∷ ys

  abbrev pub insertion_sort : List Typed → List Typed
  insertion_sort [] = []
  insertion_sort (x ∷ xs) = put x (insertion_sort xs)

  In-put : (e x : Typed) (ys : List Typed) → In e (put x ys) ↔ ((e ≡ x) ⊎ In e ys)
  In-put e x [] = (λ h. h, λ h. h)
  In-put e x (y ∷ ys) = ground (arith, In-put e x ys)

  In-insertion_sort : (e : Typed) (xs : List Typed) → In e (insertion_sort xs) ↔ In e xs
  In-insertion_sort e [] = (λ h. h, λ h. h)
  In-insertion_sort e (x ∷ xs) =
      ground (arith, In-put e x (insertion_sort xs), In-insertion_sort e xs)

  put-Nodup : (x : Typed) (ys : List Typed) → ¬ In x ys → Nodup ys → Nodup (put x ys)
  put-Nodup x [] n u = (λ h. h, tt)
  put-Nodup x (y ∷ ys) n u = ground (arith, put-Nodup x ys (λ h. n (inr h)) u.1, In-put y x ys)

  insertion_sort-Nodup : (xs : List Typed) → Nodup xs → Nodup (insertion_sort xs)
  insertion_sort-Nodup [] u = tt
  insertion_sort-Nodup (x ∷ xs) u =
      put-Nodup x (insertion_sort xs) (λ m. u.0 ((In-insertion_sort x xs).0 m))
        (insertion_sort-Nodup xs u.1)

not_both : (x y : Typed) → path_length_desc y x ≡ true → path_length_desc x y ≡ false
unfolding path_length_desc
not_both x y h = ground arith

not_less_trans :
    (x y z : Typed)
    → path_length_desc y x ≡ false
    → path_length_desc z y ≡ false
    → path_length_desc z x ≡ false
unfolding path_length_desc
not_less_trans x y z h k = ground arith

abbrev LastOf : Typed → List Typed → Type 0
LastOf x ys = All (λ y. path_length_desc y x ≡ false) ys

weaken-LastOf :
    (x y : Typed) (ys : List Typed) → path_length_desc y x ≡ false → LastOf y ys → LastOf x ys
weaken-LastOf x y [] h l = tt
weaken-LastOf x y (z ∷ ys) h l = (not_less_trans x y z h l.0, weaken-LastOf x y ys h l.1)

put-LastOf :
    (z x : Typed) (ys : List Typed)
    → path_length_desc x z ≡ false
    → LastOf z ys
    → LastOf z (put path_length_desc x ys)
put-LastOf z x [] h l = (h, tt)
put-LastOf z x (y ∷ ys) h l = ground (arith, put-LastOf z x ys h l.1)

put-Ordered : (x : Typed) (ys : List Typed) → Ordered ys → Ordered (put path_length_desc x ys)
put-Ordered x [] o = (tt, tt)
put-Ordered x (y ∷ ys) o = elim (Bool-cases (path_length_desc y x)) [
  | inl e ↦ rw e (put-LastOf y x ys (not_both x y e) o.0, put-Ordered x ys o.1)
  | inr e ↦ rw e ((e, weaken-LastOf x y ys e o.0), o)
]

insertion_sort-Ordered : (xs : List Typed) → Ordered (insertion_sort path_length_desc xs)
insertion_sort-Ordered [] = tt
insertion_sort-Ordered (x ∷ xs) =
    put-Ordered x (insertion_sort path_length_desc xs) (insertion_sort-Ordered xs)

-- Nothing is there.
abbrev pub empty_files : FileSystem
empty_files = record { stat_dir = λ p. none; list_dir = λ p. none; sort = insertion_sort }

pub empty_files-IsSorting : IsSorting empty_files
empty_files-IsSorting = record {
  permutes = λ l e. In-insertion_sort path_length_desc e l;
  distinct = insertion_sort-Nodup path_length_desc;
  ordered = insertion_sort-Ordered;
}
