-- ===== src/FsEvents/Deleted.antt =====
-- What `processFSEvents` (src/core/MacOSWatcher.cpp) reports for a directory that is gone.
use libfilewatch.Base.{
  ◌≤◌, ◌≡◌, ◌≢◌, ◌↔◌, refl, ap, ◌∙◌, Bool, true, false, not, ◌&&◌, List, [], ◌∷◌, ◌++◌, keep, In,
  In-keep, Nodup, All, length, nat_eq, text_eq, some, arith,
}
use libfilewatch.Base.Dict
use libfilewatch.Base.Dict.{Dict, lookup, Unique}
use libfilewatch.Path.{FilePath}
use libfilewatch.Event.{delete, PathType, directory, file_event}
use libfilewatch.Known.{is_path_prefix_of, forget_path, has_seen_path, get_known_path_type}
use libfilewatch.Known.Forget.{forget_path_lem}
use libfilewatch.FsEvents.{
  Typed, FileSystem, Flags, path_length_desc, is_descendant, delete_events, Batch,
  collect_known_descendants, flagged_type, on_removed, on_flagged,
}

abbrev pub Ordered : List Typed → Type 0
Ordered [] = Unit {0}
Ordered (x ∷ xs) = All (λ y. path_length_desc y x ≡ false) xs × Ordered xs

-- What the standard says of `std::sort` with this comparison.
pub record IsSorting (F : FileSystem) : Type 0 where
  pub permutes : (l : List Typed) (e : Typed) → In e (F.sort path_length_desc l) ↔ In e l
  pub distinct : (l : List Typed) → Nodup l → Nodup (F.sort path_length_desc l)
  pub ordered : (l : List Typed) → Ordered (F.sort path_length_desc l)

-- No path comes after a shorter one.
abbrev pub Descending : List Typed → Type 0
Descending [] = Unit {0}
Descending (x ∷ xs) = All (λ y. length y.0 ≤ length x.0) xs × Descending xs

not_longer : (x y : Typed) → path_length_desc y x ≡ false → length y.0 ≤ length x.0
unfolding path_length_desc
not_longer x y h = ground arith

none_longer :
    (x : Typed) (ys : List Typed)
    → All (λ y. path_length_desc y x ≡ false) ys
    → All (λ y. length y.0 ≤ length x.0) ys
none_longer x [] h = tt
none_longer x (y ∷ ys) h = (not_longer x y h.0, none_longer x ys h.1)

Ordered-Descending : (xs : List Typed) → Ordered xs → Descending xs
Ordered-Descending [] h = tt
Ordered-Descending (x ∷ xs) h = (none_longer x xs h.0, Ordered-Descending xs h.1)

keep-Nodup : (t : Typed → Bool) (d : List Typed) → Unique d → Nodup (keep t d)
keep-Nodup t [] u = tt
keep-Nodup t ((p, k) ∷ d) u =
    ground (arith, keep-Nodup t d u.1, In-keep t d (p, k), Dict.not-In_of_none p k d u.0)

descendant_iff :
    (path p : FilePath) (t : PathType) (d : Dict FilePath PathType)
    → Unique d
    → In (p, t) (keep (is_descendant path) d)
      ↔ ((lookup p d ≡ some t) × (p ≢ path) × (is_path_prefix_of path p ≡ true))
descendant_iff path p t d u = ground (
  arith,
  In-keep (is_descendant path) d (p, t),
  Dict.lookup-of_In p t d u,
  Dict.In-of_lookup p t d,
)

cleared : (a x : Bool) → x ≡ true → (a && not x) ≡ false
cleared a x h = ground arith

module _ (F : FileSystem) where
  on_removed-batch :
      (path : FilePath) (b : Batch)
      → let ds = collect_known_descendants F path b.known in
        ((on_removed F path directory b).batch
          ≡ b.batch ++ delete_events ds ++ file_event delete path directory ∷ [])
        × ((on_removed F path directory b).known ≡ forget_path path b.known)
  unfolding on_removed
  on_removed-batch path b = (refl, refl)

  on_flagged_removed :
      (path : FilePath) (flags : Flags) (b : Batch)
      → flags.removed ≡ true
      → flagged_type F path flags b.known ≡ directory
      → on_flagged F path flags b ≡ on_removed F path directory b
  unfolding on_flagged
  on_flagged_removed path flags b r d = rw (r, d) refl

  -- When a directory is flagged as removed, and no path has two types, the deletions of all known
  -- paths below it are reported, each once and with its type, no path after a shorter one, so that
  -- what a directory holds goes before it, and then the deletion of the directory; afterwards neither
  -- it nor a path below it is known.
  pub removed_directory_reported :
      (path : FilePath) (flags : Flags) (b : Batch)
      → IsSorting F
      → Unique b.known.known_path_types
      → flags.removed ≡ true
      → flagged_type F path flags b.known ≡ directory
      → let r = on_flagged F path flags b in
        (ds : List Typed) × (r.batch
          ≡ b.batch ++ delete_events ds ++ file_event delete path directory ∷ [])
        × Nodup ds
        × Descending ds
        × ((p : FilePath) (t : PathType)
            → In (p, t) ds ↔ (
                (get_known_path_type p b.known ≡ some t)
                × (p ≢ path)
                × (is_path_prefix_of path p ≡ true)))
        × ((q : FilePath) → is_path_prefix_of path q ≡ true → has_seen_path q r.known ≡ false)
  unfolding collect_known_descendants
  removed_directory_reported path flags b sorts u gone dir =
      let types = b.known.known_path_types in
      let below = keep (is_descendant path) types in
      let into = on_flagged_removed path flags b gone dir in
      let done = on_removed-batch path b in
      (
        F.sort path_length_desc below,
        ap (λ r. r.batch) into ∙ done.0,
        sorts.distinct below (keep-Nodup (is_descendant path) types u),
        Ordered-Descending (F.sort path_length_desc below) (sorts.ordered below),
        λ p t. ground (arith, sorts.permutes below (p, t), descendant_iff path p t types u),
        λ q h.
            ap (λ (r : Batch). has_seen_path q r.known) into
            ∙ (ap (has_seen_path q) done.1
                ∙ (forget_path_lem path q b.known u).0
                ∙ cleared (has_seen_path q b.known) (is_path_prefix_of path q) h),
      )
