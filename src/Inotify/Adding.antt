-- ===== src/Inotify/Adding.antt =====
-- `addWatch` (src/core/InotifyWatcher.cpp) and the tables.
use libfilewatch.Base.{ℕ, ◌≡◌, sym, subst, inl, inr, Bool, [], nat_eq, text_eq, none, arith}
use libfilewatch.Base.Dict
use libfilewatch.Base.Dict.{Dict, lookup}
use libfilewatch.Path.{FilePath, normalize_path}
use libfilewatch.Inotify.{Kernel, Inotify, RootWatch, add_directory_watch, add_watch}
use libfilewatch.Inotify.Invariant.{IsConsistent, root_at-insert, root_at-erase}
use libfilewatch.Inotify.Attach.{
  added_cases, add_directory_watch-IsConsistent, add_recursive_watches-IsConsistent, kept_if,
  kept_answer, kept_fd,
}

module _ {K : Kernel} where
  -- A root that is not entered holds no descriptor, so it may be entered and taken out again.
  entered-IsConsistent :
      (root : FilePath) (watch : RootWatch) (s : Inotify K)
      → lookup root s.root_watches ≡ none
      → IsConsistent s
      → IsConsistent (record s { root_watches = Dict.insert root watch s.root_watches })
  entered-IsConsistent root watch s e c = record {
    known = c.known;
    held = c.held;
    owned =
        λ wd r m. ground (arith, c.owned wd r, root_at-insert K.unset root r watch s.root_watches);
  }

  failed-IsConsistent :
      (path : FilePath) (rec : Bool) (watch : RootWatch) (s : Inotify K)
      → lookup path s.root_watches ≡ none
      → IsConsistent s
      → let r =
          add_directory_watch path path rec
            (record s { root_watches = Dict.insert path watch s.root_watches }) in
        r.0 ≡ none → IsConsistent (record r.1 { root_watches = Dict.erase path r.1.root_watches })
  failed-IsConsistent path rec watch s e c n =
      elim (added_cases path path rec
        (record s { root_watches = Dict.insert path watch s.root_watches })) [
          | inl (wd, u, h) ↦ cc
          | inr (inl (u, v, h)) ↦
              subst
                (λ r. IsConsistent (record r.1 { root_watches = Dict.erase path r.1.root_watches }))
                (sym h)
                (record {
                  known = c.known;
                  held = c.held;
                  owned = λ wd r m. ground (
                    arith,
                    c.owned wd r,
                    root_at-insert K.unset path r watch s.root_watches,
                    root_at-erase K.unset path r (Dict.insert path watch s.root_watches),
                  );
                })
          | inr (inr (wd, u, v, h)) ↦ cc
        ]

  -- `add_watch` for a root that is not watched keeps the tables consistent, whether it succeeds or
  -- fails and whatever the kernel answers.
  pub add_watch-IsConsistent :
      (f : ℕ) (path : FilePath) (rec : Bool) (s : Inotify K)
      → lookup (normalize_path path) s.root_watches ≡ none
      → IsConsistent s
      → IsConsistent (add_watch f path rec s).1
  unfolding add_watch
  add_watch-IsConsistent f path rec s e c =
      let norm = normalize_path path in
      let watch : RootWatch = record { root_path = norm; recursive = rec; associated_wds = [] } in
      let entered : Inotify K = record s { root_watches = Dict.insert norm watch s.root_watches } in
      let added =
        add_directory_watch-IsConsistent norm norm rec entered
          (entered-IsConsistent norm watch s e c) in
      kept_fd IsConsistent _ s.inotify_fd c (
        kept_answer IsConsistent (add_directory_watch norm norm rec entered).0
          (failed-IsConsistent norm rec watch s e c)
          (kept_if IsConsistent rec (add_recursive_watches-IsConsistent f norm norm _ added) added))
