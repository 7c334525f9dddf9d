-- ===== src/Example/Watched.antt =====
-- What the program of examples/example.cpp watches when it starts, and what it says when it does not.
use libfilewatch.Base.{
  ◌≡◌, ◌≢◌, ◌⊎◌, refl, sym, ap, subst, ◌∙◌, inl, inr, Bool, true, false, List, [], ◌∷◌, ◌++◌,
  is_empty, All, codes, if◌then◌else◌, nat_eq, text_eq, Option-cases, Bool-cases, arith,
}
use libfilewatch.Base.Dict.{has_key}
use libfilewatch.Path.{FilePath}
use libfilewatch.PathUtils.{Os, get_absolute_path}
use libfilewatch.Errc.{success, message, message_of, make_error_code}
use libfilewatch.Errc.Messages.{message_injective}
use libfilewatch.Filter.{Regex}
use libfilewatch.Watcher
use libfilewatch.Watcher.{Platform, Watcher, EventCallback, matching, returned}
use libfilewatch.Watcher.Watches.{add_watch_effect}
use libfilewatch.Backend.{System}
use libfilewatch.Client
use libfilewatch.Client.{get_last_error}
use libfilewatch.Example.{Text, Options, no_options, parsed, asked_help, refused, parse_args}
use libfilewatch.Example.Printed.{usage, print_config}
use libfilewatch.Example.Session.{
  SetUp, ready, failed, last_message, add_directory, add_directories, add_files, set_up, set_types,
  print_event, Exit, main, watch, write,
}

module _ {X : Regex} {P : Platform} {W : Type 0} (os : Os) where
  -- Whatever was watched still is.
  abbrev Grows : Watcher X P W → Watcher X P W → Type 0
  Grows s t = (k : FilePath) → has_key k s.watches ≡ true → has_key k t.watches ≡ true

  -- What a call that adds a watch leaves.
  abbrev IsAdded : FilePath → Watcher X P W → Bool × Watcher X P W → Type 0
  IsAdded path s r =
      (r.0 ≡ true → Grows s r.1 × (has_key (get_absolute_path os path) r.1.watches ≡ true))
      × (r.0 ≡ false → r.1.last_error ≢ success)

  add_watch-IsAdded :
      (path : FilePath) (recursive : Bool) (cb : EventCallback W) (s : Watcher X P W)
      → IsAdded path s (Watcher.add_watch os path recursive cb s)
  add_watch-IsAdded path recursive cb s =
      let target = get_absolute_path os path in
      let effect = add_watch_effect os path recursive cb s in
      (
        λ h. (λ k m. ground (arith, effect.1 k h), ground (arith, effect.1 target h)),
        λ h e. ground (arith, effect.0),
      )

  regex-IsAdded :
      (path pattern : FilePath) (recursive : Bool) (cb : EventCallback W) (s : Watcher X P W)
      → IsAdded path s (Watcher.add_watch_with_regex os path pattern recursive cb s)
  unfolding Watcher.add_watch_with_regex
  regex-IsAdded path pattern recursive cb s = elim (Bool-cases (is_empty path)) [
    | inl e ↦ ground arith
    | inr n ↦ elim (Option-cases (X.compile pattern)) [
      | inl e ↦ ground arith
      | inr (r, e) ↦ ground (arith, add_watch-IsAdded path recursive (matching X r cb) s)
    ]
  ]

module _ {X : Regex} {P : Platform} (os : Os) where
  abbrev pub IsWatched : System X P (List Text) → Text → Type 0
  IsWatched s path = has_key (get_absolute_path os path) s.watcher.watches ≡ true

  -- What is printed ends with the message of the last error, which is not "success".
  abbrev pub IsReported : Text → System X P (List Text) → Type 0
  IsReported text s =
      (message_of (get_last_error s) ≢ message_of (make_error_code success))
      × ((front : Text) × (text ≡ front ++ last_message s))

  -- What the loops over paths come to: all of these are watched, and what was, or it is reported why
  -- not.
  abbrev IsOutcome : List Text → System X P (List Text) → SetUp (System X P (List Text)) → Type 0
  IsOutcome paths s (ready t) = Grows os s.watcher t.watcher × All (IsWatched t) paths
  IsOutcome paths s (failed text t) = IsReported text t

  watch_more :
      (path : Text) (paths : List Text) (s t : System X P (List Text))
      (u : SetUp (System X P (List Text)))
      → Grows os s.watcher t.watcher
      → IsWatched t path
      → IsOutcome paths t u
      → IsOutcome (path ∷ paths) s u
  watch_more path paths s t (ready u) more here (g, all) =
      (λ k m. g k (more k m), (g (get_absolute_path os path) here, all))
  watch_more path paths s t (failed text u) more here h = h

  reported :
      (start path middle : Text) (s : System X P (List Text))
      → s.watcher.last_error ≢ success
      → IsReported (start ++ path ++ middle ++ last_message s) s
  reported start path middle s n =
      (λ e. n (message_injective s.watcher.last_error success e), (start ++ path ++ middle, refl))

  add_directory-IsAdded :
      (o : Options) (dir : Text) (s : System X P (List Text))
      → let r = add_directory os o dir s in IsAdded os dir s.watcher (r.0, r.1.watcher)
  unfolding Client.add_watch Client.add_watch_with_regex
  add_directory-IsAdded o dir s = ground (
    arith,
    regex-IsAdded os dir o.regex_pattern o.recursive print_event s.watcher,
    add_watch-IsAdded os dir o.recursive print_event s.watcher,
  )

  add_directories-IsOutcome :
      (o : Options) (dirs : List Text) (s : System X P (List Text))
      → IsOutcome dirs s (add_directories os o dirs s)
  unfolding add_directories
  add_directories-IsOutcome o [] s = (λ k m. m, tt)
  add_directories-IsOutcome o (dir ∷ dirs) s =
      let r = add_directory os o dir s in
      let h = add_directory-IsAdded o dir s in
      elim (Bool-cases r.0) [
        | inl done ↦
            rw (add_directories, done)
              (watch_more dir dirs s r.1 (add_directories os o dirs r.1) (h.0 done).0 (h.0 done).1
                (add_directories-IsOutcome o dirs r.1))
        | inr no_watch ↦
            rw (add_directories, no_watch)
              (reported (codes "addWatch directory failed: ") dir (codes " error=") r.1
                (h.1 no_watch))
      ]

  add_files-IsOutcome :
      (paths : List Text) (s : System X P (List Text)) → IsOutcome paths s (add_files os paths s)
  unfolding add_files Client.add_watch
  add_files-IsOutcome [] s = (λ k m. m, tt)
  add_files-IsOutcome (path ∷ paths) s =
      let r = Client.add_watch os path false print_event s in
      let h = add_watch-IsAdded os path false print_event s.watcher in
      elim (Bool-cases r.0) [
        | inl done ↦
            rw (add_files, done)
              (watch_more path paths s r.1 (add_files os paths r.1) (h.0 done).0 (h.0 done).1
                (add_files-IsOutcome paths r.1))
        | inr no_watch ↦
            rw (add_files, no_watch)
              (reported (codes "addWatch file failed: ") path (codes " error=") r.1 (h.1 no_watch))
      ]

  keep_watching :
      (s t : System X P (List Text)) (paths : List Text)
      → Grows os s.watcher t.watcher
      → All (IsWatched s) paths
      → All (IsWatched t) paths
  keep_watching s t [] g h = tt
  keep_watching s t (p ∷ paths) g h =
      (g (get_absolute_path os p) h.0, keep_watching s t paths g h.1)

  files_into :
      (o : Options) (s : System X P (List Text)) (u : SetUp (System X P (List Text)))
      → All (IsWatched s) o.directories
      → IsOutcome o.files s u
      → elim u as (λ _. Type 0) [
        | ready t ↦ All (IsWatched t) o.directories × All (IsWatched t) o.files
        | failed text t ↦ IsReported text t
      ]
  files_into o s (ready t) dirs (g, all) = (keep_watching s t o.directories g dirs, all)
  files_into o s (failed text t) dirs h = h

  set_up_lem : (o : Options) (s : System X P (List Text)) → elim (set_up os o s) as (λ _. Type 0) [
    | ready t ↦ All (IsWatched t) o.directories × All (IsWatched t) o.files
    | failed text t ↦ IsReported text t
  ]
  unfolding set_up
  set_up_lem o s =
      go (add_directories os o o.directories first)
        (add_directories-IsOutcome o o.directories first)
    where
      first : System X P (List Text)
      first = set_types o.event_types s

      go :
          (u : SetUp (System X P (List Text)))
          → IsOutcome o.directories first u
          → elim (elim u as (λ _. SetUp (System X P (List Text))) [
            | failed text t ↦ failed text t
            | ready t ↦ add_files os o.files t
          ])
              as (λ _. Type 0) [
                | ready t ↦ All (IsWatched t) o.directories × All (IsWatched t) o.files
                | failed text t ↦ IsReported text t
              ]
      go (failed text t) h = h
      go (ready t) h = files_into o t (add_files os o.files t) h.1 (add_files-IsOutcome o.files t)

  -- `main` behind the options, and behind the watches.
  abbrev set_out :
      (System X P (List Text) → System X P (List Text))
      → Options
      → SetUp (System X P (List Text))
      → Exit (System X P (List Text))
  set_out run o (failed text t) = record { status = 1; errors = text ∷ []; left = t }
  set_out run o (ready t) = watch run (write (print_config o) t)

  abbrev IsStarted :
      (System X P (List Text) → System X P (List Text))
      → Options
      → Exit (System X P (List Text))
      → Type 0
  IsStarted run o e =
      ((text : Text) × (t : System X P (List Text)) × (e
          ≡ record { status = 1; errors = text ∷ []; left = t })
        × IsReported text t)
      ⊎ ((t : System X P (List Text)) × All (IsWatched t) o.directories
          × All (IsWatched t) o.files
          × (e ≡ watch run (write (print_config o) t)))

  set_out-IsStarted :
      (run : System X P (List Text) → System X P (List Text)) (o : Options)
      (u : SetUp (System X P (List Text)))
      → elim u as (λ _. Type 0) [
        | ready t ↦ All (IsWatched t) o.directories × All (IsWatched t) o.files
        | failed text t ↦ IsReported text t
      ]
      → IsStarted run o (set_out run o u)
  set_out-IsStarted run o (failed text t) h = inl (text, t, refl, h)
  set_out-IsStarted run o (ready t) (dirs, files) = inr (t, dirs, files, refl)

  -- With arguments that are options, the program either exits with status 1, where all that it prints
  -- as an error is a line that ends with the message of the last error, and that is not "success"; or
  -- it goes on to start the watcher when every directory and every file of the options is watched.
  pub main_lem :
      (run : System X P (List Text) → System X P (List Text)) (program : Text) (args : List Text)
      (s : System X P (List Text)) (o : Options)
      → parse_args args no_options ≡ parsed o
      → let e = main os run program args s in
        ((text : Text) × (t : System X P (List Text)) × (e
            ≡ record { status = 1; errors = text ∷ []; left = t })
          × IsReported text t)
        ⊎ ((t : System X P (List Text)) × All (IsWatched t) o.directories
            × All (IsWatched t) o.files
            × (e ≡ watch run (write (print_config o) t)))
  unfolding main
  main_lem run program args s o e =
      subst (IsStarted run o)
        (sym (
          ap
            (λ r. elim r as (λ _. Exit (System X P (List Text))) [
              | asked_help ↦ record { status = 0; errors = []; left = write (usage program) s }
              | refused text ↦ record {
                status = 1;
                errors = text ∷ [];
                left = write (usage program) s;
              }
              | parsed p ↦ set_out run p (set_up os p s)
            ])
            e))
        (set_out-IsStarted run o (set_up os o s) (set_up_lem o s))

-- If the watcher does not start, and stopping it does not throw, the program exits with status 1 and
-- says that the start failed with "success": `stop` comes before the last error is read.
pub failed_start_says_success :
    {X : Regex} {P : Platform} (run : System X P (List Text) → System X P (List Text))
    (s : System X P (List Text)) (p q : P.State)
    → P.start s.watcher.platform_watcher ≡ (returned false, p)
    → P.stop p ≡ (returned tt, q)
    → ((watch run s).status ≡ 1)
      × ((watch run s).errors ≡ codes "watcher start failed: success" ∷ [])
unfolding watch Client.start Client.stop Watcher.stop message nat_eq
failed_start_says_success {X} {P} run s p q h k =
    let t = write (codes "Press Enter to stop..." ∷ []) s in
    let r = Client.start run t in
    let u = Client.stop r.1 in
    let stopped : u.watcher.last_error ≡ success = ground arith in
    let not_started : r.0 ≡ false = ground arith in
    (
      ground arith,
      ap
            (λ b.
              let e : Exit (System X P (List Text)) =
                if b then record { status = 0; errors = []; left = u } else record {
                  status = 1;
                  errors = (codes "watcher start failed: " ++ last_message u) ∷ [];
                  left = u;
                } in
              e.errors)
            not_started
          ∙ ap
              (λ e. (codes "watcher start failed: " ++ codes (message_of (make_error_code e))) ∷ [])
              stopped,
    )
