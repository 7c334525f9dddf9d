-- ===== src/Example/Session.antt =====
-- `main` of examples/example.cpp: the watches that it adds, the run and its exit status. The world of
-- the client is what was written to the standard output, a text for each line.
use libfilewatch.Base.{
  ℕ, Bool, false, List, [], ◌∷◌, ◌++◌, is_empty, codes, if◌then◌else◌, text_eq, nat_eq,
}
use libfilewatch.PathUtils.{Os}
use libfilewatch.Errc.{message_of}
use libfilewatch.Event.{EventType}
use libfilewatch.Filter.{Regex, blank_filter, set_event_types}
use libfilewatch.Watcher.{Platform, EventCallback}
use libfilewatch.Backend.{System}
use libfilewatch.Client
use libfilewatch.Client.{get_last_error, set_filter}
use libfilewatch.Example.{Text, Options, no_options, parsed, asked_help, refused, parse_args}
use libfilewatch.Example.Printed.{usage, print_config, event_line}

abbrev pub print_event : EventCallback (List Text)
print_event ev out = out ++ event_line ev ∷ []

-- The watches were added, or one was not: then what is printed as an error.
pub data SetUp (S : Type 0) : Type 0 where
  ready : S → SetUp S
  failed : Text → S → SetUp S

pub record Exit (S : Type 0) : Type 0 where
  pub status : ℕ
  pub errors : List Text
  pub left : S

module _ {X : Regex} {P : Platform} where
  abbrev pub last_message : System X P (List Text) → Text
  last_message s = codes (message_of (get_last_error s))

  abbrev pub set_types : List EventType → System X P (List Text) → System X P (List Text)
  set_types types s =
      if is_empty types then s else set_filter (set_event_types types blank_filter) s

  -- One directory.
  abbrev pub add_directory :
      Os → Options → Text → System X P (List Text) → Bool × System X P (List Text)
  add_directory os o dir s =
      if o.has_regex
      then Client.add_watch_with_regex os dir o.regex_pattern o.recursive print_event s
      else Client.add_watch os dir o.recursive print_event s

  unfoldable pub add_directories :
      Os → Options → List Text → System X P (List Text) → SetUp (System X P (List Text))
  unfolding Client.add_watch Client.add_watch_with_regex
  add_directories os o [] s = ready s
  add_directories os o (dir ∷ dirs) s =
      let r = add_directory os o dir s in
      let further = add_directories os o dirs r.1 in
      let text =
        codes "addWatch directory failed: " ++ dir ++ codes " error=" ++ last_message r.1 in
      if r.0 then further else failed text r.1

  unfoldable pub add_files :
      Os → List Text → System X P (List Text) → SetUp (System X P (List Text))
  unfolding Client.add_watch
  add_files os [] s = ready s
  add_files os (path ∷ paths) s =
      let r = Client.add_watch os path false print_event s in
      let further = add_files os paths r.1 in
      let text = codes "addWatch file failed: " ++ path ++ codes " error=" ++ last_message r.1 in
      if r.0 then further else failed text r.1

  -- The filter and the watches.
  unfoldable pub set_up : Os → Options → System X P (List Text) → SetUp (System X P (List Text))
  unfolding add_directories add_files
  set_up os o s = elim (add_directories os o o.directories (set_types o.event_types s)) [
    | failed text t ↦ failed text t
    | ready t ↦ add_files os o.files t
  ]

  abbrev pub write : List Text → System X P (List Text) → System X P (List Text)
  write lines s = record s { world = s.world ++ lines }

  -- The thread that starts the watcher, the wait for the key and what follows. The watcher has failed
  -- to start, or its loop runs, when the key comes; `run` is what the loop does up to its end.
  unfoldable pub watch :
      (System X P (List Text) → System X P (List Text))
      → System X P (List Text)
      → Exit (System X P (List Text))
  unfolding Client.start Client.stop
  watch run s =
      let r = Client.start run (write (codes "Press Enter to stop..." ∷ []) s) in
      let t = Client.stop r.1 in
      if r.0 then record { status = 0; errors = []; left = t } else record {
        status = 1;
        errors = (codes "watcher start failed: " ++ last_message t) ∷ [];
        left = t;
      }

  -- `main` for the name of the program and its arguments, with a new file watcher.
  unfoldable pub main :
      Os
      → (System X P (List Text) → System X P (List Text))
      → Text
      → List Text
      → System X P (List Text)
      → Exit (System X P (List Text))
  unfolding parse_args set_up watch
  main os run program args s = elim (parse_args args no_options) [
    | asked_help ↦ record { status = 0; errors = []; left = write (usage program) s }
    | refused text ↦ record { status = 1; errors = text ∷ []; left = write (usage program) s }
    | parsed o ↦ elim (set_up os o s) [
      | failed text t ↦ record { status = 1; errors = text ∷ []; left = t }
      | ready t ↦ watch run (write (print_config o) t)
    ]
  ]
