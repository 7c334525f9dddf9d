-- ===== src/Tests/Programs.antt =====
-- The program of examples/example.cpp on concrete input.
use libfilewatch.Base.{
  ◌≡◌, ◌⊎◌, ◌↔◌, refl, true, false, List, [], ◌∷◌, All, In, Nodup, codes, none, some, nat_eq,
  text_eq, arith,
}
use libfilewatch.Event.{EventType, create, modify}
use libfilewatch.Timer.{new_timer}
use libfilewatch.Timer.Runs.{idle}
use libfilewatch.Watcher.{Platform, returned, new_watcher}
use libfilewatch.Backend.{System}
use libfilewatch.Example.{
  Text, Options, no_options, parse_event_type, tokens, parse_events, parsed, parse_args,
}
use libfilewatch.Example.Names.{IsListed, HasStranger, parse_events_lem}
use libfilewatch.Example.Arguments.{to_args, IsAsked, parse_args-to_args}
use libfilewatch.Example.Printed.{print_config}
use libfilewatch.Example.Session.{main, watch, write}
use libfilewatch.Example.Watched.{IsWatched, IsReported, main_lem}
use libfilewatch.Tests.Instances.{literal, all_folders, taking}

-- A name in capitals, an empty token and a name that comes again.
abbrev list : Text
list = codes "create,MODIFY,,create"

found : parse_events list [] ≡ some (create ∷ modify ∷ [])
unfolding parse_events parse_event_type nat_eq text_eq
found = refl

parse_events_lem_example :
    ((parse_events list [] ≡ none) ↔ HasStranger (tokens list))
    × ((es : List EventType)
        → parse_events list [] ≡ some es
        → Nodup es × ((t : EventType) → In t es ↔ IsListed (tokens list) t))
parse_events_lem_example = parse_events_lem list

abbrev wanted : Options
wanted = record {
  directories = codes "/a" ∷ codes "--file" ∷ [];
  files = codes "/b" ∷ [];
  event_types = modify ∷ create ∷ [];
  regex_pattern = codes "x";
  has_regex = true;
  recursive = true;
}

wanted-IsAsked : IsAsked wanted
wanted-IsAsked = record {
  somewhere = refl;
  once = ground arith;
  no_pattern = λ h. absurd (ground arith);
}

parse_args-to_args_example : parse_args (to_args wanted) no_options ≡ parsed wanted
parse_args-to_args_example = parse_args-to_args wanted wanted-IsAsked

abbrev new_system : System literal taking (List Text)
new_system = record {
  watcher = new_watcher 0 0;
  timers = idle (λ p. new_timer none false);
  world = [];
}

abbrev same : System literal taking (List Text) → System literal taking (List Text)
same s = s

main_lem_example :
    let args = to_args wanted in
    let e = main all_folders same (codes "p") args new_system in
    ((text : Text) × (t : System literal taking (List Text)) × (e
        ≡ record { status = 1; errors = text ∷ []; left = t })
      × IsReported all_folders text t)
    ⊎ ((t : System literal taking (List Text)) × All (IsWatched all_folders t) wanted.directories
        × All (IsWatched all_folders t) wanted.files
        × (e ≡ watch same (write (print_config wanted) t)))
main_lem_example =
    main_lem all_folders same (codes "p") (to_args wanted) new_system wanted
      parse_args-to_args_example

-- A backend that does not start.
abbrev refusing : Platform
refusing = record taking { start = λ n. (returned false, n) }

abbrev not_started : System literal refusing (List Text)
not_started = record {
  watcher = new_watcher {P = refusing} 7 0;
  timers = idle (λ p. new_timer none false);
  world = [];
}
