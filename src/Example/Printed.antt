-- ===== src/Example/Printed.antt =====
-- What the program of examples/example.cpp writes: its usage, its options and a line for each event.
use libfilewatch.Base.{
  ℕ, zero, suc, ◌+◌, ◌/◌, ◌%◌, List, [], ◌∷◌, ◌++◌, is_empty, codes, if◌then◌else◌, ltb, nat_eq,
}
use libfilewatch.Event.{EventType, rename, same_type, FileEvent}
use libfilewatch.Example.{Text, Options, event_type_to_string, path_type_to_string}

-- The lines of `printUsage`.
abbrev pub usage : Text → List Text
usage program =
    (codes "Usage: " ++ program ++ codes " [options]")
    ∷ []
    ∷ codes "Options:"
    ∷ codes "  --dir <path>          Add a directory to watch (repeatable)"
    ∷ codes "  --file <path>         Add a file to watch (repeatable)"
    ∷ codes "  --recursive           Watch directories recursively"
    ∷ codes "  --events <list>       Comma-separated events: create,modify,delete,rename"
    ∷ codes "  --regex <pattern>     Regex filter for directory watch paths"
    ∷ codes "  --help                Show this help"
    ∷ []
    ∷ codes "Examples:"
    ∷ codes "  filewatch_example --dir ./logs --recursive --events create,modify"
    ∷ codes "  filewatch_example --dir ./logs --regex '.*\\.(log|txt)$'"
    ∷ codes "  filewatch_example --file /tmp/a.txt --file /tmp/b.txt"
    ∷ []

-- The line that the callback writes.
abbrev pub event_line : FileEvent → Text
event_line ev =
    codes "["
    ++ event_type_to_string ev.event_type
    ++ codes "] ("
    ++ path_type_to_string ev.path_type
    ++ codes ") "
    ++ ev.path
    ++ (if same_type ev.event_type rename then codes " <= " ++ ev.old_path else [])

-- A number in decimal; as many digits as the fuel are enough, and the number itself is.
unfoldable pub digits : ℕ → ℕ → Text
digits zero n = []
digits (suc f) n = if ltb n 10 then (48 + n) ∷ [] else digits f (n / 10) ++ (48 + n % 10) ∷ []

unfoldable pub numbered : ℕ → List Text → List Text
unfolding digits
numbered i [] = []
numbered i (t ∷ ts) = (codes "    - [" ++ digits (suc i) i ++ codes "] " ++ t) ∷ numbered (suc i) ts

abbrev pub or_none : List Text → Text
or_none ts = if is_empty ts then codes " (none)" else []

abbrev pub listed : List EventType → Text
listed [] = []
listed (t ∷ ts) = codes ", " ++ event_type_to_string t ++ listed ts

abbrev pub all_or : List EventType → Text
all_or [] = codes " all"
all_or (t ∷ ts) = codes " " ++ event_type_to_string t ++ listed ts

abbrev pub print_config : Options → List Text
print_config o =
    codes "Watch configuration:"
      ∷ (codes "  Recursive: " ++ (if o.recursive then codes "true" else codes "false"))
      ∷ (codes "  Directories:" ++ or_none o.directories)
      ∷ numbered 0 o.directories
    ++ (codes "  Files:" ++ or_none o.files) ∷ numbered 0 o.files
    ++ (codes "  Events:" ++ all_or o.event_types)
      ∷ (codes "  Regex: " ++ (if o.has_regex then o.regex_pattern else codes "(none)"))
      ∷ []
