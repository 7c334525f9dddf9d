-- ===== src/Example.antt =====
-- The program of examples/example.cpp: its options and how it reads them from its arguments. A text is
-- the list of its bytes.
pub mod Names
pub mod Printed
pub mod Session
pub mod Watched
pub mod Arguments
use libfilewatch.Base.{
  ℕ, ◌+◌, Bool, true, false, ◌&&◌, ◌||◌, List, [], ◌∷◌, ◌++◌, map, contains, is_empty, codes,
  if◌then◌else◌, leb, ◌==◌, nat_eq, text_eq, Option, none, some,
}
use libfilewatch.Event.{EventType, create, modify, delete, rename, PathType, file, directory}

abbrev pub Text : Type 0
Text = List ℕ

abbrev pub event_type_to_string : EventType → Text
event_type_to_string create = codes "CREATE"
event_type_to_string modify = codes "MODIFY"
event_type_to_string delete = codes "DELETE"
event_type_to_string rename = codes "RENAME"

abbrev pub path_type_to_string : PathType → Text
path_type_to_string directory = codes "DIR"
path_type_to_string file = codes "FILE"

pub record Options : Type 0 where
  pub directories : List Text
  pub files : List Text
  pub event_types : List EventType
  pub regex_pattern : Text
  pub has_regex : Bool
  pub recursive : Bool

-- The options before the first argument is read.
abbrev pub no_options : Options
no_options = record {
  directories = [];
  files = [];
  event_types = [];
  regex_pattern = [];
  has_regex = false;
  recursive = false;
}

-- `tolower` in the locale "C", in which the program stays.
abbrev pub lower : ℕ → ℕ
lower c = if leb 65 c && leb c 90 then c + 32 else c

unfoldable pub to_lower : Text → Text
to_lower value = map lower value

unfoldable pub parse_event_type : Text → Option EventType
unfolding to_lower
parse_event_type token =
    let name = to_lower token in
    if name == codes "create"
    then some create
    else if name == codes "modify"
    then some modify
    else if name == codes "delete"
    then some delete
    else if name == codes "rename"
    then some rename
    else none

-- `static_cast<int>(type)`
abbrev pub event_type_key : EventType → ℕ
event_type_key create = 0
event_type_key modify = 1
event_type_key delete = 2
event_type_key rename = 3

abbrev pub comma : ℕ
comma = 44

abbrev pub put_first : ℕ → List Text → List Text
put_first c [] = (c ∷ []) ∷ []
put_first c (t ∷ ts) = (c ∷ t) ∷ ts

-- What `getline` with a comma reads in turn: behind a comma at the end there is nothing more.
unfoldable pub tokens : Text → List Text
tokens [] = []
tokens (c ∷ cs) = let rest = tokens cs in if c == comma then [] ∷ rest else put_first c rest

-- The loop of `parseEvents`, with the keys that it has seen.
unfoldable pub parse_tokens : List Text → List ℕ → List EventType → Option (List EventType)
unfolding parse_event_type
parse_tokens [] seen events = some events
parse_tokens (token ∷ ts) seen events =
    let skip = parse_tokens ts seen events in
    if is_empty token then skip else elim (parse_event_type token) [
      | none ↦ none
      | some type ↦
          let key = event_type_key type in
          let more = parse_tokens ts (key ∷ seen) (events ++ type ∷ []) in
          if contains seen key then skip else more
    ]

unfoldable pub parse_events : Text → List EventType → Option (List EventType)
unfolding tokens parse_tokens
parse_events text events = parse_tokens (tokens text) [] events

-- What `parseArgs` comes to: options, the wish for help, or a refusal, with what is printed.
pub data Parsed : Type 0 where
  parsed : Options → Parsed
  asked_help : Parsed
  refused : Text → Parsed

abbrev pub help_flag : Text
help_flag = codes "--help"

abbrev pub recursive_flag : Text
recursive_flag = codes "--recursive"

abbrev pub dir_flag : Text
dir_flag = codes "--dir"

abbrev pub file_flag : Text
file_flag = codes "--file"

abbrev pub events_flag : Text
events_flag = codes "--events"

abbrev pub regex_flag : Text
regex_flag = codes "--regex"

abbrev pub takes_value : Text → Bool
takes_value arg = arg == dir_flag || arg == file_flag || arg == events_flag || arg == regex_flag

-- An option with its value; no result is an invalid list of events.
unfoldable pub with_value : Text → Text → Options → Option Options
unfolding parse_events
with_value arg value o =
    if arg == dir_flag
    then some (record o { directories = o.directories ++ value ∷ [] })
    else if arg == file_flag
    then some (record o { files = o.files ++ value ∷ [] })
    else if arg == events_flag
    then elim (parse_events value o.event_types) [
      | none ↦ none
      | some types ↦ some (record o { event_types = types })
    ]
    else some (record o { regex_pattern = value; has_regex = true })

-- What follows the loop of `parseArgs`.
abbrev pub or_here : Options → Options
or_here o =
    if is_empty o.directories && is_empty o.files
    then record o { directories = o.directories ++ codes "." ∷ [] }
    else o

unfoldable pub parse_args : List Text → Options → Parsed
unfolding with_value
parse_args [] o = parsed (or_here o)
parse_args (arg ∷ []) o =
    if arg == help_flag
    then asked_help
    else if arg == recursive_flag
    then parsed (or_here (record o { recursive = true }))
    else if takes_value arg
    then refused (codes "Missing value for option: " ++ arg)
    else refused (codes "Unknown option: " ++ arg)
parse_args (arg ∷ value ∷ args) o =
    let further = parse_args (value ∷ args) (record o { recursive = true }) in
    let valued : Parsed = elim (with_value arg value o) [
      | none ↦ refused (codes "Invalid events list: " ++ value)
      | some p ↦ parse_args args p
    ] in
    if arg == help_flag
    then asked_help
    else if arg == recursive_flag
    then further
    else if takes_value arg
    then valued
    else refused (codes "Unknown option: " ++ arg)
