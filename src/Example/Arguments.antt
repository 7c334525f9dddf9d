-- ===== src/Example/Arguments.antt =====
-- The arguments of the program (examples/example.cpp) written out and read again.
use libfilewatch.Base.{
  ℕ, ◌≡◌, refl, sym, ap, subst, ◌∙◌, inl, inr, map, Bool, true, false, not, ◌&&◌, List, [], ◌∷◌,
  ◌++◌, append_assoc, append-nil, is_empty, In, Nodup, codes, if◌then◌else◌, nat_eq, text_eq,
  Option, none, some, contains, arith,
}
use libfilewatch.Example.Names.{key_injective}
use libfilewatch.Event.{EventType, create, modify, delete, rename}
use libfilewatch.Example.{
  Text, Options, event_type_key, no_options, event_type_to_string, comma, tokens, parse_tokens,
  parse_events, Parsed, parsed, refused, dir_flag, file_flag, events_flag, regex_flag,
  recursive_flag, with_value, parse_args, or_here,
}

abbrev pub flagged : Text → List Text → List Text
flagged flag [] = []
flagged flag (value ∷ values) = flag ∷ value ∷ flagged flag values

-- The names with commas between.
abbrev pub joined : List EventType → Text
joined [] = []
joined (t ∷ []) = event_type_to_string t
joined (t ∷ u ∷ ts) = event_type_to_string t ++ comma ∷ joined (u ∷ ts)

abbrev pub when : Bool → List Text → List Text
when b args = if b then args else []

-- Arguments that ask for the options.
abbrev pub to_args : Options → List Text
to_args o =
    flagged dir_flag o.directories
    ++ (flagged file_flag o.files
        ++ (when (not (is_empty o.event_types)) (events_flag ∷ joined o.event_types ∷ [])
            ++ (when o.has_regex (regex_flag ∷ o.regex_pattern ∷ [])
                ++ when o.recursive (recursive_flag ∷ []))))

flagged-dirs :
    (ds args : List Text) (o : Options)
    → parse_args (flagged dir_flag ds ++ args) o
      ≡ parse_args args (record o { directories = o.directories ++ ds })
unfolding parse_args text_eq nat_eq
flagged-dirs [] args o =
    ap (λ l. parse_args args (record o { directories = l })) (sym (append-nil o.directories))
flagged-dirs (d ∷ ds) args o =
    flagged-dirs ds args (record o { directories = o.directories ++ d ∷ [] })
    ∙ ap (λ l. parse_args args (record o { directories = l }))
        (append_assoc o.directories (d ∷ []) ds)

flagged-files :
    (fs args : List Text) (o : Options)
    → parse_args (flagged file_flag fs ++ args) o
      ≡ parse_args args (record o { files = o.files ++ fs })
unfolding parse_args text_eq nat_eq
flagged-files [] args o =
    ap (λ l. parse_args args (record o { files = l })) (sym (append-nil o.files))
flagged-files (f ∷ fs) args o =
    flagged-files fs args (record o { files = o.files ++ f ∷ [] })
    ∙ ap (λ l. parse_args args (record o { files = l })) (append_assoc o.files (f ∷ []) fs)

tokens-last : (t : EventType) → tokens (event_type_to_string t) ≡ event_type_to_string t ∷ []
unfolding tokens nat_eq
tokens-last create = refl
tokens-last modify = refl
tokens-last delete = refl
tokens-last rename = refl

tokens-first :
    (t : EventType) (text : Text)
    → tokens (event_type_to_string t ++ comma ∷ text) ≡ event_type_to_string t ∷ tokens text
unfolding tokens nat_eq
tokens-first create text = refl
tokens-first modify text = refl
tokens-first delete text = refl
tokens-first rename text = refl

tokens-joined : (ts : List EventType) → tokens (joined ts) ≡ map event_type_to_string ts
unfolding tokens
tokens-joined [] = refl
tokens-joined (t ∷ []) = tokens-last t
tokens-joined (t ∷ u ∷ ts) =
    tokens-first t (joined (u ∷ ts)) ∙ ap (λ l. event_type_to_string t ∷ l) (tokens-joined (u ∷ ts))

-- A name is read.
parse_name :
    (t : EventType) (ts : List Text) (seen : List ℕ) (events : List EventType)
    → contains seen (event_type_key t) ≡ false
    → parse_tokens (event_type_to_string t ∷ ts) seen events
      ≡ parse_tokens ts (event_type_key t ∷ seen) (events ++ t ∷ [])
unfolding parse_tokens text_eq nat_eq
parse_name create ts seen events h = rw h refl
parse_name modify ts seen events h = rw h refl
parse_name delete ts seen events h = rw h refl
parse_name rename ts seen events h = rw h refl

parse_names :
    (ts : List EventType) (seen : List ℕ) (events : List EventType)
    → Nodup ts
    → ((t : EventType) → In t ts → contains seen (event_type_key t) ≡ false)
    → parse_tokens (map event_type_to_string ts) seen events ≡ some (events ++ ts)
unfolding parse_tokens
parse_names [] seen events n new = ap some (sym (append-nil events))
parse_names (t ∷ ts) seen events n new =
    parse_name t (map event_type_to_string ts) seen events (new t (inl refl))
    ∙ (parse_names ts (event_type_key t ∷ seen) (events ++ t ∷ []) n.1 (λ u m.
          ground
            (arith, new u (inr m), key_injective u t, subst (λ v. In v ts) {x = u} {y = t}, n.0))
        ∙ ap some (append_assoc events (t ∷ []) ts))

with_events :
    (ts : List EventType) (args : List Text) (o : Options)
    → Nodup ts
    → parse_args
        (when (not (is_empty ts)) (events_flag ∷ joined ts ∷ []) ++ args)
        (record o { event_types = [] })
      ≡ parse_args args (record o { event_types = ts })
unfolding parse_args with_value text_eq nat_eq parse_events
with_events [] args o n = refl
with_events (t ∷ ts) args o n =
    let text = joined (t ∷ ts) in
    let read : parse_tokens (tokens text) [] [] ≡ some (t ∷ ts) =
      ap (λ l. parse_tokens l [] []) (tokens-joined (t ∷ ts))
      ∙ parse_names (t ∷ ts) [] [] n (λ u m. refl) in
    let taken : Option (List EventType) → Option Options =
      λ r. elim r [ none ↦ none | some types ↦ some (record o { event_types = types }) ] in
    ap
      (λ r. elim (taken r) as (λ _. Parsed) [
        | none ↦ refused (codes "Invalid events list: " ++ text)
        | some p ↦ parse_args args p
      ])
      read

with_regex :
    (b : Bool) (pattern : Text) (args : List Text) (o : Options)
    → (b ≡ false → pattern ≡ [])
    → parse_args
        (when b (regex_flag ∷ pattern ∷ []) ++ args)
        (record o { regex_pattern = []; has_regex = false })
      ≡ parse_args args (record o { regex_pattern = pattern; has_regex = b })
unfolding parse_args with_value text_eq nat_eq
with_regex true pattern args o h = refl
with_regex false pattern args o h =
    ap (λ p. parse_args args (record o { regex_pattern = p; has_regex = false })) (sym (h refl))

with_recursive :
    (b : Bool) (o : Options)
    → parse_args (when b (recursive_flag ∷ [])) (record o { recursive = false })
      ≡ parsed (or_here (record o { recursive = b }))
unfolding parse_args text_eq nat_eq
with_recursive true o = refl
with_recursive false o = refl

-- Options that arguments can ask for.
pub record IsAsked (o : Options) : Type 0 where
  pub somewhere : is_empty o.directories && is_empty o.files ≡ false
  pub once : Nodup o.event_types
  pub no_pattern : o.has_regex ≡ false → o.regex_pattern ≡ []

-- Options that watch a directory or a file, list no type of events twice and have a pattern only where
-- one is used are read again from the arguments that ask for them.
pub parse_args-to_args : (o : Options) → IsAsked o → parse_args (to_args o) no_options ≡ parsed o
parse_args-to_args o h =
    let last = when o.recursive (recursive_flag ∷ []) in
    let regex = when o.has_regex (regex_flag ∷ o.regex_pattern ∷ []) in
    let events = when (not (is_empty o.event_types)) (events_flag ∷ joined o.event_types ∷ []) in
    let dirs : Options = record no_options { directories = o.directories } in
    let files : Options = record dirs { files = o.files } in
    let typed : Options = record files { event_types = o.event_types } in
    let matched : Options = record typed {
      regex_pattern = o.regex_pattern;
      has_regex = o.has_regex;
    } in
    flagged-dirs o.directories (flagged file_flag o.files ++ (events ++ (regex ++ last))) no_options
    ∙ (flagged-files o.files (events ++ (regex ++ last)) dirs
        ∙ (with_events o.event_types (regex ++ last) files h.once
            ∙ (with_regex o.has_regex o.regex_pattern last typed h.no_pattern
                ∙ (with_recursive o.recursive matched ∙ ground (arith, h.somewhere)))))
