-- ===== src/Example/Names.antt =====
-- `parseEvents` (examples/example.cpp): which lists of events are taken, and as what.
use mathlib.Core.Option.{some-injective}
use libfilewatch.Base.{
  ℕ, ◌≡◌, ◌≢◌, ◌↔◌, ◌⊎◌, refl, sym, ap, subst, ◌∙◌, inl, inr, false, List, [], ◌∷◌, ◌++◌, contains,
  contains_iff, In, Nodup, append-Nodup, In-append, nat_eq, text_eq, Option, none, some,
  Option-cases, Bool-cases, arith,
}
use libfilewatch.Event.{EventType, create, modify, delete, rename}
use libfilewatch.Example.{
  Text, event_type_to_string, to_lower, parse_event_type, event_type_key, tokens, parse_tokens,
  parse_events,
}

-- A token is the name of a type, in letters of either case.
abbrev pub IsName : EventType → Text → Type 0
IsName t token = to_lower token ≡ to_lower (event_type_to_string t)

named_iff : (t : EventType) (token : Text) → (parse_event_type token ≡ some t) ↔ IsName t token
unfolding parse_event_type to_lower text_eq nat_eq
named_iff create token = ground arith
named_iff modify token = ground arith
named_iff delete token = ground arith
named_iff rename token = ground arith

pub key_injective : (s t : EventType) → event_type_key s ≡ event_type_key t → s ≡ t
key_injective s t h = ground arith

In-snoc : {A : Type 0} (xs : List A) (x y : A) → In y (xs ++ x ∷ []) ↔ (In y xs ⊎ (y ≡ x))
In-snoc xs x y = ground (arith, In-append y xs (x ∷ []))

-- One of the tokens names the type.
abbrev pub IsListed : List Text → EventType → Type 0
IsListed ts t = (token : Text) × In token ts × IsName t token

-- One of the tokens is neither empty nor the name of a type.
abbrev pub HasStranger : List Text → Type 0
HasStranger ts = (token : Text) × In token ts × (token ≢ []) × ((t : EventType) → ¬ IsName t token)

-- The types that were found, and their keys.
abbrev IsSeen : List ℕ → List EventType → Type 0
IsSeen seen events = Nodup events × ((t : EventType) → In (event_type_key t) seen ↔ In t events)

unnamed : (t : EventType) → ¬ IsName t []
unfolding to_lower
unnamed create h = ground arith
unnamed modify h = ground arith
unnamed delete h = ground arith
unnamed rename h = ground arith

IsSeen-more :
    (seen : List ℕ) (events : List EventType) (t : EventType)
    → IsSeen seen events
    → contains seen (event_type_key t) ≡ false
    → IsSeen (event_type_key t ∷ seen) (events ++ t ∷ [])
IsSeen-more seen events t h new = (
  append-Nodup t events (λ m. ground (arith, contains_iff seen (event_type_key t), h.1 t)) h.0,
  λ u. (
    λ m. elim m [
      | inl e ↦ (In-snoc events t u).1 (inr (key_injective u t e))
      | inr i ↦ (In-snoc events t u).1 (inl ((h.1 u).0 i))
    ],
    λ m. elim ((In-snoc events t u).0 m) [
      | inl i ↦ inr ((h.1 u).1 i)
      | inr e ↦ inl (ap event_type_key e)
    ],
  ),
)

-- What the loop makes of the tokens: it has a result unless one of them is a stranger, and then the
-- types that were found, and those that are listed, each once.
IsParse : List Text → List EventType → Option (List EventType) → Type 0
IsParse ts events none = HasStranger ts
IsParse ts events (some es) =
    (¬ HasStranger ts) × Nodup es × ((t : EventType) → In t es ↔ (In t events ⊎ IsListed ts t))

IsParse-skip :
    (token : Text) (ts : List Text) (events : List EventType) (o : Option (List EventType))
    → ((t : EventType) → IsName t token → In t events)
    → (token ≡ []) ⊎ ((t : EventType) × IsName t token)
    → IsParse ts events o
    → IsParse (token ∷ ts) events o
unfolding IsParse
IsParse-skip token ts events none known named (x, m, n, s) = (x, inr m, n, s)
IsParse-skip token ts events (some es) known named (clean, single, listed) = (
  λ (x, m, n, s). elim m [
    | inl e ↦ elim named [ inl z ↦ n (e ∙ z) | inr (t, i) ↦ s t (ap to_lower e ∙ i) ]
    | inr i ↦ clean (x, i, n, s)
  ],
  single,
  λ t. (
    λ m. elim ((listed t).0 m) [ inl i ↦ inl i | inr (x, i, n) ↦ inr (x, inr i, n) ],
    λ m. elim m [
      | inl i ↦ (listed t).1 (inl i)
      | inr (x, inl e, n) ↦ (listed t).1 (inl (known t (ap to_lower (sym e) ∙ n)))
      | inr (x, inr i, n) ↦ (listed t).1 (inr (x, i, n))
    ],
  ),
)

one_name : (t u : EventType) (token : Text) → IsName t token → IsName u token → t ≡ u
one_name t u token a b =
    some-injective t u (sym ((named_iff t token).1 a) ∙ (named_iff u token).1 b)

IsParse-add :
    (token : Text) (t : EventType) (ts : List Text) (events : List EventType)
    (o : Option (List EventType))
    → IsName t token
    → IsParse ts (events ++ t ∷ []) o
    → IsParse (token ∷ ts) events o
unfolding IsParse
IsParse-add token t ts events none name (x, m, n, s) = (x, inr m, n, s)
IsParse-add token t ts events (some es) name (clean, single, listed) = (
  λ (x, m, n, s). elim m [ inl e ↦ s t (ap to_lower e ∙ name) | inr i ↦ clean (x, i, n, s) ],
  single,
  λ u. (
    λ m. elim ((listed u).0 m) [
      | inl i ↦ elim ((In-snoc events t u).0 i) [
        | inl k ↦ inl k
        | inr e ↦ inr (token, inl refl, subst (λ v. IsName v token) (sym e) name)
      ]
      | inr (x, i, n) ↦ inr (x, inr i, n)
    ],
    λ m. elim m [
      | inl i ↦ (listed u).1 (inl ((In-snoc events t u).1 (inl i)))
      | inr (x, inl e, n) ↦
          (listed u).1
            (inl ((In-snoc events t u).1 (inr (one_name u t token (ap to_lower (sym e) ∙ n) name))))
      | inr (x, inr i, n) ↦ (listed u).1 (inr (x, i, n))
    ],
  ),
)

parse_tokens-IsParse :
    (ts : List Text) (seen : List ℕ) (events : List EventType)
    → IsSeen seen events
    → IsParse ts events (parse_tokens ts seen events)
unfolding parse_tokens IsParse
parse_tokens-IsParse [] seen events h = (
  λ (x, m, n, r). m,
  h.0,
  λ t. (λ m. inl m, λ m. elim m [ inl i ↦ i | inr (x, i, n) ↦ absurd i ]),
)
parse_tokens-IsParse ([] ∷ ts) seen events h =
    IsParse-skip [] ts events (parse_tokens ts seen events) (λ t n. absurd (unnamed t n)) (inl refl)
      (parse_tokens-IsParse ts seen events h)
parse_tokens-IsParse ((c ∷ cs) ∷ ts) seen events h =
    let token = c ∷ cs in
    let rest = parse_tokens ts seen events in
    elim (Option-cases (parse_event_type token)) [
      | inl e ↦
          let stranger : HasStranger (token ∷ ts) =
            (token, inl refl, λ z. cc, λ t n. absurd (ground (arith, (named_iff t token).1 n))) in
          rw (parse_tokens, e) stranger
      | inr (t, e) ↦
          let name = (named_iff t token).0 e in
          let more = parse_tokens ts (event_type_key t ∷ seen) (events ++ t ∷ []) in
          elim (Bool-cases (contains seen (event_type_key t))) [
            | inl old ↦
                let known = (h.1 t).0 ((contains_iff seen (event_type_key t)).0 old) in
                rw (parse_tokens, e, old)
                  (IsParse-skip token ts events rest
                    (λ u n. subst (λ v. In v events) (one_name t u token name n) known)
                    (inr (t, name)) (parse_tokens-IsParse ts seen events h))
            | inr new ↦
                rw (parse_tokens, e, new)
                  (IsParse-add token t ts events more name (
                    parse_tokens-IsParse ts (event_type_key t ∷ seen) (events ++ t ∷ [])
                      (IsSeen-more seen events t h new)))
          ]
    ]

IsParse-cases :
    (ts : List Text) (o : Option (List EventType))
    → IsParse ts [] o
    → ((o ≡ none) ↔ HasStranger ts)
      × ((es : List EventType)
          → o ≡ some es
          → Nodup es × ((t : EventType) → In t es ↔ IsListed ts t))
unfolding IsParse
IsParse-cases ts none h = ((λ e. h, λ s. refl), λ es e. absurd (ground arith))
IsParse-cases ts (some fs) (clean, single, listed) = (
  (λ e. absurd (ground arith), λ s. absurd (clean s)),
  λ es e.
      let same = some-injective fs es e in
      subst (λ l. Nodup l × ((t : EventType) → In t l ↔ IsListed ts t)) same
        (
          single,
          λ t. (
            λ m. elim ((listed t).0 m) [ inl i ↦ absurd i | inr l ↦ l ],
            λ l. (listed t).1 (inr l),
          ),
        ),
)

-- A list of events is refused exactly when one of its tokens between commas is neither empty nor the
-- name of a type of events, in letters of either case; otherwise the result has the types that are
-- named, and no others, each once.
pub parse_events_lem :
    (text : Text)
    → ((parse_events text [] ≡ none) ↔ HasStranger (tokens text))
      × ((es : List EventType)
          → parse_events text [] ≡ some es
          → Nodup es × ((t : EventType) → In t es ↔ IsListed (tokens text) t))
unfolding parse_events
parse_events_lem text =
    IsParse-cases (tokens text) (parse_tokens (tokens text) [] [])
      (parse_tokens-IsParse (tokens text) [] [] (tt, λ t. (λ m. absurd m, λ m. absurd m)))
