-- ===== src/Inotify/Frames.antt =====
-- A buffer of `struct inotify_event` (src/core/InotifyWatcher.cpp, `watchLoop`) as the kernel writes
-- it, read back.
use libfilewatch.Base.{
  ℕ, zero, suc, ◌+◌, ◌≤◌, ◌<◌, ◌≡◌, ◌≢◌, refl, ap, ◌∙◌, false, List, [], ◌∷◌, ◌++◌, append_assoc,
  All, map, length, length-append, take-append, drop-append, replicate, nat_eq, Option, none, some,
  arith,
}
use libfilewatch.Base.Bytes.{dword, dword_value, c_str}
use libfilewatch.Path.{FilePath}
use libfilewatch.Event.{FileEvent}
use libfilewatch.Inotify.{Kernel, Inotify}
use libfilewatch.Inotify.Events.{InotifyEvent, process_event, process_buffer}
use libfilewatch.Inotify.Loop.{mask_of, name_of, is_cut, read_event, process_bytes}

-- An event of the kernel: an event without a name has no bytes for one, and a name ends in at least
-- one null.
pub record RawEvent : Type 0 where
  pub wd : ℕ
  pub mask : ℕ
  pub cookie : ℕ
  pub name : Option (FilePath × ℕ)

abbrev pub name_bytes : Option (FilePath × ℕ) → List ℕ
name_bytes none = []
name_bytes (some (n, pad)) = n ++ 0 ∷ replicate pad 0

abbrev pub encode_event : RawEvent → List ℕ
encode_event r =
    dword r.wd
    ++ dword r.mask
    ++ dword r.cookie
    ++ dword (length (name_bytes r.name))
    ++ name_bytes r.name

abbrev pub encode_events : List RawEvent → List ℕ
encode_events [] = []
encode_events (r ∷ rs) = encode_event r ++ encode_events rs

abbrev pub event_of : RawEvent → InotifyEvent
event_of r = record {
  wd = r.wd;
  cookie = r.cookie;
  mask = mask_of r.mask;
  name = elim r.name [ some (n, _) ↦ some n | none ↦ none ];
}

abbrev pub HasNoNull : Option (FilePath × ℕ) → Type 0
HasNoNull none = Unit {0}
HasNoNull (some (n, _)) = All (λ c. c ≢ 0) n

pub record IsRaw (r : RawEvent) : Type 0 where
  pub wd_bound : r.wd < 4294967296
  pub mask_bound : r.mask < 4294967296
  pub cookie_bound : r.cookie < 4294967296
  pub size_bound : length (name_bytes r.name) < 4294967296
  pub no_null : HasNoNull r.name

c_str-null : (n r : List ℕ) → All (λ c. c ≢ 0) n → c_str (n ++ 0 ∷ r) ≡ n
unfolding nat_eq
c_str-null [] r h = refl
c_str-null (c ∷ n) r h = ground (arith, c_str-null n r h.1)

is_cut-whole : (m n : ℕ) → is_cut m (m + n) ≡ false
unfolding is_cut
is_cut-whole m n = ground arith

name_back :
    (o : Option (FilePath × ℕ)) (r : List ℕ)
    → HasNoNull o
    → name_of (length (name_bytes o)) (name_bytes o ++ r)
      ≡ elim o as (λ _. Option FilePath) [ some (n, _) ↦ some n | none ↦ none ]
unfolding nat_eq
name_back none r h = refl
name_back (some (n, pad)) r h =
    rw (take-append (n ++ 0 ∷ replicate pad 0) r, c_str-null n (replicate pad 0) h)
      (ground (arith, length-append n (0 ∷ replicate pad 0)))

read_event-encode :
    (r : RawEvent) (rest : List ℕ)
    → IsRaw r
    → read_event (encode_event r ++ rest) ≡ some (event_of r, rest)
unfolding read_event
read_event-encode r rest h =
    let name = name_bytes r.name in
    rw
      (
        dword_value r.wd h.wd_bound,
        dword_value r.mask h.mask_bound,
        dword_value r.cookie h.cookie_bound,
        dword_value (length name) h.size_bound,
        length-append name rest,
        is_cut-whole (length name) (length rest),
        name_back r.name rest h.no_null,
        drop-append name rest,
      )
      refl

length-encode : (r : RawEvent) → 16 ≤ length (encode_event r)
length-encode r = omega arith

encode_longer : (rs : List RawEvent) → length rs ≤ length (encode_events rs)
encode_longer [] = omega arith
encode_longer (r ∷ rs) =
    omega
      (arith, length-append (encode_event r) (encode_events rs), length-encode r, encode_longer rs)

module _ {K : Kernel} where
  process_one :
      (f n : ℕ) (bytes rest : List ℕ) (ev : InotifyEvent) (s : Inotify K)
      → read_event bytes ≡ some (ev, rest)
      → let first = process_event f ev s in
        let more = process_bytes f n rest first.1 in
        process_bytes f (suc n) bytes s ≡ (first.0 ++ more.0, more.1)
  unfolding process_bytes
  process_one f n bytes rest ev s e = rw (process_bytes, e) refl

  process-encode :
      (f n : ℕ) (rs : List RawEvent) (cut : List ℕ) (s : Inotify K)
      → All IsRaw rs
      → read_event cut ≡ none
      → length rs ≤ n
      → process_bytes f n (encode_events rs ++ cut) s ≡ process_buffer f (map event_of rs) s
  unfolding process_bytes process_buffer
  process-encode f zero [] cut s h e few = refl
  process-encode f (suc n) [] cut s h e few = rw e refl
  process-encode f zero (r ∷ rs) cut s h e few = absurd (omega (arith, few))
  process-encode f (suc n) (r ∷ rs) cut s h e few =
      let first = process_event f (event_of r) s in
      process_one f n (encode_events (r ∷ rs) ++ cut) (encode_events rs ++ cut) (event_of r) s (
        ap read_event (append_assoc (encode_event r) (encode_events rs) cut)
        ∙ read_event-encode r (encode_events rs ++ cut) h.0)
      ∙ ap (λ (m : List FileEvent × Inotify K). (first.0 ++ m.0, m.1))
          (process-encode f n rs cut first.1 h.1 e (omega (arith, few)))

  -- The loop of `watchLoop` reads back what the kernel writes: on a buffer of any events, one after
  -- the other, with their names and padding, and behind them possibly bytes that are too few for the
  -- head of an event, or that the loop's test for the size says are too few for the whole of it, it
  -- processes these events in turn and nothing else.
  pub process_bytes-encode :
      (f : ℕ) (rs : List RawEvent) (cut : List ℕ) (s : Inotify K)
      → All IsRaw rs
      → read_event cut ≡ none
      → let buffer = encode_events rs ++ cut in
        process_bytes f (length buffer) buffer s ≡ process_buffer f (map event_of rs) s
  process_bytes-encode f rs cut s h e =
      process-encode f _ rs cut s h e
        (omega (arith, length-append (encode_events rs) cut, encode_longer rs))
