-- ===== src/Windows/Layout.antt =====
-- A buffer of notifications (src/core/WindowsWatcher.cpp, `processNotifications`) as the system writes it: entry
-- after entry, each but the last padded to a multiple of four bytes and pointing to the next.
use libfilewatch.Base.{
  ℕ, zero, suc, ◌+◌, ◌*◌, ◌/◌, ◌%◌, ◌≤◌, ◌<◌, ◌≡◌, refl, sym, ap, ◌∙◌, List, [], ◌∷◌, ◌++◌, All,
  length, length-append, drop, drop-append, if◌then◌else◌, ◌==◌, nat_eq, some, arith,
}
use libfilewatch.Base.Bytes.{dword, dword_value}
use libfilewatch.Windows.Notify.{read_units, read_notification}

-- What happened to a file: an action and the name, in 16-bit units.
pub record Change : Type 0 where
  pub action : ℕ
  pub name : List ℕ

pub record IsChange (c : Change) : Type 0 where
  pub action_bound : c.action < 4294967296
  pub unit_bound : All (λ u. u < 65536) c.name

abbrev pub encode_units : List ℕ → List ℕ
encode_units [] = []
encode_units (u ∷ us) = u % 256 ∷ u / 256 ∷ encode_units us

abbrev pub padding : List ℕ → List ℕ
padding us = if length us % 2 == 0 then [] else 0 ∷ 0 ∷ []

abbrev pub body : ℕ → Change → List ℕ
body next c = dword next ++ dword c.action ++ dword (2 * length c.name) ++ encode_units c.name

abbrev pub padded : ℕ → Change → List ℕ
padded next c = body next c ++ padding c.name

abbrev pub stride : Change → ℕ
stride c = 12 + 2 * length c.name + length (padding c.name)

abbrev pub encode : Change → List Change → List ℕ
encode c [] = body 0 c
encode c (d ∷ cs) = padded (stride c) c ++ encode d cs

read_units-encode :
    (us r : List ℕ)
    → All (λ u. u < 65536) us
    → read_units (length us) (encode_units us ++ r) ≡ some us
unfolding read_units
read_units-encode [] r h = refl
read_units-encode (u ∷ us) r h =
    rw (read_units-encode us r h.1) (ap (λ (n : ℕ). some (n ∷ us)) (omega arith))

length-encode_units : (us : List ℕ) → length (encode_units us) ≡ 2 * length us
length-encode_units [] = refl
length-encode_units (u ∷ us) = omega (arith, length-encode_units us)

pub length-padded : (next : ℕ) (c : Change) → length (padded next c) ≡ stride c
length-padded next c =
    omega (arith, length-append (encode_units c.name) (padding c.name), length-encode_units c.name)

pub length-body : (next : ℕ) (c : Change) → length (body next c) ≡ 12 + 2 * length c.name
length-body next c = omega (arith, length-encode_units c.name)

halved : (n : ℕ) → 2 * n / 2 ≡ n
halved n = omega arith

suc-add : (m n : ℕ) → suc m + n ≡ suc (m + n)
suc-add m n = omega arith

pub read_body :
    (next : ℕ) (c : Change) (r : List ℕ)
    → next < 4294967296
    → 2 * length c.name < 4294967296
    → IsChange c
    → read_notification (body next c ++ r)
      ≡ some (record { next_entry_offset = next; action = c.action; file_name = c.name })
unfolding read_notification
read_body next c r hn hl h =
    rw
      (
        dword_value next hn,
        dword_value c.action h.action_bound,
        dword_value (2 * length c.name) hl,
        halved (length c.name),
        read_units-encode c.name r h.unit_bound,
      )
      refl

drop-nil : (n : ℕ) → drop {A = ℕ} n [] ≡ []
drop-nil zero = refl
drop-nil (suc n) = refl

pub drop-add : (m n : ℕ) (xs : List ℕ) → drop (m + n) xs ≡ drop n (drop m xs)
drop-add zero n xs = ap (λ (k : ℕ). drop k xs) (omega arith)
drop-add (suc m) n [] = ap (λ (k : ℕ). drop {A = ℕ} k []) (suc-add m n) ∙ sym (drop-nil n)
drop-add (suc m) n (x ∷ xs) = ap (λ (k : ℕ). drop k (x ∷ xs)) (suc-add m n) ∙ drop-add m n xs

pub drop-padded :
    (next : ℕ) (c : Change) (r : List ℕ) (n : ℕ) → n ≡ stride c → drop n (padded next c ++ r) ≡ r
drop-padded next c r n e =
    ap (λ (k : ℕ). drop k (padded next c ++ r)) (e ∙ sym (length-padded next c))
    ∙ drop-append (padded next c) r

pub unwrapped : (a b t : ℕ) → a + b < t → t < 4294967296 → (a + b) % 4294967296 ≡ a + b
unwrapped a b t h k = omega arith

pub encode_long : (c : Change) (cs : List Change) → 12 ≤ length (encode c cs)
encode_long c [] = omega (arith, length-body 0 c)
encode_long c (d ∷ cs) =
    omega (arith, length-append (padded (stride c) c) (encode d cs), length-padded (stride c) c)

-- Each entry takes a byte at least.
pub encode_longer : (c : Change) (cs : List Change) → length cs < length (encode c cs)
encode_longer c [] = omega (arith, length-body 0 c)
encode_longer c (d ∷ cs) = omega (
  arith,
  length-append (padded (stride c) c) (encode d cs),
  length-padded (stride c) c,
  encode_longer d cs,
)
