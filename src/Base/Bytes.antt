-- ===== src/Base/Bytes.antt =====
-- Bytes in memory: numbers with the low byte first, texts that end in a null, and chains of reads that
-- may fail.
use mathlib.Core.Path.{◌≡◌, ap}
use libfilewatch.Base.Tests.{nat_eq, ◌==◌, if◌then◌else◌}
use Prim.Native.Nat.{ℕ, ◌+◌, ◌*◌, ◌/◌, ◌%◌, ◌<◌}
use mathlib.Core.Option.{Option, none, some}
use mathlib.Core.List.{List, [], ◌∷◌, ◌++◌}
use native.Mathlib.Omega.{arith}

infixl 5 ◌>>=◌
abbrev pub ◌>>=◌ : {A B : Type 0} → Option A → (A → Option B) → Option B
none >>= f = none
some a >>= f = f a

-- A number of 32 bits and the bytes behind it; `none` where fewer than four bytes are left to read.
unfoldable pub read_dword : List ℕ → Option (ℕ × List ℕ)
read_dword (a ∷ b ∷ c ∷ d ∷ r) = some (a + b * 256 + c * 65536 + d * 16777216, r)
read_dword _ = none

-- The text that a function sees which is given `s.c_str()`.
abbrev pub c_str : List ℕ → List ℕ
c_str [] = []
c_str (x ∷ s) = let rest = c_str s in if x == 0 then [] else x ∷ rest

abbrev pub dword : ℕ → List ℕ
dword x = x % 256 ∷ x / 256 % 256 ∷ x / 65536 % 256 ∷ x / 16777216 % 256 ∷ []

pub dword_value :
    (x : ℕ)
    → x < 4294967296
    → x % 256 + x / 256 % 256 * 256 + x / 65536 % 256 * 65536 + x / 16777216 % 256 * 16777216 ≡ x
dword_value x h = omega arith

pub read_dword-dword :
    (x : ℕ) (r : List ℕ) → x < 4294967296 → read_dword (dword x ++ r) ≡ some (x, r)
unfolding read_dword
read_dword-dword x r h = ap (λ (n : ℕ). some (n, r)) (omega arith)
