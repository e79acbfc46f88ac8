-- ===== src/Prelude/Text.antt =====
-- Rust's text: `String` for identifiers and messages, and a list of bytes where the program walks it.
use Prim.Native.Nat.{ℕ}
use Prim.Native.Char.{code}
use Prim.Native.String.{String}
use mathlib.Core.Path.{◌≡◌, refl}
use native.Mathlib.Omega.{arith}
use mathlib.Core.Bool.{Bool, true, false}
use mathlib.Core.List.{List, [], ◌∷◌}
use hlem_ssh.Prelude.Tests.{ltb, if◌then◌else◌}

abbrev pub Bytes : Type 0
Bytes = List ℕ

-- The code points of a text: its bytes, if it is ASCII.
abbrev pub codes : String → List ℕ
codes String.[] = []
codes (String.◌∷◌ c s) = code c ∷ codes s

-- The order of `str` is lexicographic; on code points it is that on UTF-8 bytes.
abbrev pub codes_lt : List ℕ → List ℕ → Bool
codes_lt xs [] = false
codes_lt [] (y ∷ ys) = true
codes_lt (x ∷ xs) (y ∷ ys) = if ltb x y then true else if ltb y x then false else codes_lt xs ys

unfoldable pub str_lt : String → String → Bool
str_lt s t = codes_lt (codes s) (codes t)

codes_lt_trans :
    (xs ys zs : List ℕ) → codes_lt xs ys ≡ true → codes_lt ys zs ≡ true → codes_lt xs zs ≡ true
codes_lt_trans xs [] zs h g = cc
codes_lt_trans xs (y ∷ ys) [] h g = cc
codes_lt_trans [] (y ∷ ys) (z ∷ zs) h g = refl
codes_lt_trans (x ∷ xs) (y ∷ ys) (z ∷ zs) h g = ground (arith, codes_lt_trans xs ys zs)

codes_lt_irrefl : (xs : List ℕ) → codes_lt xs xs ≡ false
codes_lt_irrefl [] = refl
codes_lt_irrefl (x ∷ xs) = ground (arith, codes_lt_irrefl xs)

pub str_lt_trans : (s t u : String) → str_lt s t ≡ true → str_lt t u ≡ true → str_lt s u ≡ true
unfolding str_lt
str_lt_trans s t u = codes_lt_trans (codes s) (codes t) (codes u)

pub str_lt_irrefl : (s : String) → str_lt s s ≡ false
unfolding str_lt
str_lt_irrefl s = codes_lt_irrefl (codes s)
