-- ===== src/Text.antt =====
-- Numbers as text: libs/text/convert.cc.
pub mod Base64
pub mod Radix
mod Examples
use obtools.Common.{ℕ, zero, suc, ◌+◌, ◌-◌, ◌/◌, ◌%◌, ◌^◌, List, [], ◌∷◌, ltb, if◌then◌else◌}

-- The decimal digits in front of `rest`. A number below 10 ^ fuel is written in full.
unfoldable pub digits : ℕ → ℕ → List ℕ → List ℕ
digits zero n rest = rest
digits (suc fuel) n rest =
    let more = digits fuel (n / 10) ((48 + n % 10) ∷ rest) in
    if ltb n 10 then (48 + n % 10) ∷ rest else more

-- An int is 32 bits, with the sign as the top one.
unfoldable pub itos : ℕ → List ℕ
itos i =
    let w = i % 2 ^ 32 in if ltb w (2 ^ 31) then digits 10 w [] else 45 ∷ digits 10 (2 ^ 32 - w) []
