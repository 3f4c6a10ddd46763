-- ===== src/Text/Radix.antt =====
-- Numbers in base 36 and in base 16 of consonants: libs/text/base36.cc and base16alpha.cc, which are
-- the same loops over two alphabets.
pub mod RoundTrip
use obtools.Common.{
  ℕ, zero, suc, ◌+◌, ◌-◌, ◌*◌, ◌/◌, ◌%◌, ◌^◌, ◌≤◌, ◌<◌, ◌≡◌, refl, sym, ap, ◌∙◌, inl, inr, List, [],
  ◌∷◌, Bool, true, false, ◌&&◌, Option, none, some, get_or, ltb, leb, ◌==◌, ==→≡, holds_below,
  holds_below_at, Bool-cases, if◌then◌else◌, arith,
}

-- The characters of a number in front of `text`. `none` is a run that is not over.
unfoldable pub prepend_digits : ℕ → List ℕ → ℕ → ℕ → List ℕ → Option (List ℕ)
prepend_digits radix alphabet zero n text = if n == 0 then some text else none
prepend_digits radix alphabet (suc fuel) n text =
    let rest =
      prepend_digits radix alphabet fuel (n / radix) (get_or alphabet (n % radix) 0 ∷ text) in
    if n == 0 then some text else rest

abbrev pub for_digit : Option ℕ → (ℕ → Option ℕ) → Option ℕ
for_digit none f = none
for_digit (some d) f = f d

unfoldable pub read_digits : ℕ → (ℕ → Option ℕ) → List ℕ → ℕ → Option ℕ
read_digits radix digit_of [] n = some n
read_digits radix digit_of (c ∷ cs) n =
    for_digit (digit_of c) (λ d. read_digits radix digit_of cs ((n * radix + d) % 2 ^ 64))

abbrev pub alphabet_36 : List ℕ
alphabet_36 =
    48 ∷ 49 ∷ 50 ∷ 51 ∷ 52 ∷ 53 ∷ 54 ∷ 55 ∷ 56 ∷ 57 ∷ 97 ∷ 98 ∷ 99 ∷ 100 ∷ 101 ∷ 102 ∷ 103 ∷ 104
    ∷ 105 ∷ 106 ∷ 107 ∷ 108 ∷ 109 ∷ 110 ∷ 111 ∷ 112 ∷ 113 ∷ 114 ∷ 115 ∷ 116 ∷ 117 ∷ 118 ∷ 119 ∷ 120
    ∷ 121 ∷ 122 ∷ []

unfoldable pub encode_36 : ℕ → ℕ → Option (List ℕ)
encode_36 fuel n = if n == 0 then some (48 ∷ []) else prepend_digits 36 alphabet_36 fuel n []

unfoldable pub digit_36 : ℕ → Option ℕ
digit_36 c =
    if leb 65 c && leb c 90
    then some (10 + c - 65)
    else if leb 97 c && leb c 122
    then some (10 + c - 97)
    else if leb 48 c && leb c 57
    then some (c - 48)
    else none

unfoldable pub decode_36 : List ℕ → Option ℕ
decode_36 [] = none
decode_36 (c ∷ cs) = read_digits 36 digit_36 (c ∷ cs) 0

-- "bcdghjklmpqrsvwz", and the values of the letters from A on, one more each, or 0 for none.
abbrev pub alphabet_16 : List ℕ
alphabet_16 =
    98 ∷ 99 ∷ 100 ∷ 103 ∷ 104 ∷ 106 ∷ 107 ∷ 108 ∷ 109 ∷ 112 ∷ 113 ∷ 114 ∷ 115 ∷ 118 ∷ 119 ∷ 122 ∷ []

abbrev pub reverse_16 : List ℕ
reverse_16 =
    0 ∷ 1 ∷ 2 ∷ 3 ∷ 0 ∷ 0 ∷ 4 ∷ 5 ∷ 0 ∷ 6 ∷ 7 ∷ 8 ∷ 9 ∷ 0 ∷ 0 ∷ 10 ∷ 11 ∷ 12 ∷ 13 ∷ 0 ∷ 0 ∷ 14 ∷ 15
    ∷ 0 ∷ 0 ∷ 16 ∷ []

unfoldable pub encode_16 : ℕ → ℕ → Option (List ℕ)
encode_16 fuel n = if n == 0 then some (98 ∷ []) else prepend_digits 16 alphabet_16 fuel n []

abbrev pub listed : ℕ → Option ℕ
listed zero = none
listed (suc d) = some d

unfoldable pub digit_16 : ℕ → Option ℕ
digit_16 c =
    if leb 65 c && leb c 90
    then listed (get_or reverse_16 (c - 65) 0)
    else if leb 97 c && leb c 122
    then listed (get_or reverse_16 (c - 97) 0)
    else none

unfoldable pub decode_16 : List ℕ → Option ℕ
decode_16 [] = none
decode_16 (c ∷ cs) = read_digits 16 digit_16 (c ∷ cs) 0
