-- ===== src/Text/Base64/Grouping.antt =====
-- What base64 stands for: groups of four digits below 64 for three bytes.
use obtools.Common.{
  ℕ, suc, ◌+◌, ◌*◌, ◌/◌, ◌%◌, ◌≤◌, ◌<◌, ◌≡◌, refl, List, [], ◌∷◌, length, All, arith,
}
use obtools.Text.Base64.{Text, Base64, Kind, digit, stop, ignored, kind}

-- The values of the digits before the padding.
abbrev pub then_digits : Kind → List ℕ → List ℕ
then_digits (digit n) rest = n ∷ rest
then_digits stop rest = []
then_digits ignored rest = rest

unfoldable pub indexes : Base64 → Text → List ℕ
indexes b64 [] = []
indexes b64 (c ∷ cs) = then_digits (kind b64 c) (indexes b64 cs)

-- The bytes of the digits; a last group of one digit stands for none.
abbrev pub unpack : List ℕ → List ℕ
unpack (a ∷ b ∷ c ∷ d ∷ rest) =
    (a * 4 + b / 16) ∷ (b % 16 * 16 + c / 4) ∷ (c % 4 * 64 + d) ∷ unpack rest
unpack (a ∷ b ∷ c ∷ []) = (a * 4 + b / 16) ∷ (b % 16 * 16 + c / 4) ∷ []
unpack (a ∷ b ∷ []) = (a * 4 + b / 16) ∷ []
unpack (a ∷ []) = []
unpack [] = []

abbrev pub pack : List ℕ → List ℕ
pack (x ∷ y ∷ z ∷ rest) = x / 4 ∷ (x % 4 * 16 + y / 16) ∷ (y % 16 * 4 + z / 64) ∷ z % 64 ∷ pack rest
pack (x ∷ y ∷ []) = x / 4 ∷ (x % 4 * 16 + y / 16) ∷ y % 16 * 4 ∷ []
pack (x ∷ []) = x / 4 ∷ x % 4 * 16 ∷ []
pack [] = []

abbrev pub Byte : ℕ → Type 0
Byte b = b < 256

abbrev pub Sextet : ℕ → Type 0
Sextet n = n < 64

pub unpack-pack : (bs : List ℕ) → All Byte bs → unpack (pack bs) ≡ bs
unpack-pack [] h = refl
unpack-pack (x ∷ []) h = let e : x / 4 * 4 + x % 4 * 16 / 16 ≡ x = omega arith in rw e refl
unpack-pack (x ∷ y ∷ []) h =
    let e : x / 4 * 4 + (x % 4 * 16 + y / 16) / 16 ≡ x = omega (arith, h.1.0) in
    let f : (x % 4 * 16 + y / 16) % 16 * 16 + y % 16 * 4 / 4 ≡ y = omega (arith, h.1.0) in
    rw (e, f) refl
unpack-pack (x ∷ y ∷ z ∷ rest) h =
    let e : x / 4 * 4 + (x % 4 * 16 + y / 16) / 16 ≡ x = omega (arith, h.1.0) in
    let f : (x % 4 * 16 + y / 16) % 16 * 16 + (y % 16 * 4 + z / 64) / 4 ≡ y =
      omega (arith, h.1.0, h.1.1.0) in
    let g : (y % 16 * 4 + z / 64) % 4 * 64 + z % 64 ≡ z = omega (arith, h.1.1.0) in
    rw (e, f, g, unpack-pack rest h.1.1.1) refl

-- Four digits make three bytes, and what is left of a group less.
pub length-unpack : (ds : List ℕ) → 4 * length (unpack ds) ≤ 3 * length ds
length-unpack [] = omega arith
length-unpack (a ∷ []) = omega arith
length-unpack (a ∷ b ∷ []) = omega arith
length-unpack (a ∷ b ∷ c ∷ []) = omega arith
length-unpack (a ∷ b ∷ c ∷ d ∷ rest) = omega (arith, length-unpack rest)

length-then_digits : (k : Kind) (rest : List ℕ) → length (then_digits k rest) ≤ suc (length rest)
length-then_digits (digit n) rest = omega arith
length-then_digits stop rest = omega arith
length-then_digits ignored rest = omega arith

pub length-indexes : (b64 : Base64) (cs : Text) → length (indexes b64 cs) ≤ length cs
unfolding indexes
length-indexes b64 [] = omega arith
length-indexes b64 (c ∷ cs) =
    omega (arith, length-then_digits (kind b64 c) (indexes b64 cs), length-indexes b64 cs)
