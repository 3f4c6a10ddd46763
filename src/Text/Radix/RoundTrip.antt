-- ===== src/Text/Radix/RoundTrip.antt =====
-- The numbers of libs/text/base36.cc and base16alpha.cc are read back.
use obtools.Common.{
  ℕ, zero, suc, ◌+◌, ◌*◌, ◌/◌, ◌%◌, ◌^◌, ◌<◌, ◌≡◌, refl, sym, subst, ap, ◌∙◌, inl, inr, List, [],
  ◌∷◌, Bool, true, false, Option, none, some, get_or, ◌==◌, ==→≡, holds_below_at, Bool-cases, arith,
}
use native.Mathlib.Nat.{pow-zero, pow-suc, mod-lt, div-add-mod', div-le_self, div-lt_iff_lt-mul}
use obtools.Text.Radix.{
  prepend_digits, read_digits, alphabet_36, encode_36, digit_36, decode_36, alphabet_16, encode_16,
  digit_16, decode_16,
}

module _ (radix : ℕ) (alphabet : List ℕ) (digit_of : ℕ → Option ℕ) (large : 1 < radix)
    (digits : (d : ℕ) → d < radix → digit_of (get_or alphabet d 0) ≡ some d) where
  shorter : (fuel n : ℕ) → n < radix ^ suc fuel → n / radix < radix ^ fuel
  shorter fuel n h = (div-lt_iff_lt-mul (omega arith)).1 (subst (λ k. n < k) (pow-suc radix fuel) h)

  abbrev Prepends : ℕ → ℕ → List ℕ → Type 0
  Prepends fuel n text =
      (whole : List ℕ) × (prepend_digits radix alphabet fuel n text ≡ some whole)
      × (read_digits radix digit_of whole 0 ≡ read_digits radix digit_of text n)

  no_digits : (fuel n : ℕ) (text : List ℕ) → n ≡ 0 → Prepends fuel n text
  unfolding prepend_digits
  no_digits zero n text e = (text, rw e refl, rw e refl)
  no_digits (suc fuel) n text e = (text, rw e refl, rw e refl)

  read_last :
      (n : ℕ) (text : List ℕ)
      → n < 2 ^ 64
      → read_digits radix digit_of (get_or alphabet (n % radix) 0 ∷ text) (n / radix)
        ≡ read_digits radix digit_of text n
  unfolding read_digits
  read_last n text w =
      let back = div-add-mod' n radix in
      let whole : (n / radix * radix + n % radix) % 2 ^ 64 ≡ n = omega (arith, back) in
      rw (digits (n % radix) (mod-lt n (omega arith)), whole) refl

  -- Enough turns for the number; its characters are read back in front of the text.
  prepend_digits_lem :
      (fuel n : ℕ) (text : List ℕ) → n < radix ^ fuel → n < 2 ^ 64 → Prepends fuel n text
  unfolding prepend_digits
  prepend_digits_lem zero n text h w =
      no_digits zero n text (omega (arith, subst (λ k. n < k) (pow-zero radix) h))
  prepend_digits_lem (suc fuel) n text h w = elim (Bool-cases (n == 0)) [
    | inl t ↦ no_digits (suc fuel) n text (==→≡ n 0 t)
    | inr f ↦
        (let (whole, e, r) =
            prepend_digits_lem fuel (n / radix) (get_or alphabet (n % radix) 0 ∷ text)
              (shorter fuel n h) (omega (arith, div-le_self n radix)) in
          (whole, rw f e, r ∙ read_last n text w))
  ]

abbrev is_value : Option ℕ → ℕ → Bool
is_value none d = false
is_value (some n) d = n == d

is_value_sound : (o : Option ℕ) (d : ℕ) → is_value o d ≡ true → o ≡ some d
is_value_sound none d h = absurd (ground arith)
is_value_sound (some n) d h = ap (λ k. some k) (==→≡ n d h)

digits_36 : (d : ℕ) → d < 36 → digit_36 (get_or alphabet_36 d 0) ≡ some d
unfolding digit_36
digits_36 d h =
    is_value_sound _ d
      (holds_below_at (λ k. is_value (digit_36 (get_or alphabet_36 k 0)) k) 36 d refl h)

digits_16 : (d : ℕ) → d < 16 → digit_16 (get_or alphabet_16 d 0) ≡ some d
unfolding digit_16
digits_16 d h =
    is_value_sound _ d
      (holds_below_at (λ k. is_value (digit_16 (get_or alphabet_16 k 0)) k) 16 d refl h)

finish_36 :
    (whole : List ℕ) (n : ℕ)
    → (n == 0) ≡ false
    → read_digits 36 digit_36 whole 0 ≡ some n
    → decode_36 whole ≡ some n
unfolding decode_36 read_digits
finish_36 [] n f e = absurd (ground arith)
finish_36 (c ∷ cs) n f e = e

encode_36-decode_36 :
    (n : ℕ)
    → n < 2 ^ 64
    → (text : List ℕ) × (encode_36 13 n ≡ some text) × (decode_36 text ≡ some n)
unfolding encode_36 decode_36 read_digits digit_36
encode_36-decode_36 n w = elim (Bool-cases (n == 0)) [
  | inl t ↦ (48 ∷ [], rw t refl, ap (λ k. some k) (sym (==→≡ n 0 t)))
  | inr f ↦
      (let (whole, e, r) =
          prepend_digits_lem 36 alphabet_36 digit_36 (omega arith) digits_36 13 n [] (omega arith)
            w in
        (whole, rw f e, finish_36 whole n f r))
]

finish_16 :
    (whole : List ℕ) (n : ℕ)
    → (n == 0) ≡ false
    → read_digits 16 digit_16 whole 0 ≡ some n
    → decode_16 whole ≡ some n
unfolding decode_16 read_digits
finish_16 [] n f e = absurd (ground arith)
finish_16 (c ∷ cs) n f e = e

encode_16-decode_16 :
    (n : ℕ)
    → n < 2 ^ 64
    → (text : List ℕ) × (encode_16 16 n ≡ some text) × (decode_16 text ≡ some n)
unfolding encode_16 decode_16 read_digits digit_16
encode_16-decode_16 n w = elim (Bool-cases (n == 0)) [
  | inl t ↦ (98 ∷ [], rw t refl, ap (λ k. some k) (sym (==→≡ n 0 t)))
  | inr f ↦
      (let (whole, e, r) =
          prepend_digits_lem 16 alphabet_16 digit_16 (omega arith) digits_16 16 n [] (omega arith)
            w in
        (whole, rw f e, finish_16 whole n f r))
]

-- Every number of 64 bits has a form in base 36 and a form in consonants, found in 13 and in 16 turns
-- of the loop, and each form is read back as the number.
pub decode-encode_number :
    (n : ℕ)
    → n < 2 ^ 64
    → ((text : List ℕ) × (encode_36 13 n ≡ some text) × (decode_36 text ≡ some n))
      × ((text : List ℕ) × (encode_16 16 n ≡ some text) × (decode_16 text ≡ some n))
decode-encode_number n w = (encode_36-decode_36 n w, encode_16-decode_16 n w)
