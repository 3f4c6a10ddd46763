-- ===== src/Text/Base64/Kinds.antt =====
-- The characters of libs/text/base64.cc: which are digits, and of what value.
use obtools.Common.{
  ℕ, ◌<◌, ◌≡◌, ◌≢◌, refl, ap, ◌∙◌, inl, inr, Bool, true, false, ◌&&◌, ◌||◌, get_or, ltb, leb, ◌==◌,
  ==→≡, holds_below, holds_below_at, if◌then◌else◌, Bool-cases, ==-refl, sym, arith,
}
use obtools.Text.Base64.{Base64, base64_chars, index_char, Kind, digit, stop, ignored, kind}

-- The letters and the numerals.
abbrev pub alphanumeric : ℕ → Bool
alphanumeric c = (leb 65 c && leb c 90) || (leb 97 c && leb c 122) || (leb 48 c && leb c 57)

-- Characters for 62, 63 and the padding that differ from each other and from the others.
pub record Proper (b64 : Base64) : Type 0 where
  pub plain_62 : alphanumeric b64.extra_62 ≡ false
  pub plain_63 : alphanumeric b64.extra_63 ≡ false
  pub plain_pad : alphanumeric b64.pad ≡ false
  pub apart : b64.extra_62 ≢ b64.extra_63
  pub apart_62 : b64.pad ≢ b64.extra_62
  pub apart_63 : b64.pad ≢ b64.extra_63

abbrev is_digit : Kind → ℕ → Bool
is_digit (digit n) m = n == m
is_digit stop m = false
is_digit ignored m = false

is_digit_sound : (k : Kind) (m : ℕ) → is_digit k m ≡ true → k ≡ digit m
is_digit_sound (digit n) m h = ap digit (==→≡ n m h)
is_digit_sound stop m h = absurd (ground arith)
is_digit_sound ignored m h = absurd (ground arith)

differ : (a b : ℕ) → a ≢ b → (a == b) ≡ false
differ a b h = ground arith

module _ (b64 : Base64) where
  table : holds_below (λ i. is_digit (kind b64 (get_or base64_chars i 0)) i) 62 ≡ true
  unfolding kind
  table = refl

  kind_plain :
      (c : ℕ)
      → alphanumeric c ≡ false
      → kind b64 c ≡ (
          if c == b64.extra_62
          then digit 62
          else if c == b64.extra_63
          then digit 63
          else if c == b64.pad
          then stop
          else ignored)
  unfolding kind
  kind_plain c h = ground arith

  kind_62 : Proper b64 → kind b64 b64.extra_62 ≡ digit 62
  kind_62 p = let r = ==-refl b64.extra_62 in kind_plain b64.extra_62 p.plain_62 ∙ rw r refl

  kind_63 : Proper b64 → kind b64 b64.extra_63 ≡ digit 63
  kind_63 p =
      let ne : (b64.extra_63 == b64.extra_62) ≡ false =
        differ b64.extra_63 b64.extra_62 (λ e. p.apart (sym e)) in
      let r = ==-refl b64.extra_63 in kind_plain b64.extra_63 p.plain_63 ∙ rw (ne, r) refl

  pub kind_pad : Proper b64 → kind b64 b64.pad ≡ stop
  kind_pad p =
      let n62 = differ b64.pad b64.extra_62 p.apart_62 in
      let n63 = differ b64.pad b64.extra_63 p.apart_63 in
      let r = ==-refl b64.pad in kind_plain b64.pad p.plain_pad ∙ rw (n62, n63, r) refl

  index_char_low : (i : ℕ) → i < 62 → index_char b64 i ≡ get_or base64_chars i 0
  unfolding index_char
  index_char_low i h = let t : ltb i 62 ≡ true = ground arith in rw t refl

  pub kind-index_char : (i : ℕ) → Proper b64 → i < 64 → kind b64 (index_char b64 i) ≡ digit i
  unfolding index_char
  kind-index_char i p h = elim (Bool-cases (ltb i 62)) [
    | inl t ↦
        (let low : i < 62 = ground arith in
          ap (kind b64) (index_char_low i low)
          ∙ is_digit_sound _ i (
              holds_below_at (λ j. is_digit (kind b64 (get_or base64_chars j 0)) j) 62 i table low))
    | inr f ↦ elim (Bool-cases (i == 62)) [
      | inl t ↦ (let e : i ≡ 62 = ==→≡ i 62 t in rw e (kind_62 p))
      | inr g ↦ (let e : i ≡ 63 = ground arith in rw e (kind_63 p))
    ]
  ]
