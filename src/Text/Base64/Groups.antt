-- ===== src/Text/Base64/Groups.antt =====
-- The encoder of libs/text/base64.cc, group by group.
use obtools.Common.{
  ℕ, suc, ◌+◌, ◌-◌, ◌*◌, ◌/◌, ◌%◌, ◌^◌, ◌≡◌, refl, sym, ap, ◌∙◌, inl, inr, List, [], ◌∷◌, ◌++◌,
  append-nil, append_assoc, length, drop, drop-drop, ◌==◌, Bool-cases, subst, All, arith,
}
use obtools.Text.Base64.{Text, Base64, encode_loop, encode, padding}
use obtools.Text.Base64.Grouping.{indexes, pack, Byte}
use obtools.Text.Base64.Kinds.{Proper}
use obtools.Text.Base64.Silence.{
  Open, Silent, sextets, indexes-append, indexes-padding, group-Open, indexes-group,
}
use obtools.Text.Base64.Writing.{loop, ends_line, added, one_lem, two_lem, three_lem}

-- A turn for each byte, and for what is missing of the last group.
abbrev turns : List ℕ → ℕ
turns [] = 0
turns (x ∷ []) = 3
turns (x ∷ y ∷ []) = 3
turns (x ∷ y ∷ z ∷ rest) = suc (suc (suc (turns rest)))

turns_lem : (bs : List ℕ) → turns bs ≡ 3 * ((length bs + 2) / 3)
turns_lem [] = refl
turns_lem (x ∷ []) = refl
turns_lem (x ∷ y ∷ []) = refl
turns_lem (x ∷ y ∷ z ∷ rest) = omega (arith, turns_lem rest)

sextets_two : (x : ℕ) → Byte x → sextets 2 ((0 + x) * 256 % 2 ^ 32 * 256 % 2 ^ 32) ≡ pack (x ∷ [])
sextets_two x h =
    let n : (0 + x) * 256 % 2 ^ 32 * 256 % 2 ^ 32 ≡ x * 2 ^ 16 = omega arith in
    let a : x * 2 ^ 16 / 2 ^ 18 % 64 ≡ x / 4 = omega arith in
    let b : x * 2 ^ 16 * 64 % 2 ^ 32 / 2 ^ 18 % 64 ≡ x % 4 * 16 = omega arith in
    ap (sextets 2) n ∙ rw (a, b) refl

sextets_three :
    (x y : ℕ)
    → Byte x
    → Byte y
    → sextets 3 (((0 + x) * 256 % 2 ^ 32 + y) * 256 % 2 ^ 32) ≡ pack (x ∷ y ∷ [])
sextets_three x y h g =
    let m = x * 2 ^ 16 + y * 2 ^ 8 in
    let n : ((0 + x) * 256 % 2 ^ 32 + y) * 256 % 2 ^ 32 ≡ m = omega arith in
    let a : m / 2 ^ 18 % 64 ≡ x / 4 = omega arith in
    let b : m * 64 % 2 ^ 32 / 2 ^ 18 % 64 ≡ x % 4 * 16 + y / 16 = omega arith in
    let c : m * 64 % 2 ^ 32 * 64 % 2 ^ 32 / 2 ^ 18 % 64 ≡ y % 16 * 4 = omega arith in
    ap (sextets 3) n ∙ rw (a, b, c) refl

sextets_four :
    (x y z : ℕ)
    → Byte x
    → Byte y
    → Byte z
    → sextets 4 (((0 + x) * 256 % 2 ^ 32 + y) * 256 % 2 ^ 32 + z)
      ≡ x / 4 ∷ (x % 4 * 16 + y / 16) ∷ (y % 16 * 4 + z / 64) ∷ z % 64 ∷ []
sextets_four x y z h g k =
    let m = x * 2 ^ 16 + y * 2 ^ 8 + z in
    let n : ((0 + x) * 256 % 2 ^ 32 + y) * 256 % 2 ^ 32 + z ≡ m = omega arith in
    let a : m / 2 ^ 18 % 64 ≡ x / 4 = omega arith in
    let b : m * 64 % 2 ^ 32 / 2 ^ 18 % 64 ≡ x % 4 * 16 + y / 16 = omega arith in
    let c : m * 64 % 2 ^ 32 * 64 % 2 ^ 32 / 2 ^ 18 % 64 ≡ y % 16 * 4 + z / 64 = omega arith in
    let d : m * 64 % 2 ^ 32 * 64 % 2 ^ 32 * 64 % 2 ^ 32 / 2 ^ 18 % 64 ≡ z % 64 = omega arith in
    ap (sextets 4) n ∙ rw (a, b, c, d) refl

module _ (b64 : Base64) (block : List ℕ) (split : ℕ) (line_end : Text) where
  -- The digits of a text that the decoder reads to its end.
  abbrev pub Holds : Text → List ℕ → Type 0
  Holds text ds = Open b64 text × (indexes b64 text ≡ ds)

  module _ (proper : Proper b64) (silent : Silent b64 line_end) where
    added-Holds :
        (text : Text) (ds : List ℕ) (count n chars : ℕ)
        → Holds text ds
        → Holds (added b64 block split line_end count n chars text) (ds ++ sextets count n)
    added-Holds text ds count n chars h = (
      group-Open b64 text line_end count n (ends_line b64 block split line_end (chars + count))
          proper silent h.0,
      indexes-group b64 text line_end count n (ends_line b64 block split line_end (chars + count))
            proper silent h.0
          ∙ ap (λ u. u ++ sextets count n) h.1,
    )

    encode_loop_lem :
        (suf : List ℕ) (i chars : ℕ) (text : Text) (ds : List ℕ)
        → drop i block ≡ suf
        → i % 3 ≡ 0
        → All Byte suf
        → Holds text ds
        → Holds (loop b64 block split line_end (turns suf) i 0 1 chars text) (ds ++ pack suf)
    unfolding encode_loop
    encode_loop_lem [] i chars text ds d m b h = (h.0, h.1 ∙ sym (append-nil ds))
    encode_loop_lem (x ∷ []) i chars text ds d m b h =
        let group = added-Holds text ds 2 ((0 + x) * 256 % 2 ^ 32 * 256 % 2 ^ 32) chars h in
        subst (λ u. Holds u (ds ++ pack (x ∷ [])))
          (sym (one_lem b64 block split line_end x i chars 0 text d m))
          (group.0, group.1 ∙ ap (λ u. ds ++ u) (sextets_two x b.0))
    encode_loop_lem (x ∷ y ∷ []) i chars text ds d m b h =
        let group = added-Holds text ds 3 (((0 + x) * 256 % 2 ^ 32 + y) * 256 % 2 ^ 32) chars h in
        subst (λ u. Holds u (ds ++ pack (x ∷ y ∷ [])))
          (sym (two_lem b64 block split line_end x y i chars 0 text d m))
          (group.0, group.1 ∙ ap (λ u. ds ++ u) (sextets_three x y b.0 b.1.0))
    encode_loop_lem (x ∷ y ∷ z ∷ rest) i chars text ds d m b h =
        let n = ((0 + x) * 256 % 2 ^ 32 + y) * 256 % 2 ^ 32 + z in
        let group = added-Holds text ds 4 n chars h in
        let four : List ℕ = x / 4 ∷ (x % 4 * 16 + y / 16) ∷ (y % 16 * 4 + z / 64) ∷ z % 64 ∷ [] in
        let i3 : i + 1 + 1 + 1 ≡ i + 3 = omega arith in
        let next =
          encode_loop_lem rest (i + 1 + 1 + 1) (chars + 4)
            (added b64 block split line_end 4 n chars text) (ds ++ four)
            (ap (λ k. drop k block) i3 ∙ sym (drop-drop i 3 block) ∙ ap (drop 3) d) (omega arith)
            b.1.1.1 (group.0, group.1 ∙ ap (λ u. ds ++ u) (sextets_four x y z b.0 b.1.0 b.1.1.0)) in
        subst (λ u. Holds u (ds ++ pack (x ∷ y ∷ z ∷ rest)))
          (sym (three_lem b64 block split line_end x y z i chars (turns rest) rest text d m))
          (next.0, next.1 ∙ append_assoc ds four (pack rest))

    -- The digits of the whole output stand for the block.
    pub indexes-encode : All Byte block → indexes b64 (encode b64 block split line_end) ≡ pack block
    unfolding encode indexes
    indexes-encode b =
        let whole = encode_loop_lem block 0 0 [] [] refl refl b (tt, refl) in
        let text = loop b64 block split line_end (3 * ((length block + 2) / 3)) 0 0 1 0 [] in
        let holds : Holds text (pack block) =
          subst (λ k. Holds (loop b64 block split line_end k 0 0 1 0 []) (pack block))
            (turns_lem block) whole in
        elim (Bool-cases (b64.pad == 0)) [
          | inl t ↦ rw t holds.1
          | inr f ↦
              (let k = 3 * ((length block + 2) / 3) - length block in
                rw f (
                  indexes-append b64 text (padding b64 k) holds.0
                  ∙ ap (λ u. indexes b64 text ++ u) (indexes-padding b64 k proper)
                  ∙ append-nil (indexes b64 text)
                  ∙ holds.1))
        ]
