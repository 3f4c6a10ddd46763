-- ===== src/Text/Base64/Writing.antt =====
-- The digits that the encoder of libs/text/base64.cc writes.
use obtools.Common.{
  ℕ, zero, suc, ◌+◌, ◌-◌, ◌*◌, ◌%◌, ◌^◌, ◌<◌, ◌≡◌, refl, sym, ap, ap₂, ◌∙◌, List, [], ◌∷◌, ◌++◌,
  Bool, true, false, not, ◌&&◌, length, length-drop, drop, get_or, ltb, ◌==◌, if◌then◌else◌, arith,
}
use obtools.Text.Base64.{Text, Base64, run_out, encode_loop}

pub get_or-drop : (i j : ℕ) (xs : List ℕ) → get_or xs (i + j) 0 ≡ get_or (drop i xs) j 0
get_or-drop zero j xs = let e : 0 + j ≡ j = omega arith in ap (λ k. get_or xs k 0) e
get_or-drop (suc i) j [] = refl
get_or-drop (suc i) j (x ∷ xs) =
    let e : suc i + j ≡ suc (i + j) = omega arith in
    ap (λ k. get_or (x ∷ xs) k 0) e ∙ get_or-drop i j xs

module _ (b64 : Base64) (block : List ℕ) (split : ℕ) (line_end : Text) where
  abbrev pub loop : ℕ → ℕ → ℕ → ℕ → ℕ → Text → Text
  loop turns i n count chars text = encode_loop b64 turns block split line_end i n count chars text

  -- One turn that goes on with the group, with a byte or without one.
  turn_more :
      (turns i n count chars : ℕ) (text : Text)
      → (i % 3 == 2) ≡ false
      → ltb i (length block) ≡ true
      → loop (suc turns) i n count chars text
        ≡ loop turns (i + 1) (n * 256 % 2 ^ 32 + get_or block i 0) (count + 1) chars text
  unfolding encode_loop
  turn_more turns i n count chars text e f = rw (e, f) refl

  turn_none :
      (turns i n count chars : ℕ) (text : Text)
      → (i % 3 == 2) ≡ false
      → ltb i (length block) ≡ false
      → loop (suc turns) i n count chars text
        ≡ loop turns (i + 1) (n * 256 % 2 ^ 32) count chars text
  unfolding encode_loop
  turn_none turns i n count chars text e f = rw (e, f) refl

  abbrev pub ends_line : ℕ → Bool
  ends_line chars = not (split == 0) && (chars % split == 0)

  abbrev pub added : ℕ → ℕ → ℕ → Text → Text
  added count n chars text =
      text ++ (run_out b64 count n ++ (if ends_line (chars + count) then line_end else []))

  turn_last_more :
      (turns i n count chars : ℕ) (text : Text)
      → (i % 3 == 2) ≡ true
      → ltb i (length block) ≡ true
      → loop (suc turns) i n count chars text
        ≡ loop turns
            (i + 1)
            0
            1
            (chars + (count + 1))
            (added (count + 1) (n * 256 % 2 ^ 32 + get_or block i 0) chars text)
  unfolding encode_loop
  turn_last_more turns i n count chars text e f = rw (e, f) refl

  turn_last_none :
      (turns i n count chars : ℕ) (text : Text)
      → (i % 3 == 2) ≡ true
      → ltb i (length block) ≡ false
      → loop (suc turns) i n count chars text
        ≡ loop turns (i + 1) 0 1 (chars + count) (added count (n * 256 % 2 ^ 32) chars text)
  unfolding encode_loop
  turn_last_none turns i n count chars text e f = rw (e, f) refl

  -- The bytes of a group, where `suf` is what is left of the block.
  at_offset :
      (i j : ℕ) (suf : List ℕ) → drop i block ≡ suf → get_or block (i + j) 0 ≡ get_or suf j 0
  at_offset i j suf d = get_or-drop i j block ∙ ap (λ u. get_or u j 0) d

  length_left : (i : ℕ) (suf : List ℕ) → drop i block ≡ suf → length block - i ≡ length suf
  length_left i suf d = sym (length-drop i block) ∙ ap length d

  mid : (i j : ℕ) → i % 3 ≡ 0 → j < 2 → ((i + j) % 3 == 2) ≡ false
  mid i j m h = let e : (i + j) % 3 ≡ j = omega arith in ground (arith, e)

  last : (i : ℕ) → i % 3 ≡ 0 → ((i + 1 + 1) % 3 == 2) ≡ true
  last i m = let e : (i + 1 + 1) % 3 ≡ 2 = omega arith in ground (arith, e)

  pub one_lem :
      (x i chars turns : ℕ) (text : Text)
      → drop i block ≡ x ∷ []
      → i % 3 ≡ 0
      → loop (suc (suc (suc turns))) i 0 1 chars text
        ≡ loop turns
            (i + 1 + 1 + 1)
            0
            1
            (chars + 2)
            (added 2 ((0 + x) * 256 % 2 ^ 32 * 256 % 2 ^ 32) chars text)
  one_lem x i chars turns text d m =
      let l = length_left i (x ∷ []) d in
      let i0 : i + 0 ≡ i = omega arith in
      let g0 : get_or block i 0 ≡ x =
        ap (λ k. get_or block k 0) (sym i0) ∙ at_offset i 0 (x ∷ []) d in
      turn_more (suc (suc turns)) i 0 1 chars text
        (ap (λ k. k % 3 == 2) (sym i0) ∙ mid i 0 m (omega arith)) (ground (arith, l))
      ∙ turn_none (suc turns) (i + 1) _ 2 chars text (mid i 1 m (omega arith)) (ground (arith, l))
      ∙ turn_last_none turns (i + 1 + 1) _ 2 chars text (last i m) (ground (arith, l))
      ∙ ap
          (λ u.
            loop turns (i + 1 + 1 + 1) 0 1 (chars + 2)
              (added 2 ((0 + u) * 256 % 2 ^ 32 * 256 % 2 ^ 32) chars text))
          g0

  pub two_lem :
      (x y i chars turns : ℕ) (text : Text)
      → drop i block ≡ x ∷ y ∷ []
      → i % 3 ≡ 0
      → loop (suc (suc (suc turns))) i 0 1 chars text
        ≡ loop turns
            (i + 1 + 1 + 1)
            0
            1
            (chars + 3)
            (added 3 (((0 + x) * 256 % 2 ^ 32 + y) * 256 % 2 ^ 32) chars text)
  two_lem x y i chars turns text d m =
      let suf : List ℕ = x ∷ y ∷ [] in
      let l = length_left i suf d in
      let i0 : i + 0 ≡ i = omega arith in
      let g0 : get_or block i 0 ≡ x = ap (λ k. get_or block k 0) (sym i0) ∙ at_offset i 0 suf d in
      let g1 : get_or block (i + 1) 0 ≡ y = at_offset i 1 suf d in
      turn_more (suc (suc turns)) i 0 1 chars text
        (ap (λ k. k % 3 == 2) (sym i0) ∙ mid i 0 m (omega arith)) (ground (arith, l))
      ∙ turn_more (suc turns) (i + 1) _ 2 chars text (mid i 1 m (omega arith)) (ground (arith, l))
      ∙ turn_last_none turns (i + 1 + 1) _ 3 chars text (last i m) (ground (arith, l))
      ∙ ap₂
          (λ u v.
            loop turns (i + 1 + 1 + 1) 0 1 (chars + 3)
              (added 3 (((0 + u) * 256 % 2 ^ 32 + v) * 256 % 2 ^ 32) chars text))
          g0 g1

  pub three_lem :
      (x y z i chars turns : ℕ) (rest : List ℕ) (text : Text)
      → drop i block ≡ x ∷ y ∷ z ∷ rest
      → i % 3 ≡ 0
      → loop (suc (suc (suc turns))) i 0 1 chars text
        ≡ loop turns
            (i + 1 + 1 + 1)
            0
            1
            (chars + 4)
            (added 4 (((0 + x) * 256 % 2 ^ 32 + y) * 256 % 2 ^ 32 + z) chars text)
  three_lem x y z i chars turns rest text d m =
      let suf : List ℕ = x ∷ y ∷ z ∷ rest in
      let l = length_left i suf d in
      let i0 : i + 0 ≡ i = omega arith in
      let i2 : i + 1 + 1 ≡ i + 2 = omega arith in
      let g0 : get_or block i 0 ≡ x = ap (λ k. get_or block k 0) (sym i0) ∙ at_offset i 0 suf d in
      let g1 : get_or block (i + 1) 0 ≡ y = at_offset i 1 suf d in
      let g2 : get_or block (i + 1 + 1) 0 ≡ z =
        ap (λ k. get_or block k 0) i2 ∙ at_offset i 2 suf d in
      turn_more (suc (suc turns)) i 0 1 chars text
        (ap (λ k. k % 3 == 2) (sym i0) ∙ mid i 0 m (omega arith)) (ground (arith, l))
      ∙ turn_more (suc turns) (i + 1) _ 2 chars text (mid i 1 m (omega arith)) (ground (arith, l))
      ∙ turn_last_more turns (i + 1 + 1) _ 3 chars text (last i m) (ground (arith, l))
      ∙ ap₂
          (λ u v. loop turns (i + 1 + 1 + 1) 0 1 (chars + 4) (
            added 4 (((0 + u) * 256 % 2 ^ 32 + v) * 256 % 2 ^ 32 + get_or block (i + 1 + 1) 0) chars
              text))
          g0 g1
      ∙ ap
          (λ u.
            loop turns (i + 1 + 1 + 1) 0 1 (chars + 4)
              (added 4 (((0 + x) * 256 % 2 ^ 32 + y) * 256 % 2 ^ 32 + u) chars text))
          g2
