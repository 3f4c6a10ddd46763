-- ===== src/Channel/Alignment.antt =====
-- align() of libs/chan/reader.cc and writer.cc.
use obtools.Common.{
  ℕ, ◌+◌, ◌-◌, ◌*◌, ◌/◌, ◌%◌, ◌^◌, ◌≤◌, ◌<◌, ◌≡◌, refl, ap, ◌∙◌, arith, add64, sub64, add64_fits,
  sub64_fits, lt→ltb,
}
use native.Mathlib.Nat.{div-add-mod, mod-lt, mul-add-mod_self_left, mod-eq_of_lt}
use obtools.Channel.{Reader, Writer}
use obtools.Channel.Reading
use obtools.Channel.Writing
use obtools.Channel.Writing.{through_int}

abbrev gap : ℕ → ℕ → ℕ
gap o n = sub64 (n * (sub64 (add64 o n) 1 / n) % 2 ^ 64) o

module _ (o n : ℕ) (pos : 0 < n) (fits : o + n < 2 ^ 64) where
  abbrev steps : ℕ
  steps = (o + n - 1) / n

  reached : n * steps + (o + n - 1) % n ≡ o + n - 1
  reached = div-add-mod (o + n - 1) n

  gap_value : gap o n ≡ n * steps - o
  gap_value =
      let sum : sub64 (add64 o n) 1 ≡ o + n - 1 =
        ap (λ k. sub64 k 1) (add64_fits o n fits) ∙ sub64_fits (o + n) 1 (omega arith) fits in
      let m = mod-lt (o + n - 1) pos in
      let small : n * steps < 2 ^ 64 = omega (arith, reached) in
      let whole : n * steps % 2 ^ 64 ≡ n * steps = omega arith in
      rw (sum, whole) (sub64_fits (n * steps) o (omega (arith, reached)) small)

  gap_range : (o ≤ n * steps) × (n * steps - o < n)
  gap_range = let m = mod-lt (o + n - 1) pos in (omega (arith, reached), omega (arith, reached))

  multiple : (o + (n * steps - o)) % n ≡ 0
  multiple =
      let e : o + (n * steps - o) ≡ n * steps + 0 = omega (arith, gap_range.0) in
      ap (λ k. k % n) e ∙ mul-add-mod_self_left n steps 0 ∙ mod-eq_of_lt pos

-- Where the sum of the offset and the alignment keeps to 64 bits, align on a reader skips fewer
-- bytes than the alignment, and as many as lead to an offset that is a multiple of it.
pub align_reader :
    {S : Type 0} (r : Reader S) (n : ℕ) (s : S)
    → 0 < n
    → r.offset s + n < 2 ^ 64
    → (pad : ℕ) × (Reading.align r n s ≡ r.skip pad s) × (pad < n) × ((r.offset s + pad) % n ≡ 0)
unfolding Reading.align
align_reader r n s pos fits = (
  n * steps (r.offset s) n pos fits - r.offset s,
  ap (λ k. r.skip k s) (gap_value (r.offset s) n pos fits),
  (gap_range (r.offset s) n pos fits).1,
  multiple (r.offset s) n pos fits,
)

-- The same holds of a writer where the alignment is at most 2 ^ 31, since the count passes through
-- a signed integer of 32 bits.
pub align_writer :
    {S : Type 0} (w : Writer S) (n : ℕ) (s : S)
    → 0 < n
    → n ≤ 2 ^ 31
    → w.offset s + n < 2 ^ 64
    → (pad : ℕ) × (Writing.align w n s ≡ w.skip pad s) × (pad < n) × ((w.offset s + pad) % n ≡ 0)
unfolding Writing.align through_int
align_writer w n s pos int fits =
    let pad = n * steps (w.offset s) n pos fits - w.offset s in
    let range = gap_range (w.offset s) n pos fits in
    let same : pad % 2 ^ 32 ≡ pad = omega (arith, range.1) in
    let kept : through_int pad ≡ pad =
      rw (same, lt→ltb pad (2 ^ 31) (omega (arith, range.1))) refl in
    (
      pad,
      ap (λ k. w.skip (through_int k) s) (gap_value (w.offset s) n pos fits)
          ∙ ap (λ k. w.skip k s) kept,
      range.1,
      multiple (w.offset s) n pos fits,
    )
