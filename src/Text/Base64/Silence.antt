-- ===== src/Text/Base64/Silence.antt =====
-- Which parts of the output of libs/text/base64.cc the decoder counts: the digits, and neither the
-- ends of lines nor the padding.
use obtools.Common.{
  ℕ, zero, suc, ◌*◌, ◌/◌, ◌%◌, ◌^◌, ◌≡◌, refl, ap, ◌∙◌, List, [], ◌∷◌, ◌++◌, append-nil, Bool, true,
  false, if◌then◌else◌, All, arith,
}
use obtools.Text.Base64.{Text, Base64, Kind, digit, stop, ignored, kind, run_out, padding}
use obtools.Text.Base64.Grouping.{indexes, then_digits}
use obtools.Text.Base64.Kinds.{Proper, kind-index_char, kind_pad}

abbrev pub stops : Kind → Bool
stops stop = true
stops k = false

abbrev pub sextets : ℕ → ℕ → List ℕ
sextets zero n = []
sextets (suc count) n = n / 2 ^ 18 % 64 ∷ sextets count (n * 64 % 2 ^ 32)

module _ (b64 : Base64) where
  -- No character stops the decoder, or every character is passed over.
  abbrev pub Open : Text → Type 0
  Open text = All (λ c. stops (kind b64 c) ≡ false) text

  abbrev pub Silent : Text → Type 0
  Silent text = All (λ c. kind b64 c ≡ ignored) text

  Open-append : (xs ys : Text) → Open xs → Open ys → Open (xs ++ ys)
  Open-append [] ys o p = p
  Open-append (x ∷ xs) ys o p = (o.0, Open-append xs ys o.1 p)

  then_digits-append :
      (k : Kind) (ds es : List ℕ)
      → stops k ≡ false
      → then_digits k (ds ++ es) ≡ then_digits k ds ++ es
  then_digits-append (digit n) ds es h = refl
  then_digits-append stop ds es h = absurd (ground arith)
  then_digits-append ignored ds es h = refl

  pub indexes-append :
      (xs ys : Text) → Open xs → indexes b64 (xs ++ ys) ≡ indexes b64 xs ++ indexes b64 ys
  unfolding indexes
  indexes-append [] ys o = refl
  indexes-append (x ∷ xs) ys o =
      ap (then_digits (kind b64 x)) (indexes-append xs ys o.1)
      ∙ then_digits-append (kind b64 x) (indexes b64 xs) (indexes b64 ys) o.0

  Silent-Open : (xs : Text) → Silent xs → Open xs
  Silent-Open [] h = tt
  Silent-Open (x ∷ xs) h = (ap stops h.0, Silent-Open xs h.1)

  indexes-Silent : (xs : Text) → Silent xs → indexes b64 xs ≡ []
  unfolding indexes
  indexes-Silent [] h = refl
  indexes-Silent (x ∷ xs) h = rw h.0 (indexes-Silent xs h.1)

  pub indexes-padding : (n : ℕ) → Proper b64 → indexes b64 (padding b64 n) ≡ []
  unfolding indexes padding
  indexes-padding zero p = refl
  indexes-padding (suc n) p = rw (kind_pad b64 p) refl

  run_out-Open : (count n : ℕ) → Proper b64 → Open (run_out b64 count n)
  unfolding run_out
  run_out-Open zero n p = tt
  run_out-Open (suc count) n p = (
    ap stops (kind-index_char b64 (n / 2 ^ 18 % 64) p (omega arith)),
    run_out-Open count (n * 64 % 2 ^ 32) p,
  )

  indexes-run_out : (count n : ℕ) → Proper b64 → indexes b64 (run_out b64 count n) ≡ sextets count n
  unfolding indexes run_out
  indexes-run_out zero n p = refl
  indexes-run_out (suc count) n p =
      rw (kind-index_char b64 (n / 2 ^ 18 % 64) p (omega arith))
        (ap (λ t. n / 2 ^ 18 % 64 ∷ t) (indexes-run_out count (n * 64 % 2 ^ 32) p))

  -- What one group adds: its digits, and perhaps the end of a line.
  pub group-Open :
      (text line_end : Text) (count n : ℕ) (b : Bool)
      → Proper b64
      → Silent line_end
      → Open text
      → Open (text ++ (run_out b64 count n ++ (if b then line_end else [])))
  group-Open text line_end count n b p q o =
      Open-append text _ o (Open-append (run_out b64 count n) _ (run_out-Open count n p) (line b))
    where
      line : (b : Bool) → Open (if b then line_end else [])
      line true = Silent-Open line_end q
      line false = tt

  pub indexes-group :
      (text line_end : Text) (count n : ℕ) (b : Bool)
      → Proper b64
      → Silent line_end
      → Open text
      → indexes b64 (text ++ (run_out b64 count n ++ (if b then line_end else [])))
        ≡ indexes b64 text ++ sextets count n
  unfolding indexes
  indexes-group text line_end count n b p q o =
      indexes-append text _ o
      ∙ ap (λ u. indexes b64 text ++ u)
          (indexes-append (run_out b64 count n) _ (run_out-Open count n p)
            ∙ ap (λ u. indexes b64 (run_out b64 count n) ++ u) (line b)
            ∙ append-nil (indexes b64 (run_out b64 count n))
            ∙ indexes-run_out count n p)
    where
      line : (b : Bool) → indexes b64 (if b then line_end else []) ≡ []
      line true = indexes-Silent line_end q
      line false = refl
