-- ===== src/RangeSet/Removal/Loop.antt =====
-- The loop of `RangeSet::remove` in libs/misc/ot-misc.h, from a position where it may begin.
use obtools.Common.{
  ℕ, zero, suc, ◌+◌, ◌-◌, ◌≤◌, ◌<◌, ◌≡◌, ◌≢◌, ◌⊎◌, refl, ap, ◌∙◌, true, false, List, [], ◌∷◌, ◌++◌,
  leb, ltb, ◌&&◌, arith, min, max, some, length, append_assoc, append-nil, Bool-cases, inl, inr,
  lt→ltb, sub64_fits,
}
use obtools.RangeSet.{
  Range, remove_from_start, remove_from_end, remove_from_middle, overlaps_with, contained_by,
  start_overlapped_by, end_overlapped_by,
}
use obtools.RangeSet.Order.{Fits, Ordered, end_lem, overlaps_iff, contained_iff}
use obtools.RangeSet.Inverse.{Before, Before-last, Before-weaken, Before-append, set_insert_last}
use obtools.RangeSet.Removal.{insert_beside, remove_one, remove_loop}
use obtools.RangeSet.Removal.Cut.{left_of, right_of, cut}

-- No range of the list ends where `r` starts, or starts where `r` ends.
abbrev pub Apart : Range → List Range → Type 0
Apart r [] = Unit
Apart r (q ∷ qs) = ((q.start + q.length ≢ r.start) × (q.start ≢ r.start + r.length)) × Apart r qs

insert_beside_last :
    (lo : ℕ) (p : Range) (before qs : List Range)
    → Before p.start before
    → p.start < lo
    → Ordered lo qs
    → insert_beside p (before, qs) ≡ (before ++ p ∷ [], qs)
unfolding insert_beside
insert_beside_last lo p before [] b h o = rw (set_insert_last p before b)
insert_beside_last lo p before (q ∷ qs) b h o =
    rw (lt→ltb p.start q.start (omega arith), set_insert_last p before b)

pub cut_beyond :
    (lo : ℕ) (r : Range) (qs : List Range)
    → Fits r
    → r.start + r.length ≤ lo
    → Ordered lo qs
    → cut r qs ≡ qs
unfolding cut
cut_beyond lo r [] f h o = refl
cut_beyond lo r (q ∷ qs) f h o =
    let a : ltb q.start r.start ≡ false = ground arith in
    let c : ltb (r.start + r.length) (q.start + q.length) ≡ true = ground arith in
    let e : max q.start (r.start + r.length) ≡ q.start = omega arith in
    let l : q.start + q.length - q.start ≡ q.length = omega arith in
    rw (a, c, e, l) (ap (λ t. q ∷ t) (cut_beyond (q.start + q.length + 1) r qs f (omega arith) o.2))

module _ (r q : Range) (f : Fits r) (g : Fits q)
    (far : (q.start + q.length ≢ r.start) × (q.start ≢ r.start + r.length))
    (meet : r.start < q.start + q.length) (touch : q.start ≤ r.start + r.length) where
  contained_test :
      contained_by q r ≡ (leb r.start q.start && leb (q.start + q.length) (r.start + r.length))
  contained_test = contained_iff q r g f

  start_test : start_overlapped_by q r ≡ leb r.start q.start
  unfolding start_overlapped_by
  start_test = rw (end_lem r f) (ground arith)

  end_test : end_overlapped_by q r ≡ leb (q.start + q.length) (r.start + r.length)
  unfolding end_overlapped_by
  end_test = rw (end_lem q g, end_lem r f) (ground arith)

  left_part : Range
  left_part = record { start = q.start; length = min (q.start + q.length) r.start - q.start }

  right_part : Range
  right_part = record {
    start = max q.start (r.start + r.length);
    length = q.start + q.length - max q.start (r.start + r.length);
  }

  from_end_lem : q.start < r.start → remove_from_end q r ≡ left_part
  unfolding remove_from_end left_part
  from_end_lem h = rw (
    end_lem q g,
    sub64_fits (min (q.start + q.length) r.start) q.start (omega arith) (omega arith),
  )

  from_start_lem : r.start + r.length < q.start + q.length → remove_from_start q r ≡ right_part
  unfolding remove_from_start right_part
  from_start_lem h = rw (
    end_lem q g,
    end_lem r f,
    sub64_fits (q.start + q.length) (max q.start (r.start + r.length)) (omega arith) (omega arith),
  )

  from_middle_lem :
      q.start < r.start
      → r.start + r.length < q.start + q.length
      → remove_from_middle q r ≡ (left_part, right_part)
  unfolding remove_from_middle left_part right_part
  from_middle_lem h k =
      let m : max q.start (r.start + r.length) ≡ r.start + r.length = omega arith in
      let n : min (q.start + q.length) r.start ≡ r.start = omega arith in
      rw (
        m,
        n,
        end_lem q g,
        end_lem r f,
        sub64_fits r.start q.start (omega arith) (omega arith),
        sub64_fits (q.start + q.length) (r.start + r.length) (omega arith) (omega arith),
      )

  module _ (before qs : List Range) (b : Before q.start before)
      (o : Ordered (q.start + q.length + 1) qs) where
    beside_left :
        q.start < r.start → insert_beside left_part (before, qs) ≡ (before ++ left_part ∷ [], qs)
    unfolding left_part
    beside_left h =
        insert_beside_last (q.start + q.length + 1) left_part before qs b (omega arith) o

    beside_right :
        (front : List Range)
        → Before (max q.start (r.start + r.length)) front
        → r.start + r.length < q.start + q.length
        → insert_beside right_part (front, qs) ≡ (front ++ right_part ∷ [], qs)
    unfolding right_part
    beside_right front c h =
        insert_beside_last (q.start + q.length + 1) right_part front qs c (omega arith) o

    Before-left :
        q.start < r.start → Before (max q.start (r.start + r.length)) (before ++ left_part ∷ [])
    unfolding left_part
    Before-left h = Before-last q.start _ _ before (omega arith) (omega arith) b

    abbrev Rounds : Type 0
    Rounds = remove_one r q (before, qs) ≡ (before ++ (left_of r q ++ right_of r q), qs)

    both_parts :
        ltb q.start r.start ≡ true → ltb (r.start + r.length) (q.start + q.length) ≡ true → Rounds
    unfolding remove_one
    both_parts a c =
        let t : contained_by q r ≡ false = ground (arith, contained_test) in
        let s : start_overlapped_by q r ≡ false = ground (arith, start_test) in
        let e : end_overlapped_by q r ≡ false = ground (arith, end_test) in
        rw (t, s, e, a, c)
          (ap (λ (p : Range × Range). insert_beside p.1 (insert_beside p.0 (before, qs)))
              (from_middle_lem (ground arith) (ground arith))
            ∙ ap (insert_beside right_part) (beside_left (ground arith))
            ∙ beside_right (before ++ left_part ∷ []) (Before-left (ground arith)) (ground arith)
            ∙ unfold left_part right_part in ap (λ l. (l, qs)) (append_assoc before _ _))

    left_alone :
        ltb q.start r.start ≡ true → ltb (r.start + r.length) (q.start + q.length) ≡ false → Rounds
    unfolding remove_one
    left_alone a c =
        let t : contained_by q r ≡ false = ground (arith, contained_test) in
        let s : start_overlapped_by q r ≡ false = ground (arith, start_test) in
        let e : end_overlapped_by q r ≡ true = ground (arith, end_test) in
        rw (t, s, e, a, c)
          (ap (λ p. insert_beside p (before, qs)) (from_end_lem (ground arith))
            ∙ beside_left (ground arith)
            ∙ unfold left_part in refl)

    right_alone :
        ltb q.start r.start ≡ false → ltb (r.start + r.length) (q.start + q.length) ≡ true → Rounds
    unfolding remove_one
    right_alone a c =
        let t : contained_by q r ≡ false = ground (arith, contained_test) in
        let s : start_overlapped_by q r ≡ true = ground (arith, start_test) in
        rw (t, s, a, c)
          (ap (λ p. insert_beside p (before, qs)) (from_start_lem (ground arith))
            ∙ beside_right before (Before-weaken q.start _ before (omega arith) b) (ground arith)
            ∙ unfold right_part in refl)

    no_part :
        ltb q.start r.start ≡ false → ltb (r.start + r.length) (q.start + q.length) ≡ false → Rounds
    unfolding remove_one
    no_part a c =
        let t : contained_by q r ≡ true = ground (arith, contained_test) in rw (t, a, c, append-nil)

    -- One round leaves what `cut` leaves, before the iterator.
    remove_one_lem : Rounds
    remove_one_lem = elim (Bool-cases (ltb q.start r.start)) [
      | inl a ↦ elim (Bool-cases (ltb (r.start + r.length) (q.start + q.length))) [
        | inl c ↦ both_parts a c
        | inr c ↦ left_alone a c
      ]
      | inr a ↦ elim (Bool-cases (ltb (r.start + r.length) (q.start + q.length))) [
        | inl c ↦ right_alone a c
        | inr c ↦ no_part a c
      ]
    ]

    Before-parts : Before (q.start + q.length + 1) (before ++ (left_of r q ++ right_of r q))
    Before-parts =
        Before-append _ before _ (Before-weaken q.start _ before (omega arith) b) (ground arith)

-- The position is usable: the first range there ends after `r` starts, or nothing from it on is met.
abbrev pub Usable : Range → List Range → Type 0
Usable r [] = Unit
Usable r (q ∷ qs) =
    (r.start < q.start + q.length) ⊎ ((q.start + q.length < r.start) × (cut r qs ≡ qs))

pub overlap_test :
    (r q : Range) → Fits r → Fits q → q.start + q.length < r.start → overlaps_with q r ≡ false
unfolding overlaps_with
overlap_test r q f g h = rw (end_lem r f, end_lem q g) (ground arith)

pub cut_before :
    (r q : Range) (qs : List Range)
    → Fits r
    → Fits q
    → q.start + q.length < r.start
    → cut r (q ∷ qs) ≡ q ∷ cut r qs
unfolding cut
cut_before r q qs f g h =
    let a : ltb q.start r.start ≡ true = ground arith in
    let c : ltb (r.start + r.length) (q.start + q.length) ≡ false = ground arith in
    let e : min (q.start + q.length) r.start - q.start ≡ q.length = omega arith in rw (a, c, e)

pub Usable-later :
    (n : ℕ) (r : Range) (qs : List Range) → r.start < n → Ordered (n + 1) qs → Usable r qs
Usable-later n r [] h o = tt
Usable-later n r (q ∷ qs) h o = inl (omega arith)

pub remove_loop_lem :
    (lo fuel : ℕ) (r : Range) (before after : List Range)
    → Fits r
    → Before lo before
    → Ordered lo after
    → Apart r after
    → Usable r after
    → length after < fuel
    → remove_loop fuel r (before, after) ≡ some (before ++ cut r after)
unfolding remove_loop
remove_loop_lem lo fuel r before [] f b o p u h = unfold cut in rw append-nil
remove_loop_lem lo zero r before (q ∷ qs) f b o p u h = absurd (omega arith)
remove_loop_lem lo (suc fuel) r before (q ∷ qs) f b o p (inr e) h =
    rw (overlap_test r q f o.1 e.0, cut_before r q qs f o.1 e.0, e.1)
remove_loop_lem lo (suc fuel) r before (q ∷ qs) f b o p (inl m) h =
    elim (Bool-cases (leb q.start (r.start + r.length))) [
      | inr beyond ↦ rw (
        overlaps_iff q r o.1 f (omega arith),
        beyond,
        cut_beyond q.start r (q ∷ qs) f (ground arith) (omega arith, o.1, o.2),
      )
      | inl touch ↦
          let b' = Before-weaken lo q.start before o.0 b in
          let t : q.start ≤ r.start + r.length = ground arith in
          rw
            (
              overlaps_iff q r o.1 f (omega arith),
              touch,
              remove_one_lem r q f o.1 p.0 m t before qs b' o.2,
            )
            (remove_loop_lem (q.start + q.length + 1) fuel r
                (before ++ (left_of r q ++ right_of r q)) qs f
                (Before-parts r q f o.1 p.0 m t before qs b' o.2) o.2 p.1
                (Usable-later (q.start + q.length) r qs m o.2) (omega arith)
              ∙ unfold cut in
                ap some (
                  append_assoc before (left_of r q ++ right_of r q) (cut r qs)
                  ∙ ap (λ l. before ++ l) (append_assoc (left_of r q) (right_of r q) (cut r qs))))
    ]
