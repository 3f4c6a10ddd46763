-- ===== src/Channel/Supply.antt =====
-- What a reader's source promises, and what the loops of libs/chan/reader.cc make of it.
use obtools.Common.{
  ℕ, zero, suc, ◌+◌, ◌-◌, ◌≤◌, ◌<◌, ◌≡◌, refl, sym, ap, ◌∙◌, ◌⊎◌, inl, inr, [], ◌∷◌, ◌++◌,
  append-nil, append_assoc, none, some, true, length, length-append, take, drop, take-all, drop-all,
  ltb, ltb→lt, lt→ltb, Bool-cases, arith,
}
use obtools.Channel.{Bytes, Error, Action, Outcome, returned, thrown}
use obtools.Channel.Reading.{on_data, try_loop}

-- A source of the bytes `rest`: a read hands over the next of them, at most as many as were asked
-- for, and none only where none were asked for or there are none.
pub record Supply {S : Type 0} (basic_read : ℕ → Action S Bytes) : Type 1 where
  pub Valid : S → Type 0
  pub rest : S → Bytes
  pub reads :
      (count : ℕ) (s : S)
      → Valid s
      → (bs : Bytes) × (s' : S) × (basic_read count s ≡ returned bs s')
        × Valid s'
        × (rest s ≡ bs ++ rest s')
        × (length bs ≤ count)
        × ((0 < length bs) ⊎ (count ≡ 0) ⊎ (length (rest s) ≡ 0))

pub take-append_over :
    (xs ys : Bytes) (n : ℕ) → length xs ≤ n → take n (xs ++ ys) ≡ xs ++ take (n - length xs) ys
take-append_over [] ys n h = ap (λ k. take k ys) (omega arith)
take-append_over (x ∷ xs) ys zero h = absurd (omega arith)
take-append_over (x ∷ xs) ys (suc n) h =
    ap (λ t. x ∷ t) (take-append_over xs ys n (omega arith))
    ∙ ap (λ k. x ∷ (xs ++ take k ys)) (omega arith)

pub drop-append_over :
    (xs ys : Bytes) (n : ℕ) → length xs ≤ n → drop n (xs ++ ys) ≡ drop (n - length xs) ys
drop-append_over [] ys n h = ap (λ k. drop k ys) (omega arith)
drop-append_over (x ∷ xs) ys zero h = absurd (omega arith)
drop-append_over (x ∷ xs) ys (suc n) h =
    drop-append_over xs ys n (omega arith) ∙ ap (λ k. drop k ys) (omega arith)

pub on_data-some : {B : Type 0} (bs : Bytes) (e k : B) → 0 < length bs → on_data bs e k ≡ k
on_data-some [] e k h = absurd (omega arith)
on_data-some (b ∷ bs) e k h = refl

pub on_data-none : {B : Type 0} (bs : Bytes) (e k : B) → length bs ≡ 0 → on_data bs e k ≡ e
on_data-none [] e k h = refl
on_data-none (b ∷ bs) e k h = absurd (omega arith)

pub take-nil : (n : ℕ) (xs : Bytes) → length xs ≡ 0 → take n xs ≡ xs
take-nil n xs h = take-all xs n (omega arith)

pub drop-nil : (n : ℕ) (xs : Bytes) → length xs ≡ 0 → drop n xs ≡ []
drop-nil n xs h = drop-all xs n (omega arith)

pub empty : (xs : Bytes) → length xs ≡ 0 → xs ≡ []
empty [] h = refl
empty (x ∷ xs) h = absurd (omega arith)

module _ {S : Type 0} {basic_read : ℕ → Action S Bytes} (supply : Supply basic_read) where
  -- The outcome of a read of `n` bytes where there are as many.
  abbrev pub Hands : {A : Type 0} → Outcome S A → A → S → ℕ → Type 0
  Hands out a s n =
      (s' : S) × (out ≡ returned a s') × supply.Valid s' × (supply.rest s' ≡ drop n (supply.rest s))

  module _ (ask : ℕ → ℕ) (e : Error) (asks : (n : ℕ) → 0 < n → (0 < ask n) × (ask n ≤ n)) where
    try_loop-more :
        (fuel count finished : ℕ) (bs got : Bytes) (s s1 : S)
        → ltb finished count ≡ true
        → basic_read (ask (count - finished)) s ≡ returned got s1
        → supply.rest s ≡ got ++ supply.rest s1
        → 0 < length got
        → length got ≤ count - finished
        → Hands
            (try_loop basic_read ask e fuel count (finished + length got) (bs ++ got) s1)
            (some (bs ++ got ++ take (count - (finished + length got)) (supply.rest s1)))
            s1
            (count - (finished + length got))
        → Hands
            (try_loop basic_read ask e (suc fuel) count finished bs s)
            (some (bs ++ take (count - finished) (supply.rest s)))
            s
            (count - finished)
    unfolding try_loop
    try_loop-more fuel count finished bs got s s1 t er e1 pos le (s2, e2, v2, r2) = (
      s2,
      rw (t, er, on_data-some got _ _ pos, e2, e1, tk, sym k, append_assoc) refl,
      v2,
      rw (e1, dr, sym k) r2,
    )
      where
        k : count - (finished + length got) ≡ count - finished - length got
        k = omega arith

        tk :
            take (count - finished) (got ++ supply.rest s1)
            ≡ got ++ take (count - finished - length got) (supply.rest s1)
        tk = take-append_over got (supply.rest s1) (count - finished) le

        dr :
            drop (count - finished) (got ++ supply.rest s1)
            ≡ drop (count - finished - length got) (supply.rest s1)
        dr = drop-append_over got (supply.rest s1) (count - finished) le

    pub try_loop-exact :
        (fuel count finished : ℕ) (bs : Bytes) (s : S)
        → supply.Valid s
        → count - finished ≤ fuel
        → count - finished ≤ length (supply.rest s)
        → Hands
            (try_loop basic_read ask e fuel count finished bs s)
            (some (bs ++ take (count - finished) (supply.rest s)))
            s
            (count - finished)
    unfolding try_loop
    try_loop-exact zero count finished bs s v hf hl =
        let k0 : count - finished ≡ 0 = omega arith in (s, rw (k0, append-nil) refl, v, rw k0 refl)
    try_loop-exact (suc fuel) count finished bs s v hf hl = elim (Bool-cases (ltb finished count)) [
      | inr f ↦
          (let k0 : count - finished ≡ 0 = ground arith in
            (s, rw (f, k0, append-nil) refl, v, rw k0 refl))
      | inl t ↦
          (let lt = ltb→lt finished count t in
            let (a0, a1) = asks (count - finished) (omega arith) in
            let (got, s1, er, v1, e1, le, nz) = supply.reads (ask (count - finished)) s v in
            let pos : 0 < length got = ground arith in
            let len : length (supply.rest s) ≡ length got + length (supply.rest s1) =
              ap length e1 ∙ length-append got (supply.rest s1) in
            try_loop-more fuel count finished bs got s s1 t er e1 pos (omega arith) (
              try_loop-exact fuel count (finished + length got) (bs ++ got) s1 v1 (omega arith)
                (omega arith)))
    ]

    -- Where the source has fewer bytes than are wanted: nothing is read, or what there is, and then
    -- the exception.
    pub try_loop-short :
        (fuel count finished : ℕ) (bs : Bytes) (s : S)
        → supply.Valid s
        → count - finished ≤ fuel
        → length (supply.rest s) < count - finished
        → 0 < finished + length (supply.rest s)
        → (s' : S) × (try_loop basic_read ask e fuel count finished bs s ≡ thrown e s')
          × supply.Valid s'
          × (supply.rest s' ≡ [])
    unfolding try_loop
    try_loop-short zero count finished bs s v hf hl pos = absurd (omega arith)
    try_loop-short (suc fuel) count finished bs s v hf hl pos =
        let (a0, a1) = asks (count - finished) (omega arith) in
        let t = lt→ltb finished count (omega arith) in
        let (got, s1, er, v1, e1, le, nz) = supply.reads (ask (count - finished)) s v in
        let len : length (supply.rest s) ≡ length got + length (supply.rest s1) =
          ap length e1 ∙ length-append got (supply.rest s1) in
        elim (Bool-cases (ltb 0 (length got))) [
          | inl p ↦
              (let p' = ltb→lt 0 (length got) p in
                let (s2, e2, v2, r2) =
                  try_loop-short fuel count (finished + length got) (bs ++ got) s1 v1 (omega arith)
                    (omega arith) (omega arith) in
                (s2, rw (t, er, on_data-some got _ _ p', e2) refl, v2, r2))
          | inr p ↦
              (let z : length got ≡ 0 = ground arith in
                let l0 : length (supply.rest s1) ≡ 0 = ground arith in
                (
                  s1,
                  rw (t, er, on_data-none got _ _ z, lt→ltb 0 finished (omega arith)) refl,
                  v1,
                  empty (supply.rest s1) l0,
                ))
        ]

    pub try_loop-none :
        (fuel count : ℕ) (bs : Bytes) (s : S)
        → supply.Valid s
        → 0 < count
        → supply.rest s ≡ []
        → (s' : S) × (try_loop basic_read ask e (suc fuel) count 0 bs s ≡ returned none s')
          × supply.Valid s'
          × (supply.rest s' ≡ [])
    unfolding try_loop
    try_loop-none fuel count bs s v pos nil =
        let k : count - 0 ≡ count = omega arith in
        let (a0, a1) = asks count pos in
        let t = lt→ltb 0 count pos in
        let (got, s1, er, v1, e1, le, nz) = supply.reads (ask count) s v in
        let len : 0 ≡ length got + length (supply.rest s1) =
          ap length (sym nil ∙ e1) ∙ length-append got (supply.rest s1) in
        (
          s1,
          rw (t, k, er, on_data-none got _ _ (omega arith)) refl,
          v1,
          empty (supply.rest s1) (omega arith),
        )
