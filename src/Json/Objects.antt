-- ===== src/Json/Objects.antt =====
-- The map of an object's properties: Value::put and get of libs/json.
use obtools.Common.{
  ℕ, ◌≡◌, ◌≢◌, ◌<◌, ◌⊎◌, ltb→lt, refl, sym, ap, ap₂, ◌∙◌, inl, inr, [], ◌∷◌, true, false, ltb,
  if◌then◌else◌, Bool-cases, arith,
}
use obtools.Channel.{Bytes}
use obtools.Json.{Value, undefined, Members, no_members, member, before, put, find}
use obtools.Json.Form.{AllAfter}

abbrev pub Ascending : Members → Type 0
Ascending no_members = Unit {0}
Ascending (member k v ms) = AllAfter k ms × Ascending ms

before_irrefl : (xs : Bytes) → before xs xs ≡ false
unfolding before
before_irrefl [] = refl
before_irrefl (x ∷ xs) = let e : ltb x x ≡ false = ground arith in rw e (before_irrefl xs)

before_less : (x y : ℕ) (xs ys : Bytes) → x < y → before (x ∷ xs) (y ∷ ys) ≡ true
unfolding before
before_less x y xs ys h = let a : ltb x y ≡ true = ground arith in rw a refl

before_equal : (x y : ℕ) (xs ys : Bytes) → x ≡ y → before (x ∷ xs) (y ∷ ys) ≡ before xs ys
unfolding before
before_equal x y xs ys h =
    let a : ltb x y ≡ false = ground arith in
    let b : ltb y x ≡ false = ground arith in rw (a, b) refl

before_cons :
    (x y : ℕ) (xs ys : Bytes)
    → before (x ∷ xs) (y ∷ ys) ≡ true
    → (x < y) ⊎ ((x ≡ y) × (before xs ys ≡ true))
unfolding before
before_cons x y xs ys h = elim (Bool-cases (ltb x y)) [
  | inl a ↦ inl (ltb→lt x y a)
  | inr a ↦ elim (Bool-cases (ltb y x)) [
    | inl b ↦ absurd (ground arith)
    | inr b ↦ inr (ground arith, rw (a, b) at h)
  ]
]

before_trans : (xs ys zs : Bytes) → before xs ys ≡ true → before ys zs ≡ true → before xs zs ≡ true
unfolding before
before_trans xs ys [] h g = absurd (ground arith)
before_trans [] ys (z ∷ zs) h g = refl
before_trans (x ∷ xs) [] (z ∷ zs) h g = absurd (ground arith)
before_trans (x ∷ xs) (y ∷ ys) (z ∷ zs) h g = elim (before_cons x y xs ys h) [
  | inl a ↦ elim (before_cons y z ys zs g) [
    | inl b ↦ before_less x z xs zs (omega arith)
    | inr b ↦ before_less x z xs zs (omega (arith, b.0))
  ]
  | inr a ↦ elim (before_cons y z ys zs g) [
    | inl b ↦ before_less x z xs zs (omega (arith, a.0))
    | inr b ↦ before_equal x z xs zs (a.0 ∙ b.0) ∙ before_trans xs ys zs a.1 b.1
  ]
]

before_total : (xs ys : Bytes) → before xs ys ≡ false → before ys xs ≡ false → xs ≡ ys
unfolding before
before_total [] [] h g = refl
before_total [] (y ∷ ys) h g = absurd (ground arith)
before_total (x ∷ xs) [] h g = absurd (ground arith)
before_total (x ∷ xs) (y ∷ ys) h g = elim (Bool-cases (ltb x y)) [
  | inl a ↦ absurd (ground arith)
  | inr a ↦ elim (Bool-cases (ltb y x)) [
    | inl b ↦ absurd (ground arith)
    | inr b ↦
        (let e : x ≡ y = ground arith in
          ap₂ (λ u us. u ∷ us) e (before_total xs ys (rw (a, b) at h) (rw (b, a) at g)))
  ]
]

AllAfter-trans : (j k : Bytes) (ms : Members) → before j k ≡ true → AllAfter k ms → AllAfter j ms
AllAfter-trans j k no_members h a = tt
AllAfter-trans j k (member k' v ms) h a = (before_trans j k k' h a.0, AllAfter-trans j k ms h a.1)

AllAfter-put :
    (j k : Bytes) (v : Value) (ms : Members)
    → before j k ≡ true
    → AllAfter j ms
    → AllAfter j (put k v ms)
unfolding put
AllAfter-put j k v no_members h a = (h, tt)
AllAfter-put j k v (member k' w ms) h a = elim (Bool-cases (before k k')) [
  | inl t ↦ rw t (h, a)
  | inr f ↦ elim (Bool-cases (before k' k)) [
    | inl t ↦ rw (f, t) (a.0, AllAfter-put j k v ms h a.1)
    | inr g ↦ rw (f, g) a
  ]
]

Ascending-put : (k : Bytes) (v : Value) (ms : Members) → Ascending ms → Ascending (put k v ms)
unfolding put
Ascending-put k v no_members a = (tt, tt)
Ascending-put k v (member k' w ms) a = elim (Bool-cases (before k k')) [
  | inl t ↦ rw t ((t, AllAfter-trans k k' ms t a.0), a)
  | inr f ↦ elim (Bool-cases (before k' k)) [
    | inl t ↦ rw (f, t) (AllAfter-put k' k v ms t a.0, Ascending-put k v ms a.1)
    | inr g ↦ rw (f, g) a
  ]
]

find-put_self : (k : Bytes) (v : Value) (ms : Members) → find k (put k v ms) ≡ v
unfolding put find
find-put_self k v no_members = let i = before_irrefl k in rw i refl
find-put_self k v (member k' w ms) = elim (Bool-cases (before k k')) [
  | inl t ↦ (let i = before_irrefl k in rw (t, i) refl)
  | inr f ↦ elim (Bool-cases (before k' k)) [
    | inl t ↦ rw (f, t, f, t) (find-put_self k v ms)
    | inr g ↦ rw (f, g, f, g) refl
  ]
]

-- The two tests of a look-up, where the keys differ.
find_absent :
    (j k : Bytes) (v : Value) (ms : Members)
    → j ≢ k
    → find j ms ≡ undefined
    → find j (member k v ms) ≡ undefined
unfolding find
find_absent j k v ms n h = elim (Bool-cases (before j k)) [
  | inl t ↦ rw t refl
  | inr f ↦ elim (Bool-cases (before k j)) [
    | inl t ↦ rw (f, t) h
    | inr g ↦ absurd (n (before_total j k f g))
  ]
]

find-put_front :
    (j k k' : Bytes) (v w : Value) (ms : Members)
    → j ≢ k
    → before k k' ≡ true
    → find j (member k v (member k' w ms)) ≡ find j (member k' w ms)
unfolding find
find-put_front j k k' v w ms n h = elim (Bool-cases (before j k)) [
  | inl t ↦ (let u = before_trans j k k' t h in rw (t, u) refl)
  | inr f ↦ elim (Bool-cases (before k j)) [
    | inl t ↦ rw (f, t) refl
    | inr g ↦ absurd (n (before_total j k f g))
  ]
]

find-put_other : (j k : Bytes) (v : Value) (ms : Members) → j ≢ k → find j (put k v ms) ≡ find j ms
unfolding put find
find-put_other j k v no_members n = find_absent j k v no_members n refl
find-put_other j k v (member k' w ms) n = elim (Bool-cases (before k k')) [
  | inl t ↦ rw t (find-put_front j k k' v w ms n t)
  | inr f ↦ elim (Bool-cases (before k' k)) [
    | inl t ↦
        rw (f, t)
          (ap (λ u. if before j k' then undefined else if before k' j then u else w)
            (find-put_other j k v ms n))
    | inr g ↦
        rw (f, g)
          (elim (Bool-cases (before j k')) [
            | inl a ↦ rw a refl
            | inr a ↦ elim (Bool-cases (before k' j)) [
              | inl b ↦ rw (a, b) refl
              | inr b ↦ absurd (n (before_total j k' a b ∙ sym (before_total k k' f g)))
            ]
          ])
  ]
]

-- put keeps the properties of an object in ascending order of keys; afterwards the key has the new
-- value, and every other key has what it had.
pub put_lem :
    (k : Bytes) (v : Value) (ms : Members)
    → Ascending ms
    → Ascending (put k v ms)
      × (find k (put k v ms) ≡ v)
      × ((j : Bytes) → j ≢ k → find j (put k v ms) ≡ find j ms)
put_lem k v ms a = (Ascending-put k v ms a, find-put_self k v ms, λ j n. find-put_other j k v ms n)
