-- ===== src/Ring/Queue.antt =====
-- The ring buffer of libs/ring/ot-ring.h against a bounded queue: a list and a capacity.
use obtools.Common.{
  ℕ, zero, suc, ◌+◌, ◌-◌, ◌^◌, ◌≤◌, ◌<◌, ◌≡◌, refl, sym, ap, ◌∙◌, List, [], ◌∷◌, ◌++◌, length,
  get_or, get_or-set_self, set, length-set, length-replicate, arith, ltb, if◌then◌else◌, Bool, true,
  false, Option, none, some, ◌≢◌, inl, inr, Bool-cases, ◌==◌,
}
use obtools.Ring.{
  Buffer, IsValid, inc, make, put, get, flush_from_put, flush_from_get, size, used, window,
  contents,
}
use obtools.Ring.Window.{
  ahead, places, inc_lem, inc_range, length-window, window-items, window_last, window-set,
}

-- The specification: a queue that holds at most `cap` items.
module _ {ℓ} {A : Type ℓ} where
  pub enqueue : ℕ → A → List A → List A × Bool
  enqueue cap x q = if ltb (length q) cap then (q ++ x ∷ [], true) else (q, false)

  pub dequeue : List A → List A × Option A
  dequeue [] = ([], none)
  dequeue (x ∷ q) = (q, some x)

-- One call on the buffer, and what it answers.
pub data Call {ℓ} (A : Type ℓ) : Type ℓ where
  putting : A → Call A
  getting : Call A
  flushing_put : Call A
  flushing_get : Call A

pub data Answer {ℓ} (A : Type ℓ) : Type ℓ where
  accepted : Bool → Answer A
  fetched : Option A → Answer A
  flushed : Answer A

module _ {ℓ} {A : Type ℓ} (fresh : A) where
  abbrev given : Buffer A × Bool → Buffer A × Answer A
  given (b, r) = (b, accepted r)

  abbrev taken : Buffer A × Option A → Buffer A × Answer A
  taken (b, r) = (b, fetched r)

  unfoldable pub call : Call A → Buffer A → Buffer A × Answer A
  call (putting x) b = given (put x b)
  call getting b = taken (get fresh b)
  call flushing_put b = (flush_from_put b, flushed)
  call flushing_get b = (flush_from_get b, flushed)

  -- The answers to a sequence of calls.
  unfoldable pub answers : List (Call A) → Buffer A → List (Answer A)
  answers [] b = []
  answers (c ∷ cs) b = let (b', r) = call c b in r ∷ answers cs b'

module _ {ℓ} {A : Type ℓ} where
  abbrev given_spec : List A × Bool → List A × Answer A
  given_spec (q, r) = (q, accepted r)

  abbrev taken_spec : List A × Option A → List A × Answer A
  taken_spec (q, r) = (q, fetched r)

  pub call_spec : ℕ → Call A → List A → List A × Answer A
  unfolding enqueue dequeue
  call_spec cap (putting x) q = given_spec (enqueue cap x q)
  call_spec cap getting q = taken_spec (dequeue q)
  call_spec cap flushing_put q = ([], flushed)
  call_spec cap flushing_get q = ([], flushed)

  pub answers_spec : ℕ → List (Call A) → List A → List (Answer A)
  answers_spec cap [] q = []
  answers_spec cap (c ∷ cs) q = let (q', r) = call_spec cap c q in r ∷ answers_spec cap cs q'

module _ {ℓ} {A : Type ℓ} (fresh : A) (b : Buffer A) (v : IsValid b) where
  used-le-size : used b ≤ size b
  unfolding used size
  used-le-size = ground (arith, v.in_range, v.out_range)

  length-contents : length (contents fresh b) ≡ used b
  unfolding contents
  length-contents = length-window fresh b (used b) b.out_index

  -- `put` refuses exactly when the queue is full.
  put_full : (x : A) → (put x b).1 ≡ ltb (used b) (size b)
  unfolding put used size
  put_full x = ground (arith, v.in_range, v.out_range, v.small, inc_lem b b.in_index)

  pub put-IsValid : (x : A) → IsValid (put x b).0
  unfolding put
  put-IsValid x = record {
    in_range = ground (arith, v.in_range, length-set b.items b.in_index x, inc_range b b.in_index);
    out_range = ground (arith, v.out_range, length-set b.items b.in_index x);
    small = ground (arith, v.small, length-set b.items b.in_index x);
  }

  pub get-IsValid : IsValid (get fresh b).0
  unfolding get
  get-IsValid = ground (arith, v.in_range, v.out_range, v.small, inc_range b b.out_index)

  abbrev written : A → Buffer A
  written x = record b { items = set b.items b.in_index x; in_index = inc b b.in_index }

  pub not_full : used b < size b → (inc b b.in_index == b.out_index) ≡ false
  unfolding used size
  not_full h = ground (arith, v.in_range, v.out_range, v.small, inc_lem b b.in_index)

  pub full : size b ≤ used b → (inc b b.in_index == b.out_index) ≡ true
  unfolding used size
  full h = ground (arith, v.in_range, v.out_range, v.small, inc_lem b b.in_index)

  put_room : (x : A) → used b < size b → put x b ≡ (written x, true)
  unfolding put
  put_room x h = rw (not_full h)

  put_no_room : (x : A) → size b ≤ used b → put x b ≡ (b, false)
  unfolding put
  put_no_room x h = rw (full h)

  used-written : (x : A) → used b < size b → used (written x) ≡ suc (used b)
  unfolding used size
  used-written x h = ground (
    arith,
    v.in_range,
    v.out_range,
    v.small,
    inc_lem b b.in_index,
    length-set b.items b.in_index x,
  )

  pub ahead_in : ahead (length b.items) b.out_index (used b) ≡ b.in_index
  unfolding used
  ahead_in = ground (arith, v.in_range, v.out_range)

  pub used-places : used b ≡ places (length b.items) b.out_index b.in_index
  unfolding used
  used-places = refl

  window-written :
      (x : A)
      → used b < size b
      → window fresh (written x) (suc (used b)) b.out_index
        ≡ window fresh b (used b) b.out_index ++ x ∷ []
  unfolding size
  window-written x h =
      window_last fresh (written x) (used b) b.out_index
        (rw (length-set b.items b.in_index x) v.out_range)
        (rw (length-set b.items b.in_index x) (omega arith))
        (rw (length-set b.items b.in_index x) v.small)
      ∙ rw (
        length-set b.items b.in_index x,
        ahead_in,
        get_or-set_self b.items b.in_index x fresh v.in_range,
        window-set fresh x b b.in_index (inc b b.in_index) (used b) b.out_index v.out_range
            v.in_range v.small (omega (arith, used-places)),
      )

  -- `put` is `enqueue` on the contents.
  enqueue-contents :
      (x : A) → enqueue (size b) x (contents fresh b) ≡ (contents fresh (put x b).0, (put x b).1)
  unfolding contents enqueue
  enqueue-contents x = elim (Bool-cases (ltb (used b) (size b))) [
    | inl room ↦ rw (
      length-window fresh b (used b) b.out_index,
      room,
      put_room x (ground arith),
      used-written x (ground arith),
      window-written x (ground arith),
    )
    | inr none_left ↦
        rw (length-window fresh b (used b) b.out_index, none_left, put_no_room x (ground arith))
  ]

  pub empty_iff : (b.out_index == b.in_index) ≡ (used b == 0)
  unfolding used
  empty_iff = ground (arith, v.in_range, v.out_range)

  abbrev pub stepped : Buffer A
  stepped = record b { out_index = inc b b.out_index }

  pub used-stepped : used b ≢ 0 → used stepped ≡ used b - 1
  unfolding used
  used-stepped h = ground (arith, v.in_range, v.out_range, v.small, inc_lem b b.out_index)

  get-some : used b ≢ 0 → get fresh b ≡ (stepped, some (get_or b.items b.out_index fresh))
  unfolding get
  get-some h = let e : (used b == 0) ≡ false = ground arith in rw (empty_iff, e)

  get-none : used b ≡ 0 → get fresh b ≡ (b, none)
  unfolding get
  get-none h = let e : (used b == 0) ≡ true = ground arith in rw (empty_iff, e)

  dequeue-window :
      (n : ℕ)
      → used b ≡ n
      → dequeue (window fresh b n b.out_index) ≡ (contents fresh (get fresh b).0, (get fresh b).1)
  unfolding contents dequeue
  dequeue-window zero e = rw (get-none e, e)
  dequeue-window (suc n) e =
      let e' : used stepped ≡ n = omega (arith, used-stepped (omega arith)) in
      rw (get-some (omega arith), e')
        (ap (λ t. (t, some (get_or b.items b.out_index fresh)))
          (sym (window-items fresh b stepped n (inc b b.out_index) refl)))

  -- `get` is `dequeue` on the contents.
  dequeue-contents : dequeue (contents fresh b) ≡ (contents fresh (get fresh b).0, (get fresh b).1)
  unfolding contents
  dequeue-contents = dequeue-window (used b) refl

  -- `put` and `get` leave the size of the vector alone.
  size-put : (x : A) → size (put x b).0 ≡ size b
  unfolding put size
  size-put x = ground (arith, length-set b.items b.in_index x)

  size-get : size (get fresh b).0 ≡ size b
  unfolding get size
  size-get = ground arith

  used_flush_put : used (flush_from_put b) ≡ 0
  unfolding used flush_from_put
  used_flush_put = ground arith

  used_flush_get : used (flush_from_get b) ≡ 0
  unfolding used flush_from_get
  used_flush_get = ground arith

  call-contents :
      (c : Call A)
      → call_spec (size b) c (contents fresh b)
        ≡ (contents fresh (call fresh c b).0, (call fresh c b).1)
  unfolding call_spec call
  call-contents (putting x) = ap given_spec (enqueue-contents x)
  call-contents getting = ap taken_spec dequeue-contents
  call-contents flushing_put = unfold contents in rw used_flush_put
  call-contents flushing_get = unfold contents in rw used_flush_get

  pub call-IsValid : (c : Call A) → IsValid (call fresh c b).0
  unfolding call
  call-IsValid (putting x) = put-IsValid x
  call-IsValid getting = get-IsValid
  call-IsValid flushing_put =
      unfold flush_from_put in ground (arith, v.in_range, v.out_range, v.small)
  call-IsValid flushing_get =
      unfold flush_from_get in ground (arith, v.in_range, v.out_range, v.small)

  size-call : (c : Call A) → size (call fresh c b).0 ≡ size b
  unfolding call
  size-call (putting x) = size-put x
  size-call getting = size-get
  size-call flushing_put = unfold flush_from_put size in refl
  size-call flushing_get = unfold flush_from_get size in refl

module _ {ℓ} {A : Type ℓ} (fresh : A) where
  answers-contents :
      (cs : List (Call A)) (b : Buffer A)
      → IsValid b
      → answers fresh cs b ≡ answers_spec (size b) cs (contents fresh b)
  unfolding answers answers_spec
  answers-contents [] b v = refl
  answers-contents (c ∷ cs) b v = rw (call-contents fresh b v c) (
      ap (λ t. (call fresh c b).1 ∷ t)
        (answers-contents cs (call fresh c b).0 (call-IsValid fresh b v c)
          ∙ rw (size-call fresh b v c)))

  pub make-IsValid : (n : ℕ) → n + 1 < 2 ^ 31 → IsValid (make fresh n)
  unfolding make
  make-IsValid n h = ground (arith, length-replicate (n + 1) fresh)

  size-make : (n : ℕ) → size (make fresh n) ≡ n
  unfolding make size
  size-make n = omega (arith, length-replicate (n + 1) fresh)

  pub contents-make : (n : ℕ) → contents fresh (make fresh n) ≡ []
  unfolding contents make used
  contents-make n = refl

  -- A buffer made for `n` items, where the vector's size `n + 1` fits an `int`, answers every
  -- sequence of `put`, `get`, `flush_from_put` and `flush_from_get` calls of one thread as an empty
  -- queue of capacity `n` does: puts are refused exactly when `n` items wait, and gets return the
  -- items in the order of the puts.
  pub answers-make :
      (n : ℕ) (cs : List (Call A))
      → n + 1 < 2 ^ 31
      → answers fresh cs (make fresh n) ≡ answers_spec n cs []
  answers-make n cs h =
      answers-contents cs (make fresh n) (make-IsValid n h) ∙ rw (size-make, contents-make)

  -- On a buffer in a valid state, `used` is the number of items that wait and is at most `size`.
  pub used-length :
      (b : Buffer A) → IsValid b → (used b ≡ length (contents fresh b)) × (used b ≤ size b)
  used-length b v = (sym (length-contents fresh b v), used-le-size fresh b v)
