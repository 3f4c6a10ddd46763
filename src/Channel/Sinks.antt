-- ===== src/Channel/Sinks.antt =====
-- The contract of a Writer, libs/chan/ot-chan.h, kept by the writers on memory, and what the calls
-- of libs/chan/writer.cc put into one.
use obtools.Common.{
  leb-true, ℕ, zero, suc, ◌+◌, ◌-◌, ◌^◌, ◌≤◌, ◌<◌, ◌≡◌, refl, sym, subst, ap, ◌∙◌, inl, inr, [],
  ◌∷◌, ◌++◌, append-nil, append_assoc, min, length, length-append, length-take, length-drop,
  length-replicate, take, drop, take-all, take-append, replicate, ltb, Bool-cases, arith,
  add64_fits, sub64_fits,
}
use obtools.Channel.{Bytes, Action, Outcome, returned, ◌>>◌, Writer}
use obtools.Channel.Writing.{write_fixed, pad_to, skip_loop}
use obtools.Channel.Memory.{
  StringWriter, string_basic_write, string_writer, BlockWriter, store, block_basic_write,
  block_writer,
}

-- A writer that has room for `n` bytes takes that many, behind what is written.
pub record Sink {S : Type 0} (w : Writer S) : Type 1 where
  pub Room : ℕ → S → Type 0
  pub written : S → Bytes
  pub writes :
      (bs : Bytes) (n : ℕ) (s : S)
      → Room (length bs + n) s
      → (s' : S) × (w.basic_write bs s ≡ returned tt s')
        × Room n s'
        × (written s' ≡ written s ++ bs)

take-min : (n : ℕ) (bs : Bytes) → take (min n (length bs)) bs ≡ take n bs
take-min n bs = elim (Bool-cases (ltb n (length bs))) [
  | inl t ↦ (let e : min n (length bs) ≡ n = ground arith in rw e refl)
  | inr f ↦
      (let e : min n (length bs) ≡ length bs = ground arith in
        rw e (take-all bs (length bs) (omega arith) ∙ sym (take-all bs n (ground arith))))
]

zeros : (n : ℕ) → length (replicate {A = ℕ} n 0) ≡ n
zeros n = length-replicate {A = ℕ} n 0

replicate-add : (m n a : ℕ) → replicate m a ++ replicate n a ≡ replicate (m + n) a
replicate-add zero n a = let e : 0 + n ≡ n = omega arith in rw e refl
replicate-add (suc m) n a =
    let e : suc m + n ≡ suc (m + n) = omega arith in rw e (ap (λ t. a ∷ t) (replicate-add m n a))

module _ {S : Type 0} {w : Writer S} (sink : Sink w) where
  abbrev pub Adds : Outcome S (Unit {0}) → Bytes → ℕ → S → Type 0
  Adds out bs n s =
      (s' : S) × (out ≡ returned tt s') × sink.Room n s' × (sink.written s' ≡ sink.written s ++ bs)

  room : (m n : ℕ) (s : S) → m ≡ n → sink.Room m s → sink.Room n s
  room m n s e v = subst (λ k. sink.Room k s) e v

  -- Two calls, the second on what the first leaves.
  pub Adds->> :
      (f g : Action S (Unit {0})) (xs ys : Bytes) (n : ℕ) (s : S)
      → Adds (f s) xs (length ys + n) s
      → ((s' : S) → sink.Room (length ys + n) s' → Adds (g s') ys n s')
      → Adds ((f >> g) s) (xs ++ ys) n s
  Adds->> f g xs ys n s (s1, e1, v1, w1) next =
      let (s2, e2, v2, w2) = next s1 v1 in
      (s2, rw (e1, e2) refl, v2, rw (w2, w1) (append_assoc (sink.written s) xs ys))

  pub pad_to_lem :
      (k pad n : ℕ) (s : S) → sink.Room (k + n) s → Adds (pad_to w k pad s) (replicate k pad) n s
  unfolding pad_to
  pad_to_lem zero pad n s v =
      (s, refl, room _ _ s (omega arith) v, sym (append-nil (sink.written s)))
  pad_to_lem (suc k) pad n s v =
      Adds->> (λ s. w.basic_write (pad ∷ []) s) (pad_to w k pad) (pad ∷ []) (replicate k pad) n s
        (sink.writes (pad ∷ []) (length (replicate k pad) + n) s
          (room _ _ s (omega (arith, length-replicate k pad)) v))
        (λ s' v'. pad_to_lem k pad n s' (room _ _ s' (omega (arith, length-replicate k pad)) v'))

  -- A field of the given size, whatever the length of the text.
  pub write_fixed_lem :
      (bs : Bytes) (size pad n : ℕ) (s : S)
      → sink.Room (size + n) s
      → Adds (write_fixed w bs size pad s) (take size bs ++ replicate (size - length bs) pad) n s
  unfolding write_fixed
  write_fixed_lem bs size pad n s v =
      let len = min size (length bs) in
      let pads = length-replicate (size - length bs) pad in
      let lt = length-take len bs in
      let tk : take len bs ≡ take size bs = take-min size bs in
      let k : size - len ≡ size - length bs = omega arith in
      rw (tk, k)
        (Adds->> (λ s. w.basic_write (take size bs) s) (pad_to w (size - length bs) pad)
          (take size bs) (replicate (size - length bs) pad) n s
          (sink.writes (take size bs) (length (replicate (size - length bs) pad) + n) s
            (room _ _ s (omega (arith, length-take size bs)) v))
          (λ s' v'. pad_to_lem (size - length bs) pad n s' (room _ _ s' (omega arith) v')))

  -- Writer::skip in pieces of 256 bytes.
  pub skip_loop_lem :
      (fuel k n : ℕ) (s : S)
      → k ≤ fuel
      → sink.Room (k + n) s
      → Adds (skip_loop w fuel k s) (replicate k 0) n s
  unfolding skip_loop
  skip_loop_lem zero k n s h v =
      let z : k ≡ 0 = omega arith in
      (s, refl, room _ _ s (omega arith) v, rw z (sym (append-nil (sink.written s))))
  skip_loop_lem (suc fuel) k n s h v = elim (Bool-cases (ltb 0 k)) [
    | inl t ↦
        (let i = min k 256 in
          let c : i + (k - i) ≡ k = ground arith in
          let e : replicate i 0 ++ replicate (k - i) 0 ≡ replicate k 0 =
            replicate-add i (k - i) 0 ∙ ap (λ m. replicate m 0) c in
          rw (t, ← e)
            (Adds->> (λ s. w.basic_write (replicate i 0) s) (skip_loop w fuel (k - i))
              (replicate i 0) (replicate (k - i) 0) n s
              (sink.writes (replicate i 0) (length (replicate (k - i) 0) + n) s
                (room _ _ s (omega (arith, zeros i, zeros (k - i))) v))
              (λ s' v'.
                skip_loop_lem fuel (k - i) n s' (ground arith)
                  (room _ _ s' (omega (arith, zeros (k - i))) v'))))
    | inr f ↦
        (let z : k ≡ 0 = ground arith in
          (s, rw f refl, room _ _ s (omega arith) v, rw z (sym (append-nil (sink.written s)))))
  ]

abbrev pub StringRoom : ℕ → StringWriter → Type 0
StringRoom n s = s.offset + n < 2 ^ 64

unfoldable pub string_sink : Sink string_writer
unfolding string_writer string_basic_write
string_sink = record {
  Room = StringRoom;
  written = λ s. s.content;
  writes = λ bs n s h. (
    record { content = s.content ++ bs; offset = s.offset + length bs },
    rw (add64_fits s.offset (length bs) (omega arith)) refl,
    omega arith,
    refl,
  );
}

-- The pointer stands where the offset says, and the block is as long as the object takes it to be.
abbrev pub BlockRoom : ℕ → BlockWriter → Type 0
BlockRoom n s =
    (s.at ≡ s.offset)
    × (s.offset + n ≤ s.length)
    × (s.length ≡ length s.block)
    × (s.length < 2 ^ 64)

pub length-store :
    (at : ℕ) (bs block : Bytes)
    → at + length bs ≤ length block
    → length (store at bs block) ≡ length block
unfolding store
length-store at bs block h = omega (
  arith,
  length-append (take at block) (bs ++ drop (at + length bs) block),
  length-append bs (drop (at + length bs) block),
  length-take at block,
  length-drop (at + length bs) block,
)

pub store-take :
    (at : ℕ) (bs block : Bytes)
    → at + length bs ≤ length block
    → take (at + length bs) (store at bs block) ≡ take at block ++ bs
unfolding store
store-take at bs block h = rw (← append_assoc (take at block) bs (drop (at + length bs) block)) (
    take-append (take at block ++ bs) (drop (at + length bs) block) (at + length bs)
      (omega (arith, length-append (take at block) bs, length-take at block)))

pub block_sink : Sink block_writer
unfolding block_writer block_basic_write
block_sink = record {
  Room = BlockRoom;
  written = λ s. take s.at s.block;
  writes = λ bs n s h. (
    record s {
      block = store s.at bs s.block;
      at = s.at + length bs;
      offset = s.offset + length bs;
    },
    rw
        (
          sub64_fits s.length s.offset (omega arith) h.3,
          leb-true (length bs) (s.length - s.offset) (omega arith),
          add64_fits s.at (length bs) (omega (arith, h.0)),
          add64_fits s.offset (length bs) (omega arith),
        )
        refl,
    (
      omega (arith, h.0),
      omega arith,
      h.2 ∙ sym (length-store s.at bs s.block (omega (arith, h.0, h.2))),
      h.3,
    ),
    store-take s.at bs s.block (omega (arith, h.0, h.2)),
  );
}
