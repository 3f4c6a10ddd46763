-- ===== src/Channel/Blocks.antt =====
-- Writers on memory at their limits: libs/chan/block-chan.cc and string-chan.cc.
use obtools.Common.{
  ℕ, ◌+◌, ◌-◌, ◌%◌, ◌^◌, ◌≤◌, ◌<◌, ◌≡◌, refl, sym, ap, ◌∙◌, ◌⊎◌, inl, inr, ◌++◌, append_assoc,
  length, length-append, length-take, take, drop, drop-append, leb, ltb, Bool-cases, arith, add64,
  sub64, add64_fits, sub64_fits, false,
}
use obtools.Channel.{Bytes, returned, thrown, block_overflowed}
use obtools.Channel.Memory.{BlockWriter, store, block_basic_write, StringReader, string_skip}
use obtools.Channel.Sinks.{BlockRoom, length-store, store-take}

ltb-false : (a b : ℕ) → b ≤ a → ltb a b ≡ false
ltb-false a b h = ground arith

store-drop :
    (at : ℕ) (bs block : Bytes)
    → at + length bs ≤ length block
    → drop (at + length bs) (store at bs block) ≡ drop (at + length bs) block
unfolding store
store-drop at bs block h =
    ap (drop (at + length bs)) (sym (append_assoc (take at block) bs (drop (at + length bs) block)))
    ∙ drop-append (take at block ++ bs) (drop (at + length bs) block) (at + length bs)
        (omega (arith, length-append (take at block) bs, length-take at block))

-- A write to a block throws and leaves the block as it is where the bytes would pass its end. Else
-- it puts the bytes at the pointer, moves the pointer behind them, and changes nothing before or
-- after them.
pub block_write_bounds :
    (bs : Bytes) (s : BlockWriter)
    → BlockRoom 0 s
    → ((block_basic_write bs s ≡ thrown block_overflowed s) × (s.length < s.offset + length bs))
      ⊎ ((s' : BlockWriter) × (block_basic_write bs s ≡ returned tt s')
          × BlockRoom 0 s'
          × (s'.at ≡ s.at + length bs)
          × (take s'.at s'.block ≡ take s.at s.block ++ bs)
          × (drop s'.at s'.block ≡ drop s'.at s.block))
unfolding block_basic_write
block_write_bounds bs s v =
    let room : sub64 s.length s.offset ≡ s.length - s.offset =
      sub64_fits s.length s.offset (omega arith) v.3 in
    elim (Bool-cases (leb (length bs) (s.length - s.offset))) [
      | inr f ↦ inl (rw (room, f) refl, ground arith)
      | inl t ↦
          (let fits : s.offset + length bs ≤ s.length = ground arith in
            let within : s.at + length bs ≤ length s.block = omega (arith, v.0, v.2) in
            inr (
              record s {
                block = store s.at bs s.block;
                at = s.at + length bs;
                offset = s.offset + length bs;
              },
              rw
                  (
                    room,
                    t,
                    add64_fits s.at (length bs) (omega (arith, v.0)),
                    add64_fits s.offset (length bs) (omega arith),
                  )
                  refl,
              (
                omega (arith, v.0),
                omega arith,
                v.2 ∙ sym (length-store s.at bs s.block within),
                v.3,
              ),
              refl,
              store-take s.at bs s.block within,
              store-drop s.at bs s.block within,
            ))
    ]

-- Skipping forward by `2 ^ 64 - k` on a string passes the test of the end and goes `k` bytes back.
pub skip_back :
    (k : ℕ) (s : StringReader)
    → 0 < k
    → k ≤ s.offset
    → s.offset ≤ length s.content
    → length s.content < 2 ^ 64
    → string_skip (2 ^ 64 - k) s ≡ returned tt (record s { offset = s.offset - k })
unfolding string_skip add64
skip_back k s pos h le fits =
    let back : (s.offset + (2 ^ 64 - k)) % 2 ^ 64 ≡ s.offset - k = omega arith in
    rw (back, ltb-false (length s.content) (s.offset - k) (omega arith)) refl
