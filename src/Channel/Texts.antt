-- ===== src/Channel/Texts.antt =====
-- The contract of the reads into a string, libs/chan/reader.cc, beside that of the other reads.
use obtools.Common.{
  ℕ, zero, suc, ◌≤◌, ◌<◌, ◌≡◌, refl, ap, ◌∙◌, ◌⊎◌, inl, inr, [], ◌++◌, none, some, length,
  length-append, take, drop, take-append, drop-append, ltb, ltb→lt, Bool-cases, arith,
}
use obtools.Channel.{Bytes, eof_in_string, Action, returned, thrown, Reader}
use obtools.Channel.Memory.{string_reader, block_reader}
use obtools.Channel.Reading.{within_buffer, base_try_read_string, read_string}
use obtools.Channel.Supply.{Supply, Hands, empty, try_loop-short, try_loop-none}
use obtools.Channel.Streams.{Stream, base_try_read_string-exact}
use obtools.Channel.Sources.{string_supply, string_stream, block_supply, block_stream}
use obtools.Channel.Fields.{Takes}

pub record Texts {S : Type 0} {r : Reader S} (stream : Stream r) : Type 1 where
  pub text_exact :
      (count : ℕ) (s : S)
      → stream.supply.Valid s
      → count ≤ length (stream.supply.rest s)
      → Hands stream.supply
          (r.try_read_string count s)
          (some (take count (stream.supply.rest s)))
          s
          count
  pub text_short :
      (count : ℕ) (s : S)
      → stream.supply.Valid s
      → length (stream.supply.rest s) < count
      → (s' : S) × ((r.try_read_string count s ≡ thrown eof_in_string s')
          ⊎ (r.try_read_string count s ≡ returned none s'))
        × stream.supply.Valid s'
        × (stream.supply.rest s' ≡ [])

module _ {S : Type 0} {basic_read : ℕ → Action S Bytes} (supply : Supply basic_read) where
  asks_buffer : (n : ℕ) → 0 < n → (0 < within_buffer n) × (within_buffer n ≤ n)
  asks_buffer n h = (omega arith, omega arith)

  pub base_try_read_string-short :
      (count : ℕ) (s : S)
      → supply.Valid s
      → length (supply.rest s) < count
      → (s' : S) × ((base_try_read_string basic_read count s ≡ thrown eof_in_string s')
          ⊎ (base_try_read_string basic_read count s ≡ returned none s'))
        × supply.Valid s'
        × (supply.rest s' ≡ [])
  unfolding base_try_read_string
  base_try_read_string-short zero s v h = absurd (omega arith)
  base_try_read_string-short (suc count) s v h =
      elim (Bool-cases (ltb 0 (length (supply.rest s)))) [
        | inl p ↦
            (let (s1, e1, v1, r1) =
                try_loop-short supply within_buffer eof_in_string asks_buffer (suc count)
                  (suc count) 0 [] s v (omega arith) (omega arith) (omega (arith, ltb→lt 0 _ p)) in
              (s1, inl e1, v1, r1))
        | inr p ↦
            (let (s1, e1, v1, r1) =
                try_loop-none supply within_buffer eof_in_string asks_buffer count (suc count) [] s
                  v (omega arith) (empty (supply.rest s) (ground arith)) in
              (s1, inr e1, v1, r1))
      ]

unfoldable pub string_texts : Texts string_stream
unfolding string_stream string_reader
string_texts = record {
  text_exact = base_try_read_string-exact string_supply;
  text_short = base_try_read_string-short string_supply;
}

unfoldable pub block_texts : Texts block_stream
unfolding block_stream block_reader
block_texts = record {
  text_exact = base_try_read_string-exact block_supply;
  text_short = base_try_read_string-short block_supply;
}

module _ {S : Type 0} {r : Reader S} {stream : Stream r} (texts : Texts stream) where
  pub read_string_lem :
      (text tl : Bytes) (s : S)
      → stream.supply.Valid s
      → stream.supply.rest s ≡ text ++ tl
      → Takes stream (read_string r (length text) s) text tl
  unfolding read_string
  read_string_lem text tl s v e =
      let (s1, e1, v1, r1) =
        texts.text_exact (length text) s v (omega (arith, ap length e, length-append text tl)) in
      (
        s1,
        rw (e1, ap (take (length text)) e ∙ take-append text tl (length text) refl) refl,
        v1,
        r1 ∙ ap (drop (length text)) e ∙ drop-append text tl (length text) refl,
      )
