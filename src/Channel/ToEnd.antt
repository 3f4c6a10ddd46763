-- ===== src/Channel/ToEnd.antt =====
-- read_to_eof of libs/chan/reader.cc with a limit.
use obtools.Common.{
  ℕ, zero, suc, ◌+◌, ◌-◌, ◌≤◌, ◌<◌, ◌≡◌, refl, sym, ap, ◌∙◌, inl, inr, ◌++◌, append-nil,
  append_assoc, true, min, length, length-append, take, drop, ltb, ltb→lt, Bool-cases, arith,
}
use obtools.Channel.{Bytes, Action, returned}
use obtools.Channel.Reading.{buffer_size, read_to_eof_loop, read_to_eof_limit}
use obtools.Channel.Supply.{
  Supply, Hands, on_data-some, on_data-none, take-nil, drop-nil, empty, take-append_over,
  drop-append_over,
}

module _ {S : Type 0} {basic_read : ℕ → Action S Bytes} (supply : Supply basic_read) where
  read_loop-more :
      (fuel limit finished : ℕ) (buffer got : Bytes) (s s1 : S)
      → ltb finished limit ≡ true
      → basic_read (min buffer_size (limit - finished)) s ≡ returned got s1
      → supply.rest s ≡ got ++ supply.rest s1
      → 0 < length got
      → length got ≤ limit - finished
      → Hands supply
          (read_to_eof_loop basic_read fuel limit (finished + length got) (buffer ++ got) s1)
          (buffer ++ got ++ take (limit - (finished + length got)) (supply.rest s1))
          s1
          (limit - (finished + length got))
      → Hands supply
          (read_to_eof_loop basic_read (suc fuel) limit finished buffer s)
          (buffer ++ take (limit - finished) (supply.rest s))
          s
          (limit - finished)
  unfolding read_to_eof_loop
  read_loop-more fuel limit finished buffer got s s1 t er e1 pos le (s2, e2, v2, r2) = (
    s2,
    rw (t, er, on_data-some got _ _ pos, e2, e1, tk, sym k, append_assoc) refl,
    v2,
    rw (e1, dr, sym k) r2,
  )
    where
      k : limit - (finished + length got) ≡ limit - finished - length got
      k = omega arith

      tk :
          take (limit - finished) (got ++ supply.rest s1)
          ≡ got ++ take (limit - finished - length got) (supply.rest s1)
      tk = take-append_over got (supply.rest s1) (limit - finished) le

      dr :
          drop (limit - finished) (got ++ supply.rest s1)
          ≡ drop (limit - finished - length got) (supply.rest s1)
      dr = drop-append_over got (supply.rest s1) (limit - finished) le

  -- Up to the limit, or to the end.
  pub read_to_eof_loop_lem :
      (fuel limit finished : ℕ) (buffer : Bytes) (s : S)
      → supply.Valid s
      → limit - finished ≤ fuel
      → Hands supply
          (read_to_eof_loop basic_read fuel limit finished buffer s)
          (buffer ++ take (limit - finished) (supply.rest s))
          s
          (limit - finished)
  unfolding read_to_eof_loop
  read_to_eof_loop_lem zero limit finished buffer s v hf =
      let k0 : limit - finished ≡ 0 = omega arith in (s, rw (k0, append-nil) refl, v, rw k0 refl)
  read_to_eof_loop_lem (suc fuel) limit finished buffer s v hf =
      elim (Bool-cases (ltb finished limit)) [
        | inr f ↦
            (let k0 : limit - finished ≡ 0 = ground arith in
              (s, rw (f, k0, append-nil) refl, v, rw k0 refl))
        | inl t ↦
            (let lt = ltb→lt finished limit t in
              let (got, s1, er, v1, e1, le, nz) =
                supply.reads (min buffer_size (limit - finished)) s v in
              let len : length (supply.rest s) ≡ length got + length (supply.rest s1) =
                ap length e1 ∙ length-append got (supply.rest s1) in
              elim (Bool-cases (ltb 0 (length got))) [
                | inl p ↦
                    (let p' = ltb→lt 0 (length got) p in
                      read_loop-more fuel limit finished buffer got s s1 t er e1 p' (omega arith) (
                        read_to_eof_loop_lem fuel limit (finished + length got) (buffer ++ got) s1
                          v1 (omega arith)))
                | inr p ↦
                    (let z : length got ≡ 0 = ground arith in
                      let l0 : length (supply.rest s) ≡ 0 = ground arith in
                      (
                        s1,
                        rw
                            (
                              t,
                              er,
                              on_data-none got _ _ z,
                              take-nil _ _ l0,
                              empty (supply.rest s) l0,
                              append-nil,
                            )
                            refl,
                        v1,
                        rw (drop-nil (limit - finished) _ l0)
                            (empty (supply.rest s1) (omega arith)),
                      ))
              ])
      ]

  -- read_to_eof adds to the buffer the bytes that are left, up to the limit, in whatever pieces the
  -- source hands them over, and leaves the bytes after them.
  pub read_to_eof_limit_lem :
      (limit : ℕ) (buffer : Bytes) (s : S)
      → supply.Valid s
      → Hands supply
          (read_to_eof_limit basic_read limit buffer s)
          (buffer ++ take limit (supply.rest s))
          s
          limit
  unfolding read_to_eof_limit
  read_to_eof_limit_lem limit buffer s v =
      let k : limit - 0 ≡ limit = omega arith in
      rw k at (read_to_eof_loop_lem limit limit 0 buffer s v (omega arith))
