-- ===== src/Channel/RoundTrip.antt =====
-- A row of integers through a writer and a reader: libs/chan/writer.cc and reader.cc together.
use obtools.Common.{
  ℕ, ◌+◌, ◌<◌, ◌≡◌, refl, sym, subst, ◌∙◌, List, [], ◌∷◌, ◌++◌, append_assoc, append-nil, length,
  length-append, All, arith,
}
use obtools.Channel.{Bytes, Action, returned, ◌>>=◌, ◌>>◌, return, Reader, Writer}
use obtools.Channel.Streams.{Stream}
use obtools.Channel.Sinks.{Sink, Adds, Adds->>}
use obtools.Channel.Fields.{
  Field, below, encode, write_field, read_field, Takes, read_field_lem, write_field_lem,
}

abbrev pub encode_all : List (Field × ℕ) → Bytes
encode_all [] = []
encode_all ((f, i) ∷ fs) = encode f i ++ encode_all fs

abbrev pub Fitting : Field × ℕ → Type 0
Fitting (f, i) = i < below f

abbrev pub write_all : {S : Type 0} → Writer S → List (Field × ℕ) → Action S (Unit {0})
write_all w [] = return tt
write_all w ((f, i) ∷ fs) = write_field w f i >> write_all w fs

abbrev pub read_all : {S : Type 0} → Reader S → List (Field × ℕ) → Action S (List ℕ)
read_all r [] = return []
read_all r ((f, i) ∷ fs) = do n ← read_field r f; ns ← read_all r fs; return (n ∷ ns)

abbrev pub values : List (Field × ℕ) → List ℕ
values [] = []
values ((f, i) ∷ fs) = i ∷ values fs

module _ {S : Type 0} {w : Writer S} (sink : Sink w) where
  write_all_lem :
      (fs : List (Field × ℕ)) (n : ℕ) (s : S)
      → All Fitting fs
      → sink.Room (length (encode_all fs) + n) s
      → Adds sink (write_all w fs s) (encode_all fs) n s
  write_all_lem [] n s fit v =
      (s, refl, subst (λ k. sink.Room k s) (omega arith) v, sym (append-nil (sink.written s)))
  write_all_lem ((f, i) ∷ fs) n s fit v =
      Adds->> sink (write_field w f i) (write_all w fs) (encode f i) (encode_all fs) n s
        (write_field_lem sink f i (length (encode_all fs) + n) s fit.0 (
          subst (λ k. sink.Room k s) (omega (arith, length-append (encode f i) (encode_all fs))) v))
        (λ s' v'. write_all_lem fs n s' fit.1 v')

module _ {S : Type 0} {r : Reader S} (stream : Stream r) where
  read_all_lem :
      (fs : List (Field × ℕ)) (tl : Bytes) (s : S)
      → All Fitting fs
      → stream.supply.Valid s
      → stream.supply.rest s ≡ encode_all fs ++ tl
      → Takes stream (read_all r fs s) (values fs) tl
  read_all_lem [] tl s fit v e = (s, refl, v, e)
  read_all_lem ((f, i) ∷ fs) tl s fit v e =
      let (s1, e1, v1, r1) =
        read_field_lem stream f i (encode_all fs ++ tl) s fit.0 v
          (e ∙ append_assoc (encode f i) (encode_all fs) tl) in
      let (s2, e2, v2, r2) = read_all_lem fs tl s1 fit.1 v1 r1 in (s2, rw (e1, e2) refl, v2, r2)

-- A writer with enough room takes a row of integers that fit their widths, of every width and byte
-- order that the classes have, and any reader whose remaining bytes are those that were written,
-- and more after them, reads the same integers and leaves the rest.
pub write_all-read_all :
    {S T : Type 0} {w : Writer S} {r : Reader T} (sink : Sink w) (stream : Stream r)
    (fs : List (Field × ℕ)) (tl : Bytes) (s : S) (t : T)
    → All Fitting fs
    → sink.Room (length (encode_all fs)) s
    → stream.supply.Valid t
    → stream.supply.rest t ≡ encode_all fs ++ tl
    → (s' : S) × (t' : T) × (write_all w fs s ≡ returned tt s')
      × (sink.written s' ≡ sink.written s ++ encode_all fs)
      × (read_all r fs t ≡ returned (values fs) t')
      × (stream.supply.rest t' ≡ tl)
write_all-read_all {r} sink stream fs tl s t fit room v e =
    let (s1, e1, v1, w1) =
      write_all_lem sink fs 0 s fit (subst (λ k. sink.Room k s) (omega arith) room) in
    let (t1, f1, v2, r1) = read_all_lem stream fs tl t fit v e in (s1, t1, e1, w1, f1, r1)
