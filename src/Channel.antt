-- ===== src/Channel.antt =====
-- What the readers and writers of libs/chan have in common: libs/chan/ot-chan.h.
-- A call takes the object's state and returns or throws, with the state that it leaves.
pub mod Reading
pub mod Writing
pub mod Memory
pub mod Limited
pub mod BitStream
pub mod Supply
pub mod ToEnd
pub mod Streams
pub mod Sources
pub mod Sinks
pub mod Fields
pub mod RoundTrip
pub mod Alignment
pub mod Limits
pub mod Blocks
pub mod Texts
pub mod Settling
mod Examples
use obtools.Common.{ℕ, List, Option, none, some}

abbrev pub Bytes : Type 0
Bytes = List ℕ

-- The exceptions, by their messages: those of libs/chan, then those that libs/json throws as such.
pub data Error : Type 0 where
  eof : Error
  eof_in_string : Error
  skip_beyond_end : Error
  rewound_too_far : Error
  block_overflowed : Error
  block_overflowed_in_skip : Error
  unknown_additional_information : ℕ → Error
  unhandled_simple_type : ℕ → Error
  bad_object_key : Error
  unhandled_tag_type : ℕ → Error

pub data Outcome (S A : Type 0) : Type 0 where
  returned : A → S → Outcome S A
  thrown : Error → S → Outcome S A

abbrev pub Action : Type 0 → Type 0 → Type 0
Action S A = S → Outcome S A

abbrev pub after : {S A B : Type 0} → Outcome S A → (A → Action S B) → Outcome S B
after (returned a s) f = f a s
after (thrown e s) f = thrown e s

infixl 5 ◌>>=◌ ◌>>◌
abbrev pub ◌>>=◌ : {S A B : Type 0} → Action S A → (A → Action S B) → Action S B
◌>>=◌ m f s = after (m s) f

abbrev pub ◌>>◌ : {S A B : Type 0} → Action S A → Action S B → Action S B
m >> k = m >>= λ _. k

abbrev pub return : {S A : Type 0} → A → Action S A
return a s = returned a s

abbrev pub throw : {S A : Type 0} → Error → Action S A
throw e s = thrown e s

-- The virtual functions of a reader that its other functions call. A read hands over the bytes
-- that the source puts into the buffer; `none` is a try that answers false.
pub record Reader (S : Type 0) : Type 0 where
  pub basic_read : ℕ → Action S Bytes
  pub try_read : ℕ → Action S (Option Bytes)
  pub try_read_string : ℕ → Action S (Option Bytes)
  pub skip : ℕ → Action S (Unit {0})
  pub offset : S → ℕ

pub record Writer (S : Type 0) : Type 0 where
  pub basic_write : Bytes → Action S (Unit {0})
  pub skip : ℕ → Action S (Unit {0})
  pub offset : S → ℕ
