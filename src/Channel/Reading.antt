-- ===== src/Channel/Reading.antt =====
-- The generic reader: libs/chan/reader.cc.
use obtools.Common.{
  ℕ, zero, suc, ◌+◌, ◌-◌, ◌*◌, ◌/◌, ◌%◌, ◌^◌, [], ◌∷◌, ◌++◌, Option, none, some, Bool, true, false,
  min, length, get_or, ltb, ◌==◌, if◌then◌else◌, add64, sub64,
}
use obtools.Channel.{Bytes, Error, eof, eof_in_string, Action, ◌>>=◌, ◌>>◌, return, throw, Reader}

abbrev pub buffer_size : ℕ
buffer_size = 1024

-- What follows a read: the case of no bytes, or of some.
abbrev pub on_data : {B : Type 0} → Bytes → B → B → B
on_data [] e k = e
on_data (b ∷ bs) e k = k

abbrev pub or_throw : {S : Type 0} → Error → Option Bytes → Action S Bytes
or_throw e none = throw e
or_throw e (some bs) = return bs

-- How much of what is wanted one read asks for.
abbrev pub all_wanted : ℕ → ℕ
all_wanted n = n

abbrev pub within_buffer : ℕ → ℕ
within_buffer n = min buffer_size n

module _ {S : Type 0} (basic_read : ℕ → Action S Bytes) where
  -- Each turn reads a byte at least, so `count` turns are enough.
  unfoldable pub try_loop : (ℕ → ℕ) → Error → ℕ → ℕ → ℕ → Bytes → Action S (Option Bytes)
  try_loop ask e zero count finished bs = return (some bs)
  try_loop ask e (suc fuel) count finished bs =
      if ltb finished count
      then (do
        more ← basic_read (ask (count - finished))
        on_data more (if ltb 0 finished then throw e else return none)
            (try_loop ask e fuel count (finished + length more) (bs ++ more)))
      else return (some bs)

  unfoldable pub base_try_read : ℕ → Action S (Option Bytes)
  base_try_read count = try_loop all_wanted eof count count 0 []

  unfoldable pub base_try_read_string : ℕ → Action S (Option Bytes)
  base_try_read_string count = try_loop within_buffer eof_in_string count count 0 []

  -- Up to `limit` bytes, added to what the buffer holds.
  unfoldable pub read_to_eof_loop : ℕ → ℕ → ℕ → Bytes → Action S Bytes
  read_to_eof_loop zero limit finished buffer = return buffer
  read_to_eof_loop (suc fuel) limit finished buffer =
      if ltb finished limit
      then (do
        more ← basic_read (min buffer_size (limit - finished))
        on_data more (return buffer)
            (read_to_eof_loop fuel limit (finished + length more) (buffer ++ more)))
      else return buffer

  unfoldable pub read_to_eof_limit : ℕ → Bytes → Action S Bytes
  read_to_eof_limit limit buffer = read_to_eof_loop limit limit 0 buffer

  -- The form without a limit ends at the first read that is not a full buffer. `none` is a run
  -- that is not over after `fuel` turns.
  unfoldable pub read_to_eof : ℕ → Bytes → Action S (Option Bytes)
  read_to_eof zero buffer = return none
  read_to_eof (suc fuel) buffer = do
    more ← basic_read buffer_size
    if length more == buffer_size
        then read_to_eof fuel (buffer ++ more)
        else return (some (buffer ++ more))

-- A number from bytes, the first byte first or last.
abbrev pub from_nbo : Bytes → ℕ → ℕ
from_nbo [] n = n
from_nbo (b ∷ bs) n = from_nbo bs (n * 256 + b)

abbrev pub le_32 : Bytes → ℕ
le_32 bs =
    (get_or bs 0 0 + get_or bs 1 0 * 2 ^ 8 + get_or bs 2 0 * 2 ^ 16 + get_or bs 3 0 * 2 ^ 24)
    % 2 ^ 32

abbrev pub tried : (Bytes → ℕ) → Option Bytes → Option ℕ
tried f none = none
tried f (some bs) = some (f bs)

-- Reader::skip, where a subclass does not override it.
unfoldable pub base_skip : {S : Type 0} → (ℕ → Action S (Option Bytes)) → ℕ → Action S (Unit {0})
base_skip try_read n = do got ← try_read n; or_throw eof got; return tt

module _ {S : Type 0} (r : Reader S) where
  unfoldable pub read : ℕ → Action S Bytes
  read count = r.try_read count >>= or_throw eof

  unfoldable pub read_string : ℕ → Action S Bytes
  read_string count = r.try_read_string count >>= or_throw eof_in_string

  unfoldable pub try_read_byte : Action S (Option ℕ)
  try_read_byte = do got ← r.try_read 1; return (tried (λ bs. get_or bs 0 0) got)

  unfoldable pub read_byte : Action S ℕ
  read_byte = do bs ← read 1; return (get_or bs 0 0)

  unfoldable pub read_nbo_16 : Action S ℕ
  read_nbo_16 = do bs ← read 2; return (from_nbo bs 0)

  unfoldable pub read_nbo_24 : Action S ℕ
  read_nbo_24 = do
    bs ← read 3
    return ((get_or bs 0 0 * 2 ^ 16 + get_or bs 1 0 * 2 ^ 8 + get_or bs 2 0) % 2 ^ 32)

  unfoldable pub read_nbo_32 : Action S ℕ
  read_nbo_32 = do bs ← read 4; return (from_nbo bs 0)

  -- Also the form of read_nbo_32 that answers false at the end.
  unfoldable pub try_read_nbo_32 : Action S (Option ℕ)
  try_read_nbo_32 = do got ← r.try_read 4; return (tried (λ bs. from_nbo bs 0) got)

  unfoldable pub read_nbo_64 : Action S ℕ
  read_nbo_64 = do n ← read_nbo_32; low ← read_nbo_32; return (add64 (n * 2 ^ 32 % 2 ^ 64) low)

  unfoldable pub read_le_16 : Action S ℕ
  read_le_16 = do bs ← read 2; return ((get_or bs 0 0 + get_or bs 1 0 * 2 ^ 8) % 2 ^ 16)

  unfoldable pub read_le_24 : Action S ℕ
  read_le_24 = do
    bs ← read 3
    return ((get_or bs 0 0 + get_or bs 1 0 * 2 ^ 8 + get_or bs 2 0 * 2 ^ 16) % 2 ^ 32)

  unfoldable pub read_le_32 : Action S ℕ
  read_le_32 = do bs ← read 4; return (le_32 bs)

  unfoldable pub try_read_le_32 : Action S (Option ℕ)
  try_read_le_32 = do got ← r.try_read 4; return (tried le_32 got)

  unfoldable pub read_le_64 : Action S ℕ
  read_le_64 = do n ← read_le_32; high ← read_le_32; return (add64 n (high * 2 ^ 32 % 2 ^ 64))

  -- `false` is a run that is not over after `fuel` turns.
  unfoldable pub skip_to_eof : ℕ → Action S Bool
  skip_to_eof zero = return false
  skip_to_eof (suc fuel) = do got ← r.try_read buffer_size; skipped got (skip_to_eof fuel)
    where
      skipped : Option Bytes → Action S Bool → Action S Bool
      skipped none rest = return true
      skipped (some bs) rest = rest

  -- The bytes from an offset to the next multiple of `n`.
  unfoldable pub align : ℕ → Action S (Unit {0})
  align n s = r.skip (sub64 (n * (sub64 (add64 (r.offset s) n) 1 / n) % 2 ^ 64) (r.offset s)) s
