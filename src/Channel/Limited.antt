-- ===== src/Channel/Limited.antt =====
-- A reader that limits another reader: LimitedReader of libs/chan/ot-chan.h.
use obtools.Common.{ℕ, Option, none, min, length, if◌then◌else◌, ltb, add64, sub64, ◌==◌}
use obtools.Channel.{Bytes, Action, Outcome, returned, thrown, Reader}
use obtools.Channel.Reading.{
  base_try_read, base_try_read_string, base_skip, read_to_eof_limit, try_read_nbo_32, try_read_byte,
}

pub record LimitedReader (S : Type 0) : Type 0 where
  pub reader : S
  pub left : ℕ
  pub offset : ℕ

module _ {S : Type 0} (r : Reader S) where
  -- What the object keeps of a call on the reader below it.
  abbrev pub limited_by : LimitedReader S → Outcome S Bytes → Outcome (LimitedReader S) Bytes
  limited_by l (returned bs s) =
      returned bs (record {
        reader = s;
        left = sub64 l.left (length bs);
        offset = add64 l.offset (length bs);
      })
  limited_by l (thrown e s) = thrown e (record l { reader = s })

  unfoldable pub limited_basic_read : ℕ → Action (LimitedReader S) Bytes
  limited_basic_read count l =
      limited_by l (r.basic_read (if ltb l.left count then l.left else count) l.reader)

  -- An override that answers false where nothing is left.
  abbrev pub unless_finished :
      {A : Type 0} → Action (LimitedReader S) (Option A) → Action (LimitedReader S) (Option A)
  unless_finished act l = if l.left == 0 then returned none l else act l

  unfoldable pub limited_try_read : ℕ → Action (LimitedReader S) (Option Bytes)
  limited_try_read count = unless_finished (base_try_read limited_basic_read count)

  unfoldable pub limited_try_read_string : ℕ → Action (LimitedReader S) (Option Bytes)
  limited_try_read_string count = unless_finished (base_try_read_string limited_basic_read count)

  unfoldable pub limited_reader : Reader (LimitedReader S)
  limited_reader = record {
    basic_read = limited_basic_read;
    try_read = limited_try_read;
    try_read_string = limited_try_read_string;
    skip = base_skip limited_try_read;
    offset = λ l. l.offset;
  }

  unfoldable pub limited_read_to_eof_limit : ℕ → Bytes → Action (LimitedReader S) Bytes
  limited_read_to_eof_limit limit buffer l =
      read_to_eof_limit limited_basic_read (min l.left limit) buffer l

  unfoldable pub limited_read_to_eof : Bytes → Action (LimitedReader S) Bytes
  limited_read_to_eof buffer l = read_to_eof_limit limited_basic_read l.left buffer l

  unfoldable pub limited_try_read_nbo_32 : Action (LimitedReader S) (Option ℕ)
  limited_try_read_nbo_32 = unless_finished (try_read_nbo_32 limited_reader)

  unfoldable pub limited_try_read_byte : Action (LimitedReader S) (Option ℕ)
  limited_try_read_byte = unless_finished (try_read_byte limited_reader)

  abbrev pub skipped_by :
      LimitedReader S → Outcome S (Unit {0}) → Outcome (LimitedReader S) (Unit {0})
  skipped_by l (returned u s) = returned tt (record l { reader = s })
  skipped_by l (thrown e s) = thrown e (record l { reader = s })

  -- Neither what is left nor the offset changes.
  unfoldable pub limited_skip_to_eof : Action (LimitedReader S) (Unit {0})
  limited_skip_to_eof l =
      if l.left == 0 then returned tt l else skipped_by l (r.skip l.left l.reader)
