-- ===== src/Lib.antt =====
-- Verification of parts of ObTools, a set of C++ libraries.
--
-- The program's parts that are modelled, and the files that model them:
--
-- - Ring, Ring/Threads: the ring buffer between one putting and one getting thread,
--   libs/ring/ot-ring.h (Buffer, put, get, flush_from_put, flush_from_get, size, used). Ring.antt
--   has the calls one after the other, Ring/Threads.antt has them at the grain of single accesses to
--   the shared indices and items, in any interleaving. Ring/Queue.antt states the bounded queue that
--   the buffer implements.
-- - RangeSet, RangeSet/Removal: the sets of ranges of 64-bit offsets of libs/misc/ot-misc.h (Range,
--   insert, set_union, remove, difference, intersection, inverse, contains, coverage, is_complete).
--   RangeSet.antt has the insertion and the questions, RangeSet/Removal.antt the removal. A list
--   iterator is the pair of the ranges before it and those from it on. The view of a set is the
--   predicate of the offsets that it covers (RangeSet/Order.antt).
-- - Cache: the cache with its tidy and eviction policies, libs/cache/ot-cache.h (add, lookup, touch,
--   evict, tidy, remove, set_limit and their kin). The map is a list in ascending order of keys; the
--   policies, the clock and the hook of subclasses are parameters.
-- - Channel: the readers and writers of libs/chan. Channel.antt has the calls' outcomes and the
--   virtual functions as the records Reader and Writer; Channel/Reading.antt is reader.cc,
--   Channel/Writing.antt is writer.cc, Channel/Memory.antt is string-chan.cc and block-chan.cc,
--   Channel/Limited.antt is LimitedReader of ot-chan.h, Channel/BitStream.antt is bits.cc. What
--   a reader or a writer promises to its callers is the record Stream (Channel/Streams.antt) or Sink
--   (Channel/Sinks.antt); the readers and writers on memory fill these records, and the theorems on
--   integers and on bits hold of whatever fills them.
-- - Gather: the gather buffers of libs/gather (Segment, and of Buffer add, resize, reset, consume,
--   limit, copy, fill, get_flat_data), over a memory that maps addresses to bytes. Gather/Data.antt
--   states the row of bytes that a buffer holds.
-- - Json: the values of libs/json and their CBOR form. Json.antt is Value of ot-json.h with put and
--   get, Json/CborWriter.antt is cbor-writer.cc and Json/CborReader.antt is cbor-reader.cc, over any
--   Writer and Reader. Json/Form.antt states the bytes of a value and the values that have a form,
--   Json/Encoding.antt and Json/Decoding.antt (with Json/Joining.antt) relate the code to it,
--   Json/RoundTrip.antt joins them, and Json/Calls.antt has the calls that Json/Ending.antt needs.
--   An int64_t is its 64 bits, and a double its bit pattern, which nothing computes with.
-- - Text: Text.antt has itos of libs/text/convert.cc, Text/Base64.antt is base64.cc, Text/Radix.antt is
--   base36.cc and base16alpha.cc. The digits of a base64 text and the bytes that they stand for are in Text/Base64/Grouping.antt.
-- - Merkle: the trees of libs/merkle/ot-merkle.h over any hash. What the hash functions promise is the
--   record CollisionFree (Merkle/Binding.antt).
-- - RwMutex: the mutex of many readers and one writer of libs/mt/ot-mt.h (RWMutex), between any number
--   of threads. A call is cut at its waits, a thread's place in its calls is its Phase, and a run is any
--   row of turns of the threads, with a waiting thread waking at any turn.
-- - Huffman: the trees of libs/huffman (ot-huffman.h, node.cc, tree.cc), read by a sequence or from a
--   bit reader. Huffman/Paths.antt has the way of a sequence through a tree, Huffman/Decoding.antt the
--   reading of a value.
-- - Common: Boolean tests, lists measured by native numbers, 64-bit arithmetic.
--
-- Numbers: a machine integer is a native number, with the wrap-around of its width written out.
-- Bytes are numbers, which the theorems take to be below 256 where it matters.
--
-- Loops: a loop over a list recurs on the list. `remove` of a range set runs on one more turn than
-- there are ranges, and a lemma shows that this is enough for sets in order. The reading loops run on
-- as many turns as bytes are wanted, since each turn reads a byte at least; the skipping and padding
-- loops run on as many turns as bytes are to be written. The loops of a reader that have no bound of
-- their own (`read_to_eof` without a limit, `skip_to_eof`, the Exp-Golomb code) take a number of
-- turns and say when it was not enough. The CBOR decoder takes a turn for each call of itself and for
-- each element; Json/Ending.antt shows that two for each byte of the input and one more are enough.
--
-- Not modelled: floating-point numbers, and with them gauge and percentage of a range set and the
-- double and fixed-point forms of the channels; the text, XML and channel forms of a range set;
-- locks, which the classes take around whole calls; of the Huffman trees those that
-- are chosen by the previous value, and the reader of mapping files; of the gather buffers insert, replace, tidy, the
-- iterator and the reader; the channels on sockets, files, streams and
-- queues, whose basic_read and basic_write are what the records Reader and Writer abstract from; and
-- all the other libraries and programs of the repository.
pub mod Common
pub mod Ring
pub mod RangeSet
pub mod Cache
pub mod Channel
pub mod Gather
pub mod Json
pub mod Text
pub mod Merkle
pub mod RwMutex
pub mod Huffman
