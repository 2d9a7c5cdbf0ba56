-- ===== src/Lib.antt =====
-- LevelDB for Windows: the encodings that the database keeps on disk and in its log, the orders and
-- filters over keys, and the operations on batches of updates and on version edits.
--
-- The parts, each in the file of its name, and the code that each is about (paths from the
-- repository's root):
--
--   Coding       LevelDB/util/coding.cc, coding.h: fixed-width numbers, varints, prefixed strings
--   Status       LevelDB/include/leveldb/status.h
--   Slice        LevelDB/include/leveldb/slice.h: comparison and prefixes of byte strings
--   Comparator   LevelDB/include/leveldb/comparator.h, LevelDB/util/comparator.cc
--   DbFormat     LevelDB/db/dbformat.h, dbformat.cc: internal keys, their comparator, lookup keys
--   WriteBatch   LevelDB/include/leveldb/write_batch.h, LevelDB/db/write_batch.cc
--   VersionEdit  LevelDB/db/version_edit.h, version_edit.cc: the records of the manifest
--   Hash, Bloom  LevelDB/util/hash.cc, bloom.cc, LevelDB/include/leveldb/filter_policy.h
--   Format       LevelDB/table/format.h, format.cc: block handles and the footer of a table file
--   Crc32c       LevelDB/util/crc32c.h: the checksum's interface, masked checksums
--   Version      LevelDB/db/version_set.h, version_set.cc: the class Version, its searches and reads
--   VersionBuilder  the class VersionSet::Builder of the same file
--   Compaction   the class Compaction of the same file, and the choice of its inputs
--   Entries      the entries of tables and memtables in order, and what a reader finds of a key
--   Cursor       LevelDB/include/leveldb/iterator.h: an iterator as a place among entries in order
--   DbIter       LevelDB/db/db_iter.cc: the user's iterator over the newest visible entries
--   WriteQueue   LevelDB/db/db_impl.cc, DBImpl::Write and BuildBatchGroup: writes in groups
--   CompactionWork  LevelDB/db/db_impl.cc, DBImpl::DoCompactionWork and its output files
--   Cache        LevelDB/util/cache.cc: the hash table of the cache's handles
--   Random       LevelDB/util/random.h: the generator of pseudo-random numbers
--   Memenv       LevelDB/helpers/memenv/memenv.cc: files and names in memory
--   FilterBlock  LevelDB/table/filter_block.h, filter_block.cc: the filters of a table
--   Log          LevelDB/db/log_format.h, log_writer.cc; Log/Reader LevelDB/db/log_reader.h, log_reader.cc
--
-- Everything is built on Coding. A write batch and a version edit are byte strings that Coding's
-- functions write and read; DbFormat takes the user's Comparator as a parameter and is one itself; the
-- Bloom filter is an instance of FilterPolicy.
--
-- Bytes are the numbers below 256, a `std::string` or the text of a `Slice` is a list of them, and a
-- pointer with its limit is the list between the two. Words are plain numbers, with the wrap-around
-- written out where the code can wrap; an `int` that can be negative is its word in two's complement.
-- Names are the source's in lower case: `PutVarint32` is `put_varint32`,
-- `InternalKeyComparator::Compare` is `internal_compare`. A function that appends to `dst` returns
-- the new string; one that advances its input returns what is left, and `none` is `false` or NULL.
-- Assertions are not run: where a theorem needs what one states, it is a hypothesis.
--
-- Loops recur on their list, on `Acc` of a number that falls (the varint writers), or on fuel: the
-- loop of `WriteBatch::Iterate` takes the length of its input, and that of `VersionEdit::DecodeFrom`
-- one more, since each round takes a byte at least; `none` is fuel that ran out.
-- The log's writer loops on the length of the record and two more, since every round but the first takes
-- a byte; the reader's loop over its buffer has three rounds, since a read that is short is the last
-- one. The loop of `Reader::ReadRecord` takes its fuel as an argument: the files of the environment
-- are parameters, and nothing bounds what one may answer.
--
-- The passes of `Version::GetOverlappingInputs` have fuel for a widening by each bound of each file; the
-- loops of FileState take a byte in each round and have the number of bytes for fuel; `FindFile` has the
-- number of files and one more; the doubling in `HandleTable::Resize` has the number of handles.
--
-- The files (`WritableFile`, `SequentialFile`) and `crc32c::Extend` are records that the log takes as
-- parameters, with the laws of the checksum's header as hypotheses where a theorem needs them.
--
-- Not modelled: the file system and threads (env_posix.cc, env_win.cc, port), the C interface, the
-- benchmarks and tools, and so far the blocks of a table and its iterators, the memtable, the
-- lists of the cache, the set of versions, and the rest of the database.
--
-- The floating-point product in the Bloom filter's constructor is a parameter.
pub mod Base
pub mod Coding
pub mod Status
pub mod Slice
pub mod Comparator
pub mod DbFormat
pub mod WriteBatch
pub mod Entries
pub mod Cursor
pub mod DbIter
pub mod WriteQueue
pub mod VersionEdit
pub mod Version
pub mod VersionBuilder
pub mod Compaction
pub mod CompactionWork
pub mod Cache
pub mod Format
pub mod Crc32c
pub mod Memenv
pub mod Random
pub mod Log
pub mod FilterBlock
pub mod Hash
pub mod Bloom
