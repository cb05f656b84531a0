-- ===== src/Lib.antt =====
-- Fast Cache Engine: a library in C that builds read-only key/value caches in a directory and looks
-- keys up in them.
--
-- A program opens a builder with a schema, puts keys with values, and freezes the cache. The builder
-- encodes keys and values by the codecs of the schema and collects them as records; a freeze sorts the
-- records, keeps the last put of every key, and hands the rest to the backend of the schema, which
-- writes the index file; the keys and values go one after another into files of their own, and a
-- manifest with sizes, checksums and the schema makes the cache whole. A reader checks the
-- manifest and searches the index by the hash of a key, and compares the stored key itself.
--
-- Which file models which part:
--   Status     FceStatus of include/fce_cache.h; a fault is a read or write outside an object
--   Bytes      bytes and their comparison, of src/core/fce_hash.c
--   Hash       fnv1a64 and hash_key of src/core/fce_hash.c
--   Crc        src/core/fce_crc.c
--   Layout     the object representation of the structs in the files
--   Schema     FceSchema and src/core/fce_schema.c; Schema.Planner is src/core/fce_planner.c
--   Manifest   src/core/fce_manifest.c
--   Codec      src/codecs/fce_codecs.c, a child module for each codec
--   Qsort      what is relied on of the C library's qsort
--   Record     the build records and dedupe_records of src/core/fce_build_records.c
--   Memory     the allocator of src/core/fce_memory.c, as calls on a list of blocks and counters, and
--              its arena
--   Env        the answers of the operating system, and write_file of src/core/fce_file.c
--   Lock       the lock of a cache directory in src/core/fce_file.c, as built for POSIX; the lock of the
--              process and the open files are its state; that a call waits until the lock is free is
--              a hypothesis
--   Entry      SortedEntry, cmp_sorted_entry and write_keys_values of src/core/fce_build_records.c
--   Search     the binary search that the sorted and the log backend share
--   Sorted     src/backends/fce_backend_sorted.c
--   Direct     src/backends/fce_backend_direct.c
--   Mph        the hash and the lookup of src/backends/fce_backend_mph.c
--   Log        src/backends/fce_backend_log.c: freeze, index and lookup; Log.Append is fce_log_append
--   Radix      the lookup of src/backends/fce_backend_radix.c
--   Reader     src/api/fce_reader_api.c: the lookups; Reader.Validate is validate_reader_files,
--              Reader.Open the opening, and Reader.Scan the scans and the iterator
--   Builder    the opening and the puts of src/api/fce_builder_api.c
--   Tests      runs of the models at concrete inputs, with a sort in the place of qsort
--   Common     shared names, lists over native numbers, Boolean tests, bit operations, integers
--
-- Conventions. A function of the C code is a definition of the same name, and a loop or a stretch of it
-- that is a definition of its own stands beside it. A result is a status or what the out-parameters
-- receive. Numbers are natural numbers with the wrap-around of their C type written out. A buffer is
-- a list of bytes, so that its length is what C passes beside the pointer. Calls that may fail (malloc,
-- fopen, fwrite, fclose) ask an environment that is a parameter, and qsort is a parameter too:
-- a permutation that ascends, so that no result depends on which one it is.
--
-- A failed write of fce_log_append leaves as many bytes of the record as its environment says, so that
-- the call is a function from a directory to a directory and a status. A blob of a reader is what the
-- file holds, whether it is read or mapped, and its lock keeps the file as it is.
--
-- Fuel. A binary search takes the number of entries as fuel, which bounds its interval;
-- the scan after it takes the entries that are left; the replay of a log
-- takes the size of the file, of which every record uses 32 bytes; the pieces of crc64_file are at most as many as
-- the bytes. Where fuel could run out the model faults, and the theorems on results exclude it.
--
-- Not modelled: the construction of the MPH and the radix index, the prefix scan of a radix index,
-- compact, the freeze dispatch of the builder API, a failed fread in crc64_file, the reading and
-- mapping of files (system calls, which the models take as answers of an environment), the zstd
-- branches of the codecs (the models are those of a build without libzstd), the command line tool
-- and the Python package.
pub mod Common
pub mod Status
pub mod Bytes
pub mod Hash
pub mod Layout
pub mod Crc
pub mod Schema
pub mod Search
pub mod Manifest
pub mod Codec
pub mod Qsort
pub mod Record
pub mod Memory
pub mod Env
pub mod Entry
pub mod Sorted
pub mod Direct
pub mod Mph
pub mod Builder
pub mod Log
pub mod Lock
pub mod Radix
pub mod Reader
pub mod Tests
