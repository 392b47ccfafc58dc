-- ===== src/Lib.antt =====
-- Batuta indexes the names and sizes of every file on an NTFS volume and searches them as one
-- types. It reads the Master File Table straight off the volume (crates/batuta-ntfs), keeps all
-- records in one in-memory index (crates/batuta-core), and applies the filesystem's change journal
-- to that index while it runs. A resident daemon answers the command line over a pipe
-- (crates/batuta-ipc), and the application (crates/batuta-app) has a shell of its own. This library
-- models those three crates and the parser of the shell: the parsers and decoders, which must
-- survive any bytes, and the index, whose totals must stay exact under any sequence of changes.
--
-- Base: names of the libraries passed on, Boolean tests, lists over the native numbers, signed
-- words, bits, and `Option` as a monad.
--
-- Ntfs.Bytes (crates/batuta-ntfs/src/error.rs): `NtfsError`, the little-endian reads and file
-- references. A result is `ok`, `err`, `panic` (an index out of range) or `stuck` (a loop of the
-- model that ran out of rounds, which the theorems exclude).
-- Ntfs.RunList (crates/batuta-ntfs/src/runlist.rs): `RunList::parse`; the loop has a round for
-- each byte and one more, and each round takes two bytes or more.
-- Ntfs.Boot (crates/batuta-ntfs/src/boot.rs): `BootSector::parse` and the geometry it accepts.
-- Ntfs.Record (crates/batuta-ntfs/src/record.rs): `apply_fixups` with the buffer it writes, and
-- the record header. `decode_utf16` is not modelled.
-- Ntfs.Attributes (crates/batuta-ntfs/src/record.rs): `AttrIter::next`, attribute by attribute.
-- Ntfs.Usn (crates/batuta-ntfs/src/usn.rs): `UsnRecords::next` over a buffer of the change journal,
-- with a round for each byte and one more, and `JournalInfo`. The Windows calls are not modelled.
--
-- Core.Names (crates/batuta-core/src/names.rs): the arena of names as a list of bytes.
-- Core.Index (crates/batuta-core/src/index.rs): the parallel per-node arrays, which grow together,
-- are one list of `Node` rows; a record table maps record numbers to nodes. `none` as the whole
-- result of an operation is a panic. `propagate_loop` has the 513 rounds that the guard of the
-- source leaves. Roll-up, exclusion, paths and lookup are not modelled.
-- Core.Builder (crates/batuta-core/src/index.rs): `IndexBuilder::add_volume`, which turns the
-- entries of a parsed MFT into rows, names and a record table. Core.Depths is `compute_depths` over
-- the columns of parents and depths, with the 513 rounds after which a chain is cut.
-- Core.Watch (crates/batuta-core/src/watch.rs): the changes, `apply_create`, `apply_delete`,
-- `apply_resize` and `apply_rename`, and whole batches with their counters. Watch.Steps has the
-- elementary steps that an index takes and what they keep, Watch.Safety, Watch.Applying,
-- Watch.Changes and Watch.Batches show that every operation is a run of such steps. Watch.Visible
-- follows a name through a rename, and Index.Ancestry an ancestor through `is_under`.
-- Core.Totals: what the totals of a directory stand for, as a sum over its children; the operations
-- are compared with it. A measure is bytes, allocated bytes or files; its `limit`, 2^63 - 1 bytes or
-- 2^31 - 1 files, is where the signed deltas of the source stop being exact.
-- Ipc.Wire (crates/batuta-ipc/src/lib.rs): the writer, whose methods append and are chained with
-- `⟫`, and the reader, a state monad over the buffer and the position that ends at the first error.
-- Wire.Carrying and Wire.Fields say what a written value is read back as, Wire.Answering what reading
-- any bytes gives, Wire.Growing how much is written. Ipc.Requests and Ipc.Responses are `Request` and
-- `Response` with their `encode` and `decode`; Ipc.Frame is `write_frame` and `read_frame` over the
-- io traits, which are interfaces (`Output`, `Input`), with vectors and slices as instances.
-- Core.Matching (crates/batuta-core/src/search.rs): `glob_match`; an index into the pattern or the
-- text is the suffix that it leaves. The rounds of the loop bound the moves of the mark times what is
-- left of both. Matching.Globs says what a glob means, Matching.Loop follows the loop.
-- Core.Scan (crates/batuta-core/src/search.rs): `find_iter_ascii_ci` and the chunks of the arena that
-- `scan_names` gives to its threads, in order. The crate memchr is a parameter (`Memchr`), with what it
-- documents as `MemchrLaws`. Scan.Containing says what it is for a name to contain a needle. Core.NameScan
-- is `node_containing` and `scan_names`; NameScan.Owners, NameScan.Kept and NameScan.Exact follow the scan
-- without regard to case. `binary_search` and `sort_unstable` of the standard library are written out as
-- what they give on sorted offsets and on numbers.
-- Core.Snapshot (crates/batuta-core/src/snapshot.rs): `validate`, the check of a snapshot that was
-- read, and `compact_names`, which folds renames into the arena to be written. Snapshot.File is what
-- `save` leaves in the file, as a list of bytes, with `peek` and `written_at`, and Snapshot.Load is
-- `load`, in which `panic` is a vector that cannot be allocated. Xxh3 is a parameter, a function of the
-- bytes it was fed with. The effects of `save` beyond the bytes are not modelled.
-- Shell (crates/batuta-app/src/shell/parse.rs): the variables and the expansion of the built-in shell's
-- command line; Shell.Parse is `tokenize` and `parse`, an index into the line being the suffix that it
-- leaves, with a round for each character. `char::is_alphanumeric` is a parameter.
-- Core.Tests: a small volume and the theorems at it.
--
-- Arithmetic is that of a release build: it wraps. A name is its list of UTF-8 bytes, a file's
-- record number is a number, and a hash map is an association list. The rest of crates/batuta-core
-- (the rest of search, duplicates), the sweep of the MFT in crates/batuta-ntfs, and the rest of
-- crates/batuta-app are not modelled.
pub mod Base
pub mod Ntfs
pub mod Ipc
pub mod Shell
pub mod Core
