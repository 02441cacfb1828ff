-- ===== src/Lib.antt =====
-- A verification library for vgi-reghive, a worker that serves Windows registry hives to DuckDB. It
-- models the worker's own logic: the parsing of hive headers and transaction logs, the rendering of
-- values, the walk over the keys into rows, the table functions that scan files, the scalar probes, and
-- the builder of synthetic hives that its tests and its demo use.
--
-- The parts and the files that model them:
-- - crates/reghive-core/src/baseblock.rs: BaseBlock.antt and the modules below it. `parse` reads the
--   4096-byte base block and classifies the blob; Kinds has the verdicts, Sniff the hive type, Checksum
--   `xor32_checksum`. Proofs: Reads (what the fields are), Classes (what the verdicts say), Checksum,
--   Times.
-- - crates/reghive-core/src/logparse.rs: LogParse.antt. `summarize` walks the HvLE entries of a log.
--   Proofs: Stream (against a writer of entries), Bounds.
-- - crates/reghive-core/src/valuetype.rs: ValueType.antt. `coerce` renders the bytes of a value by its
--   type. Proofs: Strings, Lossless, MultiStrings, Hex, Numbers.
-- - crates/reghive-core/src/cursor.rs: Cursor.antt, the position of a scan over a list of files.
-- - crates/reghive-worker/src/arrow_map.rs: ArrowMap.antt, rows and the columns of a batch as lists, with
--   Schema (`row_schema`) and Finish (`finish`). Arrow.antt has the types and arrays of the arrow crates
--   that the worker names, and those crates as a parameter.
-- - crates/reghive-worker/src/hive: Hive.antt, with Open (`open_blob`), Value (`decode`) and Walk
--   (`walk`, `normalize`, `subtree_match`). Proofs: Gate, Walk/Paths, Walk/Rows, Walk/Marks.
-- - crates/reghive-worker/src/table: Table.antt, with Files (`expand_glob`, `sibling_logs`), Rows
--   (`build_rows`), ReadHive (the producer of `read_hive` and its resume state) and HiveSubtree. Proofs:
--   ReadHive/Calls, ReadHive/Scan, ReadHive/Resume, ReadHive/Ends, HiveSubtree/Selection.
-- - crates/reghive-worker/src/scalar: Scalar.antt, with Io (cells of columns), Answer (the outcome of a
--   call of `process`) and a module for each of `well_formed`, `hive_info`, `key_info`, `hive_value`,
--   `hive_key` and `logs_applied`. Proofs: Verdicts, Answers and KeyAnswers, Agree (probes with each
--   other), Built (probes of a hive that is built), LogsApplied/Laws.
-- - crates/reghive-core/src/hivegen.rs: HiveGen.antt, the builder of synthetic hives, with Spec (what
--   to build), Cells (payloads and cells), Layout (`layout_key`, `layout_orphan`) and Build (`build`).
--   Proofs: Cells/Sizes, Layout/Tiles, Layout/Sizes, Layout/Lists, Layout/Keys, Layout/Orphans,
--   Layout/ReadBack, Build/Bin, Build/Header, Build/RoundTrip, Build/Root, Build/Parsed,
--   Build/Filename, and Build/Tree, against the reader of key trees in Reader.
--   Fixtures has the golden hives of crates/reghive-core/examples/gen_fixtures.rs; evaluated, they are the
--   four files tests/hives/*.hve, byte for byte.
-- - crates/reghive-worker/src/sample.rs, meta.rs and lib.rs: Catalog.antt, with the catalog's name,
--   Sample (`compact_blob_sql`), Meta (the JSON values), ForensicKeys (the view of keys to triage),
--   Tasks and Model (`catalog_metadata`), and Functions (what each function publishes: `metadata` and
--   `argument_specs` of crates/reghive-worker/src/scalar and table). Proofs: Sample/Denotes, against a
--   grammar of the SQL expression, Meta/RoundTrip, against a reader of JSON tokens (Meta/Json), and
--   Functions/Published.
-- Base.antt has what they share: tests, lists, machine words, strings, UTF-8, UTF-16, decimals and
-- copies into buffers. Examples has concrete inputs.
--
-- How they interact: `open_blob` parses the base block, refuses most verdicts, and hands the bytes to
-- the parser of the notatin crate; `walk` turns the keys that the parser finds into rows by `coerce`;
-- `build_rows` joins the two; a producer calls `build_rows` for each file that its cursor names, and
-- fills a batch from the rows.
--
-- How code is modelled. A byte, a word and a code point are natural numbers, with wrap-around and
-- saturation written out; byte slices and strings are lists, so `blob[a..b]` is `slice`. A method that
-- changes its object returns the changed one. An error result is a value. A producer is its state, and
-- a call of `next_batch` gives an outcome (a batch, the end, or the error of `finish`) and the next
-- state. The notatin parser (Hive/Notatin), the file system with the glob crate (Table/Files),
-- serde_json (Cursor) and the arrow crates (Arrow) are parameters, and so are the output schema that a
-- caller passes, the embedded demo hive and the version of the package. What is assumed of serde_json,
-- that it reads back what it writes, and of arrow, that it builds a batch from columns that conform to
-- the schema, are named hypotheses. Usize has 64 bits.
--
-- Bounds. The checksum takes 127 rounds, one for each dword in 508 bytes. The walk over a log takes at
-- most a million rounds, the guard that the source has. The loop of `next_batch` has as many rounds as
-- there are files left, and two more; each round takes a file. Decimals have twenty digits at most, as
-- a u64 has. The offsets of a hive that is built have 32 bits and wrap around; the theorems ask that
-- its cells come to less than 4 GiB less 4128 bytes. `build` gives `none` where a copy would be out of
-- range and the code would panic. The rendering of a blob takes as many rounds as it has bytes; each
-- takes a byte at least. The reader of key trees has as much fuel as the tree is deep. The array
-- builders of arrow are lists without a bound: that those of strings and bytes panic past the largest
-- i32 in bytes is left out.
--
-- Not modelled: the parsing of cells, the replay of logs and the recovery of deleted cells, which are
-- the notatin crate's; the registration of the functions with the SDK and the start of the worker
-- (`build_worker` of crates/reghive-worker/src/lib.rs, main.rs), which only call the SDK and the logger;
-- crates/reghive-wasm, which is glue; vendor/crossterm, a copy of another project.
pub mod Base
pub mod BaseBlock
pub mod LogParse
pub mod ValueType
pub mod Arrow
pub mod ArrowMap
pub mod Hive
pub mod HiveGen
pub mod Cursor
pub mod Table
pub mod Scalar
pub mod Catalog
pub mod Examples
