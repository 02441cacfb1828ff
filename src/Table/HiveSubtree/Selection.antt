-- ===== src/Table/HiveSubtree/Selection.antt =====
-- What `hive_subtree` gives, in terms of what `read_hive` gives.
use vgi_reghive.Base.{◌≡◌, refl, Bool, false, none, some, List, [], length, Text, codes}
use vgi_reghive.Arrow.{ArrowCrate, Documented}
use vgi_reghive.ArrowMap.Schema.{row_schema}
use vgi_reghive.ArrowMap.Finish.{row_columns, finish-rows}
use vgi_reghive.Hive.Notatin.{Notatin, Result, ok}
use vgi_reghive.Hive.Open.{OpenError, Opened, open_blob}
use vgi_reghive.Hive.Walk.{Mode, values, walk, normalize_filter}
use vgi_reghive.Hive.Walk.Rows.{select, walk_keys-select}
use vgi_reghive.Table.Rows.{any_log, rows_of, opened_rows, build_rows}
use vgi_reghive.Table.HiveSubtree.{SubtreeProducer, subtree_rows, next_subtree_batch}
use vgi_reghive.Table.HiveSubtree.{handed_subtree}
use vgi_reghive.ArrowMap.{Row}

module _ (N : Notatin) where
  rows_of-select :
      (apply : Bool) (mode : Mode) (source f : Text) (logs : Bool)
      (r : Result OpenError (Opened N.Parser))
      → rows_of N apply mode source logs (some f) r
        ≡ select (normalize_filter f) (rows_of N apply mode source logs none r)
  unfolding rows_of opened_rows walk
  rows_of-select apply mode source f logs (Result.ok o) =
      walk_keys-select _ (normalize_filter f) (N.keys o.parser)
  rows_of-select apply mode source f logs (Result.err e) = refl

  -- The rows of a `read_hive` of the blob, in its default mode, that the filter of the producer passes.
  abbrev pub selected : SubtreeProducer → List Row
  selected p =
      select (normalize_filter p.key_path)
        (build_rows N p.apply_logs p.recover values p.bytes (codes "<blob>") [])

  subtree_rows-select : (p : SubtreeProducer) → subtree_rows N p ≡ selected p
  unfolding subtree_rows build_rows any_log
  subtree_rows-select p =
      rows_of-select p.apply_logs values (codes "<blob>") p.key_path false
        (open_blob N p.bytes p.apply_logs p.recover [])

  -- Where the arrow crates accept columns that fit a schema, a fresh producer with the schema of the rows gives one batch, and then the end: the batch has those rows of a `read_hive` of the same blob, in its default mode, whose path, without regard to case, is the given one, less separators in front, or lies below it, in the same order.
  pub next_subtree_batch-select :
      (A : ArrowCrate) (p : SubtreeProducer)
      → Documented A
      → p.schema ≡ row_schema
      → p.done ≡ false
      → ((b : A.Batch) × ((next_subtree_batch A N p).0 ≡ ok (some b))
          × (A.columns b ≡ row_columns (selected p))
          × (A.num_rows b ≡ length (selected p)))
        × ((next_subtree_batch A N (next_subtree_batch A N p).1).0 ≡ ok none)
  unfolding next_subtree_batch handed_subtree
  next_subtree_batch-select A p doc schema fresh =
      let (b, made, cols, n) = finish-rows A (selected p) doc in
      ((b, rw (fresh, schema, subtree_rows-select p, made) refl, cols, n), rw fresh refl)
