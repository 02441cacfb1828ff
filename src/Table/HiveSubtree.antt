-- ===== src/Table/HiveSubtree.antt =====
-- The producer of `hive_subtree`, crates/reghive-worker/src/table/hive_subtree.rs: one batch with the
-- rows of a subtree, then the end.
pub mod Selection
use vgi_reghive.Base.{Bool, true, false, Option, none, some, List, [], if◌then◌else◌, unwrap_or}
use vgi_reghive.Base.{◌>>=◌, Bytes, Text, codes}
use vgi_reghive.Arrow.{ArrowCrate, Fields}
use vgi_reghive.Hive.Notatin.{Notatin, Result, ok, err}
use vgi_reghive.Scalar.Io.{RpcError}
use vgi_reghive.Hive.Open.{open_blob}
use vgi_reghive.Hive.Walk.{values}
use vgi_reghive.ArrowMap.{Row, RowBatchBuilder, empty_builder, push_all}
use vgi_reghive.ArrowMap.Schema.{row_schema}
use vgi_reghive.ArrowMap.Finish.{finish}
use vgi_reghive.Table.Rows.{rows_of}

-- The output schema of `on_bind`.
abbrev pub on_bind : Fields
on_bind = row_schema

-- The named arguments, where they are given.
unfoldable pub opts : Option Bool → Option Bool → Bool × Bool
opts apply_logs recover_deleted = (unwrap_or apply_logs true, unwrap_or recover_deleted true)

-- The schema is the output schema that the call passes.
pub record SubtreeProducer : Type 0 where
  pub schema : Fields
  pub bytes : Bytes
  pub key_path : Text
  pub apply_logs : Bool
  pub recover : Bool
  pub done : Bool

-- `none` is the error of a missing argument.
unfoldable pub subtree_producer :
    Fields → Option Bool → Option Bool → Option Bytes → Option Text → Option SubtreeProducer
unfolding opts
subtree_producer schema apply_logs recover_deleted blob path = do
  bytes ← blob
  key_path ← path
  let (apply, recover) = opts apply_logs recover_deleted
  some (record {
    schema = schema;
    bytes = bytes;
    key_path = key_path;
    apply_logs = apply;
    recover = recover;
    done = false;
  })

module _ (N : Notatin) where
  unfoldable pub subtree_rows : SubtreeProducer → List Row
  subtree_rows p =
      rows_of N p.apply_logs values (codes "<blob>") false (some p.key_path)
        (open_blob N p.bytes p.apply_logs p.recover [])

-- `Ok(Some(b.finish()?))`
unfoldable pub handed_subtree : {B : Type 0} → Result RpcError B → Result RpcError (Option B)
handed_subtree (ok b) = ok (some b)
handed_subtree (err e) = err e

module _ (A : ArrowCrate) (N : Notatin) where
  unfoldable pub next_subtree_batch :
      SubtreeProducer → Result RpcError (Option A.Batch) × SubtreeProducer
  unfolding subtree_rows handed_subtree
  next_subtree_batch p = if p.done then (ok none, p) else (
    handed_subtree (finish A p.schema (push_all empty_builder (subtree_rows N p))),
    record p { done = true },
  )
