-- ===== src/Table/ReadHive.antt =====
-- The producer of `read_hive`, crates/reghive-worker/src/table/read_hive.rs: one batch for a blob, one
-- for each file of a glob that has rows, and the resume state. The proofs are in the modules below.
pub mod Calls
pub mod Scan
pub mod Resume
pub mod Ends
use mathlib.Core.Option
use vgi_reghive.Base.{ℕ, zero, suc, Bool, true, false, Option, none, some, List, [], unwrap_or}
use vgi_reghive.Base.{length, Bytes, Text, codes}
use vgi_reghive.Arrow.{ArrowCrate, Fields}
use vgi_reghive.Hive.Notatin.{Notatin, Result, ok, err}
use vgi_reghive.Scalar.Io.{RpcError}
use vgi_reghive.Hive.Walk.{Mode, values, parse_mode}
use vgi_reghive.ArrowMap.{Row, RowBatchBuilder, empty_builder, push_all, is_empty}
use vgi_reghive.ArrowMap.Schema.{row_schema}
use vgi_reghive.ArrowMap.Finish.{finish}
use vgi_reghive.Cursor.{HiveGlobCursor, Serde, new, advance_file, is_exhausted, to_bytes}
use vgi_reghive.Cursor.{from_bytes}
use vgi_reghive.Table.Files.{FileSystem, expand_glob, sibling_logs}
use vgi_reghive.Table.Rows.{build_rows}

-- The output schema of `on_bind`.
abbrev pub on_bind : Fields
on_bind = row_schema

-- The named arguments, where they are given.
pub record Arguments : Type 0 where
  pub apply_logs : Option Bool
  pub recover_deleted : Option Bool
  pub mode : Option Text

unfoldable pub read_opts : Arguments → Bool × Bool × Mode
read_opts args = (
  unwrap_or args.apply_logs true,
  unwrap_or args.recover_deleted true,
  unwrap_or (Option.map parse_mode args.mode) values,
)

pub data Plan : Type 0 where
  blob : Bytes → Bool → Plan
  glob : HiveGlobCursor → Plan

-- The schema is the output schema that the call passes.
pub record Producer : Type 0 where
  pub schema : Fields
  pub apply_logs : Bool
  pub recover : Bool
  pub mode : Mode
  pub plan : Plan

-- The first argument: a BLOB column or a VARCHAR one, with its constant if it has one.
pub data Source : Type 0 where
  binary : Option Bytes → Source
  path : Option Text → Source

module _ (fs : FileSystem) where
  -- `none` is the error of a missing argument.
  unfoldable pub plan_of : Source → Option Plan
  plan_of (binary o) = Option.map (λ bytes. blob bytes false) o
  plan_of (path o) = Option.map (λ pat. glob (new (expand_glob fs pat))) o

  unfoldable pub producer : Fields → Arguments → Source → Option Producer
  unfolding plan_of
  producer schema args source =
      let (apply_logs, recover, mode) = read_opts args in
      Option.map
        (λ plan. record {
          schema = schema;
          apply_logs = apply_logs;
          recover = recover;
          mode = mode;
          plan = plan;
        })
        (plan_of source)

-- What a call of `next_batch` comes to: `Ok(Some(batch))`, `Ok(None)` or `Err(error)`. `stuck` is no
-- outcome of the program: the fuel of the loop ran out.
pub data Outcome (B : Type 0) : Type 0 where
  batch : B → Outcome B
  finished : Outcome B
  failed : RpcError → Outcome B
  stuck : Outcome B

-- `Ok(Some(b.finish()?))`
unfoldable pub handed : {B : Type 0} → Result RpcError B → Outcome B
handed (ok b) = batch b
handed (err e) = failed e

-- Each round takes a file, so the files that are left, and one round more, are enough.
abbrev pub enough_fuel : HiveGlobCursor → ℕ
enough_fuel c = suc (suc (length c.pending_files))

module _ (N : Notatin) (fs : FileSystem) where
  open fs use {read, path_of}

  -- The rows of one file of the glob: none, if it cannot be read.
  unfoldable pub file_rows : Producer → Text → List Row
  file_rows p file = elim (read (path_of file)) [
    | none ↦ []
    | some bytes ↦ build_rows N p.apply_logs p.recover p.mode bytes file (sibling_logs fs file)
  ]

  unfoldable pub file_batch : Producer → Text → RowBatchBuilder
  file_batch p file = push_all empty_builder (file_rows p file)

module _ (A : ArrowCrate) (N : Notatin) (fs : FileSystem) where
  -- The `loop` over the files, on fuel.
  unfoldable pub glob_loop : ℕ → Producer → HiveGlobCursor → Outcome A.Batch × HiveGlobCursor
  unfolding handed
  glob_loop zero p cursor = (stuck, cursor)
  glob_loop (suc fuel) p cursor = elim cursor.current_file [
    | none ↦ (finished, cursor)
    | some file ↦
        let b = file_batch N fs p file in
        let next = advance_file cursor in
        let again = glob_loop fuel p next in
        elim (is_empty b) [
          | true ↦ elim (is_exhausted next) [ true ↦ (finished, next) | false ↦ again ]
          | false ↦ (handed (finish A p.schema b), next)
        ]
  ]

  next_in : Producer → Plan → Outcome A.Batch × Producer
  unfolding handed
  next_in p (blob bytes true) = (finished, p)
  next_in p (blob bytes false) = (
    handed (
        finish A p.schema (
          push_all empty_builder
            (build_rows N p.apply_logs p.recover p.mode bytes (codes "<blob>") []))),
    record p { plan = blob [] true },
  )
  next_in p (glob cursor) =
      let (outcome, cursor') = glob_loop (enough_fuel cursor) p cursor in
      (outcome, record p { plan = glob cursor' })

  unfoldable pub next_batch : Producer → Outcome A.Batch × Producer
  unfolding next_in
  next_batch p = next_in p p.plan

unfoldable pub resume_supported : Producer → Bool
resume_supported p = elim p.plan [ blob bytes done ↦ false | glob cursor ↦ true ]

module _ (S : Serde) where
  unfoldable pub encode_resume : Producer → Bytes
  encode_resume p = elim p.plan [ blob bytes done ↦ [] | glob cursor ↦ to_bytes S cursor ]

  unfoldable pub restore_resume : Producer → Bytes → Producer
  restore_resume p bytes = elim p.plan [
    | blob b done ↦ p
    | glob cursor ↦ record p { plan = glob (from_bytes S bytes) }
  ]
