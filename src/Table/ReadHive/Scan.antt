-- ===== src/Table/ReadHive/Scan.antt =====
-- A scan of a glob delivers one batch for each file with rows, in the order of the files.
use vgi_reghive.Base.{ℕ, zero, suc, ◌<◌, ◌≡◌, refl, sym, ap, ◌∙◌, inl, inr, Bool-cases, List, []}
use vgi_reghive.Base.{◌∷◌, ◌++◌, map, arith, length, Text}
use vgi_reghive.Arrow.{ArrowCrate, Documented}
use vgi_reghive.Hive.Notatin.{Notatin, Result, ok, err}
use vgi_reghive.Scalar.Io.{RpcError}
use vgi_reghive.Table.Files.{FileSystem}
use vgi_reghive.ArrowMap.{Row, is_empty, push_all, empty_builder, push_all-rows}
use vgi_reghive.ArrowMap.Schema.{row_schema}
use vgi_reghive.ArrowMap.Finish.{row_columns, finish-rows}
use vgi_reghive.Table.ReadHive.{Outcome, batch, finished, failed, stuck, handed, Producer}
use vgi_reghive.Table.ReadHive.{next_batch, file_batch, file_rows}
use vgi_reghive.Table.ReadHive.Calls.{Finished, kept, live_results, with_files, ended, gave}
use vgi_reghive.Table.ReadHive.Calls.{next_batch-Called}

module _ {B : Type 0} where
  -- What a caller has after a call: its batch or its error and what the later calls give, or nothing.
  abbrev pub after_call :
      (Producer → List (Result RpcError B)) → Outcome B × Producer → List (Result RpcError B)
  after_call again (batch b, p) = ok b ∷ again p
  after_call again (failed e, p) = err e ∷ again p
  after_call again (finished, p) = []
  after_call again (stuck, p) = []

  pub after_call-handed :
      (again : Producer → List (Result RpcError B)) (b : Result RpcError B) (p : Producer)
      → after_call again (handed b, p) ≡ b ∷ again p
  unfolding handed
  after_call-handed again (ok b) p = refl
  after_call-handed again (err e) p = refl

abbrev pub with_rows : List Row → List (List Row) → List (List Row)
with_rows [] rest = rest
with_rows (r ∷ rows) rest = (r ∷ rows) ∷ rest

module _ (A : ArrowCrate) (N : Notatin) (fs : FileSystem) where
  -- Calls of `next_batch` until one says that the scan is finished, `n` at most; an error does not
  -- stop the calls.
  unfoldable pub scan : ℕ → Producer → List (Finished A N fs)
  scan zero p = []
  scan (suc n) p = after_call (scan n) (next_batch A N fs p)

  pub scan-live :
      (n : ℕ) (p : Producer) (files : List Text)
      → length files < n
      → scan n (with_files A N fs p files) ≡ live_results A N fs p files
  unfolding scan
  scan-live zero p files h = absurd (omega arith)
  scan-live (suc n) p files h = elim (next_batch-Called A N fs p files) [
    | ended live e ↦ ap (after_call (scan n)) e ∙ sym live
    | gave b rest live shorter e ↦
        ap (after_call (scan n)) e
        ∙ after_call-handed (scan n) b _
        ∙ ap (λ (t : List (Finished A N fs)). b ∷ t) (scan-live n p rest (omega arith))
        ∙ sym live
  ]

  -- The rows of each file that has any.
  abbrev pub rows_by_file : Producer → List Text → List (List Row)
  rows_by_file p [] = []
  rows_by_file p (f ∷ files) = with_rows (file_rows N fs p f) (rows_by_file p files)

  -- Results that are all batches, with the given rows as their columns.
  abbrev pub AreBatches : List (List Row) → List (Finished A N fs) → Type 0
  AreBatches rows results =
      (bs : List A.Batch) × (results ≡ map ok bs)
      × (map A.columns bs ≡ map row_columns rows)
      × (map A.num_rows bs ≡ map length rows)

  module _ (doc : Documented A) (p : Producer) (schema : p.schema ≡ row_schema) where
    kept-AreBatches :
        (rows : List Row) (rest : List (List Row)) (results : List (Finished A N fs))
        → AreBatches rest results
        → AreBatches (with_rows rows rest) (kept A N fs p (push_all empty_builder rows) ++ results)
    unfolding push_all is_empty
    kept-AreBatches [] rest results h = h
    kept-AreBatches (r ∷ rows) rest results (bs, same, cols, lens) =
        elim (Bool-cases (is_empty (push_all empty_builder (r ∷ rows)))) [
          | inl e ↦ cc ((push_all-rows (r ∷ rows)).1.0 e)
          | inr e ↦
              let (b, made, col, n) = finish-rows A (r ∷ rows) doc in
              (b ∷ bs, rw (e, schema, made, same) refl, rw (col, cols) refl, rw (n, lens) refl)
        ]

    live_results-AreBatches :
        (files : List Text) → AreBatches (rows_by_file p files) (live_results A N fs p files)
    unfolding file_batch
    live_results-AreBatches [] = ([], refl, refl, refl)
    live_results-AreBatches (f ∷ files) =
        kept-AreBatches (file_rows N fs p f) _ _ (live_results-AreBatches files)

  -- Where the arrow crates accept columns that fit a schema, and the producer has the schema of the rows: one call of `next_batch` more than there are files in a glob gives no error but one batch for each file that has rows, in the order of the files, whose columns are the fields of the file's rows; files without rows, or that cannot be read, give none.
  pub scan-files :
      (p : Producer) (files : List Text)
      → Documented A
      → p.schema ≡ row_schema
      → AreBatches (rows_by_file p files) (scan (suc (length files)) (with_files A N fs p files))
  scan-files p files doc schema =
      rw (scan-live (suc (length files)) p files (omega arith))
        (live_results-AreBatches doc p schema files)
