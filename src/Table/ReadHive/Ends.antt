-- ===== src/Table/ReadHive/Ends.antt =====
-- Every scan comes to its end, from any state of the producer.
use vgi_reghive.Base.{ℕ, zero, suc, ◌≤◌, ◌≡◌, refl, sym, ap, ◌∙◌, true, false, Option, none, some}
use vgi_reghive.Base.{List, [], ◌∷◌, arith, length, Text}
use vgi_reghive.Hive.Notatin.{Notatin}
use vgi_reghive.Table.Files.{FileSystem}
use vgi_reghive.Cursor.{HiveGlobCursor, new, advance_file, is_exhausted, remaining}
use vgi_reghive.Arrow.{ArrowCrate}
use vgi_reghive.ArrowMap.{is_empty}
use vgi_reghive.ArrowMap.Finish.{finish}
use vgi_reghive.Table.ReadHive.{Plan, blob, glob, Producer, Outcome, handed, finished, next_batch}
use vgi_reghive.Table.ReadHive.{glob_loop, file_batch, file_rows}
use vgi_reghive.Table.ReadHive.Calls.{with_files, ended, gave, next_batch-Called}
use vgi_reghive.Table.ReadHive.Resume.{calls}

abbrev cursor_at : Option Text → List Text → ℕ → HiveGlobCursor
cursor_at current pending emitted = record {
  pending_files = pending;
  current_file = current;
  emitted_in_current = emitted;
}

-- As many calls as can still give a batch.
abbrev pub calls_left : Plan → ℕ
calls_left (blob bytes true) = 0
calls_left (blob bytes false) = 1
calls_left (glob cursor) = length (remaining cursor)

module _ (A : ArrowCrate) (N : Notatin) (fs : FileSystem) where
  -- The loop does not look at the plan of its producer, only at the cursor that it is given.
  loop-plan :
      (fuel : ℕ) (p : Producer) (plan : Plan) (c : HiveGlobCursor)
      → glob_loop A N fs fuel (record p { plan = plan }) c ≡ glob_loop A N fs fuel p c
  unfolding glob_loop file_batch file_rows
  loop-plan zero p plan c = refl
  loop-plan (suc fuel) p plan c =
      ap
        (λ (again : Outcome A.Batch × HiveGlobCursor). elim c.current_file [
          | none ↦ (finished, c)
          | some file ↦ elim (is_empty (file_batch N fs p file)) [
            | true ↦ elim (is_exhausted (advance_file c)) [
              | true ↦ (finished, advance_file c)
              | false ↦ again
            ]
            | false ↦ (handed (finish A p.schema (file_batch N fs p file)), advance_file c)
          ]
        ])
        (loop-plan fuel p plan (advance_file c))

  -- A cursor that has emitted rows of its current file goes on like a new one from that file.
  loop-new :
      (fuel : ℕ) (p : Producer) (f : Text) (rest : List Text) (emitted : ℕ)
      → glob_loop A N fs (suc fuel) p (cursor_at (some f) rest emitted)
        ≡ glob_loop A N fs (suc fuel) p (new (f ∷ rest))
  unfolding glob_loop new advance_file
  loop-new fuel p f rest emitted = refl

  next_batch-new :
      (p : Producer) (f : Text) (rest : List Text) (emitted : ℕ)
      → next_batch A N fs (record p { plan = glob (cursor_at (some f) rest emitted) })
        ≡ next_batch A N fs (with_files A N fs p (f ∷ rest))
  unfolding next_batch new
  next_batch-new p f rest emitted =
      let fuel = suc (length rest) in
      ap (λ (t : Outcome A.Batch × HiveGlobCursor). (t.0, record p { plan = glob t.1 }))
        (loop-plan (suc fuel) p _ _
          ∙ loop-new fuel p f rest emitted
          ∙ sym (loop-plan (suc fuel) p _ (new (f ∷ rest))))

  calls-fixed :
      (m : ℕ) (p : Producer)
      → next_batch A N fs p ≡ (finished, p)
      → (next_batch A N fs (calls A N fs m p)).0 ≡ finished
  unfolding calls
  calls-fixed zero p e = ap (λ (t : Outcome A.Batch × Producer). t.0) e
  calls-fixed (suc m) p e =
      ap (λ (t : Outcome A.Batch × Producer). (next_batch A N fs (calls A N fs m t.1)).0) e
      ∙ calls-fixed m p e

  no_files-fixed :
      (p : Producer)
      → next_batch A N fs (with_files A N fs p []) ≡ (finished, with_files A N fs p [])
  no_files-fixed p = elim (next_batch-Called A N fs p []) [
    | ended live e ↦ e
    | gave b rest live shorter e ↦ absurd (omega arith)
  ]

  files-end :
      (m : ℕ) (p : Producer) (files : List Text)
      → length files ≤ m
      → (next_batch A N fs (calls A N fs m (with_files A N fs p files))).0 ≡ finished
  unfolding calls
  files-end zero p [] h = calls-fixed zero _ (no_files-fixed p)
  files-end zero p (f ∷ files) h = absurd (omega arith)
  files-end (suc m) p files h = elim (next_batch-Called A N fs p files) [
    | ended live e ↦
        ap (λ (t : Outcome A.Batch × Producer). (next_batch A N fs (calls A N fs m t.1)).0) e
        ∙ calls-fixed m _ (no_files-fixed p)
    | gave b rest live shorter e ↦
        ap (λ (t : Outcome A.Batch × Producer). (next_batch A N fs (calls A N fs m t.1)).0) e
        ∙ files-end m p rest (omega arith)
  ]

  cursor-ends :
      (m : ℕ) (p : Producer) (current : Option Text) (rest : List Text) (emitted : ℕ)
      → length (remaining (cursor_at current rest emitted)) ≤ m
      → (next_batch A N fs
          (calls A N fs m (record p { plan = glob (cursor_at current rest emitted) }))).0
        ≡ finished
  unfolding calls remaining next_batch glob_loop
  cursor-ends m p none rest emitted h = calls-fixed m _ refl
  cursor-ends zero p (some f) rest emitted h = absurd (omega arith)
  cursor-ends (suc m) p (some f) rest emitted h =
      ap (λ (t : Outcome A.Batch × Producer). (next_batch A N fs (calls A N fs m t.1)).0)
        (next_batch-new p f rest emitted)
      ∙ files-end (suc m) p (f ∷ rest) h

  plan-ends :
      (m : ℕ) (p : Producer) (plan : Plan)
      → calls_left plan ≤ m
      → (next_batch A N fs (calls A N fs m (record p { plan = plan }))).0 ≡ finished
  unfolding calls next_batch
  plan-ends m p (blob bytes true) h = calls-fixed m _ refl
  plan-ends zero p (blob bytes false) h = absurd (omega arith)
  plan-ends (suc m) p (blob bytes false) h = calls-fixed m _ refl
  plan-ends m p (glob c) h = cursor-ends m p c.current_file c.pending_files c.emitted_in_current h

  -- From any state of the producer, whatever its plan, its cursor and the files: after as many calls of `next_batch` as it has files left, or one for a blob that is not read yet, every further call says that the scan is finished.
  pub next_batch-finished :
      (p : Producer) (m : ℕ)
      → calls_left p.plan ≤ m
      → (next_batch A N fs (calls A N fs m p)).0 ≡ finished
  next_batch-finished p m h = plan-ends m p p.plan h
