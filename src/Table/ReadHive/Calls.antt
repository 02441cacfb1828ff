-- ===== src/Table/ReadHive/Calls.antt =====
-- One call of `next_batch` on a glob: it ends the scan, or gives what comes of finishing the batch of the
-- next file that has rows.
use vgi_reghive.Base.{ℕ, zero, suc, ◌<◌, ◌≡◌, refl, sym, ap, ◌∙◌, ◌≢◌, inl, inr, true, false}
use vgi_reghive.Base.{List, [], ◌∷◌, ◌++◌, arith, if◌then◌else◌, Bool-cases, length, Text}
use vgi_reghive.Table.ReadHive.{Outcome, finished, stuck, handed, glob, glob_loop, file_batch}
use vgi_reghive.Table.ReadHive.{Producer, next_batch, file_rows, Plan, enough_fuel}
use vgi_reghive.Arrow.{ArrowCrate}
use vgi_reghive.Hive.Notatin.{Notatin, Result, ok, err}
use vgi_reghive.Scalar.Io.{RpcError}
use vgi_reghive.Table.Files.{FileSystem}
use vgi_reghive.Cursor.{HiveGlobCursor, new, advance_file, is_exhausted}
use vgi_reghive.ArrowMap.{RowBatchBuilder, is_empty}
use vgi_reghive.ArrowMap.Finish.{finish}

handed-ne-stuck : {B : Type 0} (b : Result RpcError B) → handed b ≢ stuck
unfolding handed
handed-ne-stuck (ok b) e = cc
handed-ne-stuck (err m) e = cc

module _ (A : ArrowCrate) (N : Notatin) (fs : FileSystem) where
  -- A batch, or the error of finishing it.
  abbrev pub Finished : Type 0
  Finished = Result RpcError A.Batch

  abbrev pub kept : Producer → RowBatchBuilder → List Finished
  kept p b = if is_empty b then [] else finish A p.schema b ∷ []

  -- What the files should give.
  abbrev pub live_results : Producer → List Text → List Finished
  live_results p [] = []
  live_results p (f ∷ files) = kept p (file_batch N fs p f) ++ live_results p files

  abbrev pub with_files : Producer → List Text → Producer
  with_files p files = record p { plan = glob (new files) }

  -- The plan of a producer plays no part in what a file gives.
  live_results-with_files :
      (p : Producer) (plan : Plan) (files : List Text)
      → live_results (record p { plan = plan }) files ≡ live_results p files
  unfolding file_batch file_rows
  live_results-with_files p plan [] = refl
  live_results-with_files p plan (f ∷ files) =
      ap (λ (t : List Finished). kept p (file_batch N fs p f) ++ t)
        (live_results-with_files p plan files)

  -- How the loop over `files` ends.
  data Served (p : Producer) (files : List Text) (r : Outcome A.Batch × HiveGlobCursor)
      : Type 0 where
    nothing : live_results p files ≡ [] → r ≡ (finished, new []) → Served p files r
    one :
        (b : Finished) (rest : List Text)
        → live_results p files ≡ b ∷ live_results p rest
        → length rest < length files
        → r ≡ (handed b, new rest)
        → Served p files r

  -- A first file with rows is served at once; one with none leaves the loop to the files behind it.
  loop_rows :
      (fuel : ℕ) (p : Producer) (f : Text) (files : List Text)
      → is_empty (file_batch N fs p f) ≡ false
      → glob_loop A N fs (suc fuel) p (new (f ∷ files))
        ≡ (handed (finish A p.schema (file_batch N fs p f)), new files)
  unfolding glob_loop new advance_file
  loop_rows fuel p f files e = rw (e, glob_loop)

  loop_empty :
      (fuel : ℕ) (p : Producer) (f g : Text) (files : List Text)
      → is_empty (file_batch N fs p f) ≡ true
      → glob_loop A N fs (suc fuel) p (new (f ∷ g ∷ files))
        ≡ glob_loop A N fs fuel p (new (g ∷ files))
  unfolding glob_loop new advance_file is_exhausted
  loop_empty fuel p f g files e = rw (e, glob_loop)

  loop_last :
      (fuel : ℕ) (p : Producer) (f : Text)
      → is_empty (file_batch N fs p f) ≡ true
      → glob_loop A N fs (suc fuel) p (new (f ∷ [])) ≡ (finished, new [])
  unfolding glob_loop new advance_file is_exhausted
  loop_last fuel p f e = rw (e, glob_loop)

  loop-Served :
      (files : List Text) (fuel : ℕ) (p : Producer)
      → length files < fuel
      → Served p files (glob_loop A N fs fuel p (new files))
  loop-Served files zero p h = absurd (omega arith)
  loop-Served [] (suc fuel) p h = nothing refl (unfold glob_loop new in refl)
  loop-Served (f ∷ []) (suc fuel) p h = elim (Bool-cases (is_empty (file_batch N fs p f))) [
    | inr e ↦
        one (finish A p.schema (file_batch N fs p f)) [] (rw e) (omega arith)
          (loop_rows fuel p f [] e)
    | inl e ↦ nothing (rw e) (loop_last fuel p f e)
  ]
  loop-Served (f ∷ g ∷ files) (suc fuel) p h = elim (Bool-cases (is_empty (file_batch N fs p f))) [
    | inr e ↦
        one (finish A p.schema (file_batch N fs p f)) (g ∷ files) (rw e) (omega arith)
          (loop_rows fuel p f (g ∷ files) e)
    | inl e ↦
        rw (loop_empty fuel p f g files e)
          (skip_first f (g ∷ files) e (loop-Served (g ∷ files) fuel p (omega arith)))
  ]
    where
      skip_first :
          (f : Text) (rest : List Text)
          → is_empty (file_batch N fs p f) ≡ true
          → {r : Outcome A.Batch × HiveGlobCursor} → Served p rest r
          → Served p (f ∷ rest) r
      skip_first f rest e (nothing live r) = nothing (rw e live) r
      skip_first f rest e (one b more live shorter r) = one b more (rw e live) (omega arith) r

  -- One call on a glob either ends the scan or gives its next batch.
  pub data Called (p : Producer) (files : List Text) (r : Outcome A.Batch × Producer) : Type 0 where
    ended : live_results p files ≡ [] → r ≡ (finished, with_files p []) → Called p files r
    gave :
        (b : Finished) (rest : List Text)
        → live_results p files ≡ b ∷ live_results p rest
        → length rest < length files
        → r ≡ (handed b, with_files p rest)
        → Called p files r

  pub next_batch-Called :
      (p : Producer) (files : List Text) → Called p files (next_batch A N fs (with_files p files))
  unfolding next_batch
  next_batch-Called p files =
      of_loop _ refl
        (loop-Served files (enough_fuel (new files)) (with_files p files) (bound files))
    where
      bound : (l : List Text) → length l < enough_fuel (new l)
      bound [] = unfold new in omega arith
      bound (f ∷ l) = unfold new in omega arith

      of_loop :
          (r : Outcome A.Batch × HiveGlobCursor)
          → r ≡ glob_loop A N fs (enough_fuel (new files)) (with_files p files) (new files)
          → Served (with_files p files) files r
          → Called p files (r.0, record p { plan = glob r.1 })
      of_loop r e (nothing live q) =
          ended (sym (live_results-with_files p _ files) ∙ live)
            (ap (λ (t : Outcome A.Batch × HiveGlobCursor). (t.0, record p { plan = glob t.1 })) q)
      of_loop r e (one b rest live shorter q) =
          gave b rest
            (sym (live_results-with_files p _ files)
              ∙ live
              ∙ ap (λ (t : List Finished). b ∷ t) (live_results-with_files p _ rest))
            shorter
            (ap (λ (t : Outcome A.Batch × HiveGlobCursor). (t.0, record p { plan = glob t.1 })) q)

  -- A call of `next_batch` on a glob comes to a batch or to the end: its loop has fuel enough.
  pub next_batch-ne-stuck :
      (p : Producer) (files : List Text) → (next_batch A N fs (with_files p files)).0 ≢ stuck
  next_batch-ne-stuck p files s = elim (next_batch-Called p files) [
    | ended live e ↦ cc (ap (λ (t : Outcome A.Batch × Producer). t.0) e)
    | gave b rest live shorter e ↦
        handed-ne-stuck b (sym (ap (λ (t : Outcome A.Batch × Producer). t.0) e) ∙ s)
  ]
