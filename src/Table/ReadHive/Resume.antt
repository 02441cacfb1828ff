-- ===== src/Table/ReadHive/Resume.antt =====
-- A scan that is interrupted between two batches and resumed from the encoded cursor.
use vgi_reghive.Base.{ℕ, zero, suc, ◌≤◌, ◌≡◌, refl, sym, ap, ◌∙◌, none, List, [], ◌∷◌, ◌++◌}
use vgi_reghive.Base.{arith, length, Bytes, Text}
use vgi_reghive.Hive.Notatin.{Notatin}
use vgi_reghive.Table.Files.{FileSystem}
use vgi_reghive.Cursor.{Serde, IsLossless, from_bytes, new, from_bytes-to_bytes}
use vgi_reghive.Arrow.{ArrowCrate}
use vgi_reghive.Table.ReadHive.{finished, restore_resume, Producer, next_batch, encode_resume}
use vgi_reghive.Table.ReadHive.{glob_loop, glob, Outcome}
use vgi_reghive.Table.ReadHive.Calls.{Finished, with_files, Called, live_results, ended, gave}
use vgi_reghive.Table.ReadHive.Calls.{next_batch-Called}
use vgi_reghive.Table.ReadHive.Scan.{scan, scan-live, after_call, after_call-handed}

back_nil {ℓ} : {A : Type ℓ} (xs ys : List A) → xs ++ ys ≡ [] → ys ≡ []
back_nil [] ys e = e
back_nil (x ∷ xs) ys e = cc

module _ (A : ArrowCrate) (N : Notatin) (fs : FileSystem) where
  -- The producer after `k` calls.
  unfoldable pub calls : ℕ → Producer → Producer
  calls zero p = p
  calls (suc k) p = calls k (next_batch A N fs p).1

  -- After any number of calls some files are left, and the results given are those of the others.
  record Progress (k : ℕ) (p : Producer) (files : List Text) : Type 0 where
    rest : List Text
    state : calls k (with_files A N fs p files) ≡ with_files A N fs p rest
    given :
        scan A N fs k (with_files A N fs p files) ++ live_results A N fs p rest
        ≡ live_results A N fs p files
    fewer : length rest ≤ length files

  calls-Progress : (k : ℕ) (p : Producer) (files : List Text) → Progress k p files
  unfolding calls scan
  calls-Progress zero p files = record {
    rest = files;
    state = refl;
    given = refl;
    fewer = omega arith;
  }
  calls-Progress (suc k) p files =
      go (next_batch-Called A N fs p files) (λ rest. calls-Progress k p rest)
    where
      go :
          Called A N fs p files (next_batch A N fs (with_files A N fs p files))
          → ((rest : List Text) → Progress k p rest)
          → Progress (suc k) p files
      go (ended live e) again =
          let more = again [] in
          record {
            rest = more.rest;
            state = ap (λ (t : Outcome A.Batch × Producer). calls k t.1) e ∙ more.state;
            given =
                ap
                  (λ (t : Outcome A.Batch × Producer).
                    after_call (scan A N fs k) t ++ live_results A N fs p more.rest)
                  e
                ∙ back_nil (scan A N fs k (with_files A N fs p [])) _ more.given
                ∙ sym live;
            fewer = omega (arith, more.fewer);
          }
      go (gave b rest live shorter e) again =
          let more = again rest in
          record {
            rest = more.rest;
            state = ap (λ (t : Outcome A.Batch × Producer). calls k t.1) e ∙ more.state;
            given =
                ap
                  (λ (t : Outcome A.Batch × Producer).
                    after_call (scan A N fs k) t ++ live_results A N fs p more.rest)
                  e
                ∙ ap (λ (t : List (Finished A N fs)). t ++ live_results A N fs p more.rest)
                    (after_call-handed (scan A N fs k) b _)
                ∙ ap (λ (t : List (Finished A N fs)). b ∷ t) more.given
                ∙ sym live;
            fewer = omega (arith, more.fewer);
          }

  module _ (S : Serde) where
    -- After resume bytes that are not empty and that serde_json refuses, the next call ends the
    -- scan, whatever the files of the glob.
    pub restore_resume_corrupt :
        (p : Producer) (files : List Text) (b : ℕ) (bytes : Bytes)
        → S.from_slice (b ∷ bytes) ≡ none
        → (next_batch A N fs (restore_resume S (with_files A N fs p files) (b ∷ bytes))).0
          ≡ finished
    unfolding restore_resume from_bytes next_batch glob_loop
    restore_resume_corrupt p files b bytes e = rw (e, from_bytes)

    module _ (lossless : IsLossless S) where
      restore-encode :
          (p : Producer) (files rest : List Text)
          → restore_resume S
              (with_files A N fs p files)
              (encode_resume S (with_files A N fs p rest))
            ≡ with_files A N fs p rest
      unfolding restore_resume encode_resume
      restore-encode p files rest =
          ap (λ c. record p { plan = glob c }) (from_bytes-to_bytes S lossless (new rest))

      -- Where serde_json reads back what it writes: after any number of calls on a glob, the results given so far and those of a fresh producer that resumes from the encoded state are together one result for each file of the glob that has rows, in order: what comes of finishing the batch of its rows, the batch or the error, where an error does not stop the calls.
      pub scan_resumed :
          (k : ℕ) (p : Producer) (files : List Text)
          → scan A N fs k (with_files A N fs p files)
              ++ scan A N fs (suc (length files)) (
                  restore_resume S
                    (with_files A N fs p files)
                    (encode_resume S (calls k (with_files A N fs p files))))
            ≡ live_results A N fs p files
      scan_resumed k p files =
          let g = calls-Progress k p files in
          ap
            (λ (q : Producer).
              scan A N fs k (with_files A N fs p files)
              ++ scan A N fs (suc (length files))
                  (restore_resume S (with_files A N fs p files) (encode_resume S q)))
            g.state
          ∙ ap
              (λ (q : Producer).
                scan A N fs k (with_files A N fs p files) ++ scan A N fs (suc (length files)) q)
              (restore-encode p files g.rest)
          ∙ ap (λ (t : List (Finished A N fs)). scan A N fs k (with_files A N fs p files) ++ t)
              (scan-live A N fs (suc (length files)) p g.rest (omega (arith, g.fewer)))
          ∙ g.given
