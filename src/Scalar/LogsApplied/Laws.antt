-- ===== src/Scalar/LogsApplied/Laws.antt =====
-- The verdict of `logs_applied`: when the logs make a dirty hive clean, and that their order plays no
-- part.
use vgi_reghive.Base.{ℕ, ◌≤◌, max, ◌≡◌, refl, ap, ◌≢◌, ◌↔◌, ◌⊎◌, true, Option, none, some, []}
use vgi_reghive.Base.{◌∷◌, arith, Text, codes}
use vgi_reghive.BaseBlock.{BaseBlock, is_dirty}
use vgi_reghive.LogParse.{LogSummary, summarize}
use vgi_reghive.Hive.Notatin.{Result}
use vgi_reghive.Base.Words.{sat_add32}
use vgi_reghive.Base.Strings.{text_eq, text_eq_iff}
use vgi_reghive.Scalar.Io.{Cell, IsBinary, blob_val_binary}
use vgi_reghive.Arrow.{DataType}
use vgi_reghive.Scalar.LogsApplied.{Combined, combine, combine_step, combine_format, summaries_of}
use vgi_reghive.Scalar.LogsApplied.{applied_row, logs_row}

-- `became_clean` is set exactly where the hive is dirty, the combined format is not `none`, and it
-- is `old` or the highest sequence number of the logs reaches both numbers of the hive.
pub became_clean_iff :
    (base : BaseBlock) (c : Combined)
    → ((applied_row base c).became_clean ≡ true) ↔ (
        (is_dirty base ≡ true)
        × (c.fmt ≢ codes "none")
        × ((c.fmt ≡ codes "old")
            ⊎ ((base.primary_seq ≤ c.max_seq) × (base.secondary_seq ≤ c.max_seq))))
unfolding applied_row
became_clean_iff base c =
    ground (arith, text_eq_iff c.fmt (codes "none"), text_eq_iff c.fmt (codes "old"))

sat_add32_swap : (a b : ℕ) → sat_add32 (sat_add32 0 a) b ≡ sat_add32 (sat_add32 0 b) a
unfolding sat_add32
sat_add32_swap a b = ground arith

max_swap : (a b : ℕ) → max (max 0 a) b ≡ max (max 0 b) a
max_swap a b = omega arith

combine_format_swap :
    (a b : Text)
    → combine_format b (combine_format a (codes "none"))
      ≡ combine_format a (combine_format b (codes "none"))
unfolding combine_format text_eq
combine_format_swap a b = ground arith

combine_swap : (s t : LogSummary) → combine (s ∷ t ∷ []) ≡ combine (t ∷ s ∷ [])
unfolding combine combine_step
combine_swap s t =
    rw
      (
        sat_add32_swap s.entries t.entries,
        sat_add32_swap s.dirty_pages t.dirty_pages,
        max_swap s.max_sequence t.max_sequence,
        combine_format_swap s.format_label t.format_label,
      )
      refl

summaries_swap : (l1 l2 : Cell) → combine (summaries_of l1 l2) ≡ combine (summaries_of l2 l1)
unfolding summaries_of
summaries_swap none none = refl
summaries_swap none (some b) = refl
summaries_swap (some a) none = refl
summaries_swap (some a) (some b) = combine_swap (summarize a) (summarize b)

-- Where both log columns have the same type, one of blobs, the answer does not depend on which of
-- them holds which log.
pub logs_row_swap :
    (t : DataType) (base : Option BaseBlock) (log1 log2 : Cell)
    → IsBinary t
    → logs_row t t base log1 log2 ≡ logs_row t t base log2 log1
unfolding logs_row
logs_row_swap t none log1 log2 b = refl
logs_row_swap t (some base) log1 log2 b =
    rw (blob_val_binary t log1 b, blob_val_binary t log2 b)
      (ap (λ c. Result.ok (some (applied_row base c))) (summaries_swap log1 log2))
