-- ===== src/Examples/Hives.antt =====
-- Opening, walking and the probes at concrete inputs.
use vgi_reghive.Base.{◌≤◌, ◌≡◌, refl, ◌≢◌, ◌↔◌, ◌⊎◌, inl, true, none, some, [], ◌∷◌, All, Bytes}
use vgi_reghive.Base.{codes, ◌++◌, Text}
use vgi_reghive.Examples.Samples.{blank_base, run_key, other_key, sample_notatin}
use vgi_reghive.BaseBlock.{BaseBlock, parse, is_dirty}
use vgi_reghive.Hive.Notatin.{Result}
use vgi_reghive.Hive.Open.{Opened, open_blob}
use vgi_reghive.Hive.Gate.{IsAdmitted, open_blob-ok_iff}
use vgi_reghive.Hive.Walk.{Context, all, walk_keys, subtree_match, backslash}
use vgi_reghive.Hive.Walk.Rows.{select, walk_keys-select}
use vgi_reghive.Hive.Walk.Marks.{IsMarked, walk_keys-IsMarked}
use vgi_reghive.Hive.Walk.Paths.{subtree_match_iff}
use vgi_reghive.Arrow.{binary}
use vgi_reghive.Scalar.LogsApplied.{Combined, applied_row, logs_row}
use vgi_reghive.Scalar.LogsApplied.Laws.{became_clean_iff, logs_row_swap}
use vgi_reghive.Base.Int.{pos}
use vgi_reghive.Base.Strings.{to_lower}

abbrev pub sample_context : Context
sample_context = record {
  root_name = codes "ROOT";
  hive_type = codes "SOFTWARE";
  source = codes "<blob>";
  mode = all;
  base_recovery = none;
  hive_diag = none;
}

walk_keys-select_example :
    walk_keys sample_context (some (codes "software")) (run_key ∷ other_key ∷ [])
    ≡ select (codes "software") (walk_keys sample_context none (run_key ∷ other_key ∷ []))
walk_keys-select_example =
    walk_keys-select sample_context (codes "software") (run_key ∷ other_key ∷ [])

walk_keys-IsMarked_example :
    All (IsMarked none) (walk_keys sample_context none (run_key ∷ other_key ∷ []))
walk_keys-IsMarked_example = walk_keys-IsMarked sample_context none (run_key ∷ other_key ∷ [])

open_blob-ok_iff_example :
    ((o : Opened Bytes) × (open_blob sample_notatin blank_base true true [] ≡ Result.ok o)) ↔ (
      IsAdmitted (parse blank_base).1
      × ((p : Bytes) × (sample_notatin.build blank_base true [] ≡ Result.ok p)))
open_blob-ok_iff_example = open_blob-ok_iff sample_notatin blank_base true true []

abbrev dirty_base : BaseBlock
dirty_base = record {
  primary_seq = 9;
  secondary_seq = 8;
  last_written_filetime = 0;
  major = 1;
  minor = 5;
  file_type = 0;
  root_cell_offset_relative = pos 32;
  hive_bins_data_size = 4096;
  filename = codes "SYSTEM";
  checksum_stored = 1;
  checksum_computed = 1;
}

abbrev newer_logs : Combined
newer_logs = record { entries = 2; dirty = 5; max_seq = 9; fmt = codes "new" }

became_clean_iff_example : ((applied_row dirty_base newer_logs).became_clean ≡ true) ↔ (
    (is_dirty dirty_base ≡ true)
    × (codes "new" ≢ codes "none")
    × ((codes "new" ≡ codes "old") ⊎ ((9 ≤ 9) × (8 ≤ 9))))
became_clean_iff_example = became_clean_iff dirty_base newer_logs

logs_row_swap_example :
    logs_row binary binary (some dirty_base) (some (codes "HvLE")) none
    ≡ logs_row binary binary (some dirty_base) none (some (codes "HvLE"))
logs_row_swap_example = logs_row_swap binary (some dirty_base) (some (codes "HvLE")) none (inl refl)

subtree_match_iff_example : (subtree_match (codes "Software\\Run") (codes "software") ≡ true) ↔ (
    (codes "software" ≡ [])
    ⊎ (to_lower (codes "Software\\Run") ≡ codes "software")
    ⊎ ((rest : Text) × (to_lower (codes "Software\\Run") ≡ codes "software" ++ backslash ∷ rest)))
subtree_match_iff_example = subtree_match_iff (codes "Software\\Run") (codes "software")
