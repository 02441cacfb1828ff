-- ===== src/Examples/Formats.antt =====
-- The base block and the logs at concrete inputs.
use vgi_reghive.Base.{ℕ, ◌+◌, ◌*◌, ◌/◌, ◌≤◌, ◌<◌, ◌≡◌, refl, ap, ◌↔◌, ◌⊎◌, inl, none, [], ◌∷◌}
use vgi_reghive.Base.{◌++◌, arith, length, replicate, slice-append_at, length-replicate, codes}
use vgi_reghive.Examples.Samples.{blank_base, first_entry, second_entry}
use vgi_reghive.BaseBlock.{parse, filetime_to_unix_micros, regf_signature, base_block_len}
use vgi_reghive.BaseBlock.Kinds
use vgi_reghive.BaseBlock.Classes.{IsPrimaryHive, IsSigned, parse-ok_iff, parse-none_iff}
use vgi_reghive.BaseBlock.Times.{filetime_to_unix_micros_exact}
use vgi_reghive.Base.Int.{sub_ℕ}
use vgi_reghive.Base.Words.{to_le}
use vgi_reghive.LogParse.{summarize, walk_entries, max_rounds, no_counts}
use vgi_reghive.LogParse.Format.{label, new}
use vgi_reghive.LogParse.Stream.{IsStream, IsLogEntry, put_entries, summarize-stream}
use vgi_reghive.LogParse.Bounds.{summarize-bound, walk_entries-guard}

blank_base_len : length blank_base ≡ 4096
blank_base_len = ap (λ (n : ℕ). 4 + n) (length-replicate {A = ℕ} 4092 0)

parse-ok_iff_example : ((parse blank_base).1 ≡ Kinds.ok) ↔ IsPrimaryHive blank_base
parse-ok_iff_example = parse-ok_iff blank_base

parse-none_iff_example :
    ((parse (codes "regf")).0 ≡ none) ↔ ((length (codes "regf") < 8) ⊎ (¬ IsSigned (codes "regf")))
parse-none_iff_example = parse-none_iff (codes "regf")

filetime_to_unix_micros_exact_example :
    filetime_to_unix_micros 133_444_736_000_000_000
    ≡ sub_ℕ (133_444_736_000_000_000 / 10) (11_644_473_600 * 1_000_000)
filetime_to_unix_micros_exact_example =
    filetime_to_unix_micros_exact 133_444_736_000_000_000 (omega arith)

first_entry-IsLogEntry : IsLogEntry first_entry
first_entry-IsLogEntry = record {
  sequence_fits = omega arith;
  pages_fit = omega arith;
  size_fits = omega arith;
  hash_len = refl;
}

second_entry-IsLogEntry : IsLogEntry second_entry
second_entry-IsLogEntry = record {
  sequence_fits = omega arith;
  pages_fit = omega arith;
  size_fits = omega arith;
  hash_len = refl;
}

sample-IsStream : IsStream blank_base (first_entry ∷ second_entry ∷ []) []
sample-IsStream = record {
  base_len = blank_base_len;
  signed = slice-append_at [] regf_signature (replicate 4092 0);
  entries = (first_entry-IsLogEntry, (second_entry-IsLogEntry, tt));
  some_entry = omega arith;
  few = omega arith;
  ends = inl (omega arith);
  fits = unfold to_le in omega arith;
}

summarize-stream_example :
    summarize (blank_base ++ put_entries (first_entry ∷ second_entry ∷ []) [])
    ≡ record { format_label = label new; entries = 2; dirty_pages = 5; max_sequence = 8 }
summarize-stream_example =
    summarize-stream blank_base (first_entry ∷ second_entry ∷ []) [] sample-IsStream

summarize-bound_example :
    ((summarize blank_base).entries ≡ 0)
    ⊎ (base_block_len + 40 * (summarize blank_base).entries ≤ length blank_base)
summarize-bound_example = summarize-bound blank_base

walk_entries-guard_example :
    walk_entries (max_rounds + 5) blank_base base_block_len no_counts
    ≡ walk_entries max_rounds blank_base base_block_len no_counts
walk_entries-guard_example =
    walk_entries-guard 5 blank_base no_counts (omega (arith, blank_base_len))
