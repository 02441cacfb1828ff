-- ===== src/Scalar/Built.antt =====
-- The probes on a built hive: what they answer is what the spec of the hive says.
use vgi_reghive.Scalar.WellFormed.{root_of, well_formed_row, is_ok}
use vgi_reghive.Hive.Open.{open_blob}
use vgi_reghive.Base.{◌≡◌, ap, ◌∙◌, Bool, false, not, ◌&&◌, Option, some, [], arith, Bytes, Text}
use vgi_reghive.Base.{codes}
use mathlib.Core.Option
use vgi_reghive.BaseBlock.{BaseBlock, is_dirty, filetime_to_unix_micros}
use vgi_reghive.BaseBlock.Kinds.{WellFormedKind}
use vgi_reghive.Hive.Notatin.{Notatin}
use vgi_reghive.HiveGen.Spec.{HiveSpec, key_last_written}
use vgi_reghive.HiveGen.Build.{build}
use vgi_reghive.HiveGen.Build.RoundTrip.{IsSpec}
use vgi_reghive.HiveGen.Build.Parsed.{Shows, verdict, asks_dirty, parse-build}
use vgi_reghive.Base.Strings.{text_eq}
use vgi_reghive.Scalar.Io.{Cell}
use vgi_reghive.Scalar.HiveInfo.{HiveInfoRow, hive_info_row, info_of, as_u16}
use vgi_reghive.Scalar.LogsApplied.{LogsAppliedRow, Combined, combine, summaries_of, applied_row}
use vgi_reghive.Scalar.LogsApplied.{base_of}
use vgi_reghive.Scalar.Answers.{answer_of}

-- What `hive_info` is to answer.
pub record Tells (spec : HiveSpec) (r : HiveInfoRow) : Type 0 where
  pub major : r.major ≡ 1
  pub minor : r.minor ≡ as_u16 spec.minor
  pub primary_seq : r.primary_seq ≡ spec.primary_seq
  pub secondary_seq : r.secondary_seq ≡ spec.secondary_seq
  pub is_dirty : r.is_dirty ≡ asks_dirty spec
  pub last_written : r.last_written ≡ filetime_to_unix_micros (key_last_written spec.root)

info_of-Tells :
    (spec : HiveSpec) (bb : BaseBlock) (root : Option Text)
    → Shows spec bb
    → is_dirty bb ≡ asks_dirty spec
    → Tells spec (info_of bb root)
unfolding info_of
info_of-Tells spec bb root s d = record {
  major = ap as_u16 s.major;
  minor = ap as_u16 s.minor;
  primary_seq = s.primary_seq;
  secondary_seq = s.secondary_seq;
  is_dirty = d;
  last_written = ap filetime_to_unix_micros s.last_written;
}

is_ok-verdict : (spec : HiveSpec) → is_ok (verdict spec) ≡ not spec.corrupt_checksum
unfolding is_ok
is_ok-verdict spec = ground arith

-- What the logs are together.
abbrev pub logs_of : Cell → Cell → Combined
logs_of log1 log2 = combine (summaries_of log1 log2)

module _ (N : Notatin) where
  -- Of the blob of a spec, whatever the notatin crate makes of it, `well_formed` answers that it is well formed exactly unless the spec corrupts the checksum; `hive_info` answers the spec's numbers, time and dirtiness; and `logs_applied` answers that a replay applies exactly if the spec asks for a dirty hive and the logs have a format.
  pub probes-build :
      (spec : HiveSpec) (blob : Bytes) (log1 log2 : Cell)
      → IsSpec spec
      → build spec ≡ some blob
      → ((well_formed_row N (some blob)).ok ≡ some (not spec.corrupt_checksum))
        × ((r : HiveInfoRow) × (hive_info_row N (some blob) ≡ some r) × Tells spec r)
        × ((a : LogsAppliedRow) × (answer_of (some blob, log1, log2) ≡ some a)
            × (a.applied
                ≡ (asks_dirty spec && not (text_eq (logs_of log1 log2).fmt (codes "none")))))
  unfolding well_formed_row hive_info_row base_of applied_row
  probes-build spec blob log1 log2 h e =
      let (bb, parsed, s, d) = parse-build spec blob h e in
      let root = root_of (open_blob N blob false false []) in
      (
        ap (λ (t : Option BaseBlock × WellFormedKind). some (is_ok t.1)) parsed
            ∙ ap some (is_ok-verdict spec),
        (
          info_of bb root,
          ap (λ (t : Option BaseBlock × WellFormedKind). Option.map (λ b. info_of b root) t.0)
              parsed,
          info_of-Tells spec bb root s d,
        ),
        (
          applied_row bb (logs_of log1 log2),
          ap
              (λ (t : Option BaseBlock × WellFormedKind).
                Option.map (λ b. applied_row b (logs_of log1 log2)) t.0)
              parsed,
          ap (λ (t : Bool). t && not (text_eq (logs_of log1 log2).fmt (codes "none"))) d,
        ),
      )
