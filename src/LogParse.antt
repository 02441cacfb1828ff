-- ===== src/LogParse.antt =====
-- Transaction-log inspection, crates/reghive-core/src/logparse.rs: the detected format and the walk
-- over the `HvLE` entries. The proofs are in the modules below.
pub mod Format
pub mod Stream
pub mod Bounds
use Format.{LogFormat, absent, old, new, label}
use vgi_reghive.Base.{ℕ, zero, suc, ◌+◌, max, Bool, true, false, not, ◌&&◌, ◌||◌, Option, none}
use vgi_reghive.Base.{some, [], ◌∷◌, Bytes, Text, codes, length, slice, ltb, leb, if◌then◌else◌}
use vgi_reghive.Base.{unwrap_or}
use vgi_reghive.Base.Words.{from_le, sat_add32, checked_add64}
use vgi_reghive.Base.Strings.{text_eq}
use vgi_reghive.BaseBlock.{regf_signature, base_block_len, rd_u32}
use mathlib.Core.Option

abbrev pub hvle_signature : Bytes
hvle_signature = codes "HvLE"

pub record LogSummary : Type 0 where
  pub format_label : Text
  pub entries : ℕ
  pub dirty_pages : ℕ
  pub max_sequence : ℕ

-- The variables of the walk.
pub record Counts : Type 0 where
  pub entries : ℕ
  pub dirty_pages : ℕ
  pub max_sequence : ℕ

-- `blob.get(off..off + 4) == Some(sig)`
unfoldable pub has_signature : Bytes → ℕ → Bytes → Bool
has_signature blob off sig = elim (slice blob off 4) [ none ↦ false | some s ↦ text_eq s sig ]

unfoldable pub count_entry : Bytes → ℕ → Counts → Counts
count_entry blob off c = record {
  entries = sat_add32 c.entries 1;
  dirty_pages = sat_add32 c.dirty_pages (unwrap_or (rd_u32 blob (off + 20)) 0);
  max_sequence = max c.max_sequence (unwrap_or (rd_u32 blob (off + 12)) 0);
}

-- The declared size, if it is one that the walk accepts.
unfoldable pub entry_size : Bytes → ℕ → Option ℕ
entry_size blob off = elim (rd_u32 blob (off + 4)) [
  | none ↦ none
  | some s ↦ if leb 40 s then some s else none
]

-- `match off.checked_add(size) { Some(next) if next > off => …, _ => break }`
unfoldable pub next_offset : ℕ → ℕ → Option ℕ
unfolding checked_add64
next_offset off size = elim (checked_add64 off size) [
  | none ↦ none
  | some next ↦ if ltb off next then some next else none
]

-- The body of the loop: the counts, and the offset of the next round unless it breaks.
unfoldable pub walk_step : Bytes → ℕ → Counts → Counts × Option ℕ
unfolding next_offset
walk_step blob off c =
    if not (has_signature blob off hvle_signature) then (c, none) else elim (entry_size blob off) [
      | none ↦ (c, none)
      | some size ↦ (count_entry blob off c, next_offset off size)
    ]

-- The loop, with the rounds that the guard leaves.
unfoldable pub walk_entries : ℕ → Bytes → ℕ → Counts → Counts
walk_entries zero blob off c = c
walk_entries (suc n) blob off c = elim (leb (off + 40) (length blob)) [
  | false ↦ c
  | true ↦
      let (c', next) = walk_step blob off c in
      elim next [ none ↦ c' | some off' ↦ walk_entries n blob off' c' ]
]

abbrev pub max_rounds : ℕ
max_rounds = 1_000_000

abbrev pub no_counts : Counts
no_counts = record { entries = 0; dirty_pages = 0; max_sequence = 0 }

unfoldable pub summary_of : LogFormat → Counts → LogSummary
summary_of f c = record {
  format_label = label f;
  entries = c.entries;
  dirty_pages = c.dirty_pages;
  max_sequence = c.max_sequence;
}

unfoldable pub summarize_new : Bytes → LogSummary
unfolding summary_of
summarize_new blob =
    let c = walk_entries max_rounds blob base_block_len no_counts in
    summary_of (if ltb 0 c.entries then new else old) c

unfoldable pub summarize : Bytes → LogSummary
unfolding summarize_new
summarize blob =
    if ltb (length blob) base_block_len || not (has_signature blob 0 regf_signature)
    then summary_of absent no_counts
    else if has_signature blob base_block_len hvle_signature
    then summarize_new blob
    else summary_of old no_counts
