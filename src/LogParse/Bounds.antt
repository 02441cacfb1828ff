-- ===== src/LogParse/Bounds.antt =====
-- The walk on any bytes: it stays within the blob, it ends by itself, and the label tells the counts.
use vgi_reghive.Base.{ℕ, zero, suc, ◌+◌, Bytes, ◌≤◌, ◌≡◌, ◌*◌, length, ◌<◌, some, arith}
use vgi_reghive.Base.{Bool-cases, leb, inl, lt→leb, Option, ◌⊎◌, ap, ◌∙◌, leb→le, sym, inr, none}
use vgi_reghive.Base.{refl, ◌↔◌}
use vgi_reghive.LogParse.{walk_step, walk_entries, count_entry, entry_size, Counts, summarize}
use vgi_reghive.LogParse.{base_block_len, summary_of, max_rounds, no_counts, new}
use vgi_reghive.Base.Words.{sat_add32_lem}
use vgi_reghive.LogParse.Stream.{after_step, walk_entries-suc}
use vgi_reghive.LogParse.Format.{label}

-- A round that goes on moves by 40 bytes at least, and counts one entry at most.
walk_step-moves :
    (blob : Bytes) (off : ℕ) (c c' : Counts) (off' : ℕ)
    → walk_step blob off c ≡ (c', some off')
    → (off + 40 ≤ off') × (c'.entries ≤ c.entries + 1)
unfolding walk_step count_entry entry_size
walk_step-moves blob off c c' off' e = ground (arith, sat_add32_lem c.entries 1)

walk_step-counts :
    (blob : Bytes) (off : ℕ) (c : Counts) → (walk_step blob off c).0.entries ≤ c.entries + 1
unfolding walk_step count_entry
walk_step-counts blob off c = ground (arith, sat_add32_lem c.entries 1)

-- Counted entries lie one behind another, with 40 bytes each, between `base` and the end.
walk_entries-bound :
    (n : ℕ) (blob : Bytes) (off base : ℕ) (c : Counts)
    → base + 40 * c.entries ≤ off
    → base + 40 * c.entries ≤ length blob
    → base + 40 * (walk_entries n blob off c).entries ≤ length blob
unfolding walk_entries
walk_entries-bound zero blob off base c h k = k
walk_entries-bound (suc n) blob off base c h k = elim (Bool-cases (leb (off + 40) (length blob))) [
  | inl t ↦ rw (walk_entries-suc n blob off c t) (
      go (walk_step blob off c) refl (leb→le _ _ t)
        (λ off' c'. walk_entries-bound n blob off' base c'))
  | inr f ↦ rw (f, walk_entries) k
]
  where
    go :
        (p : Counts × Option ℕ)
        → walk_step blob off c ≡ p
        → off + 40 ≤ length blob
        → ((off' : ℕ) (c' : Counts)
            → base + 40 * c'.entries ≤ off'
            → base + 40 * c'.entries ≤ length blob
            → base + 40 * (walk_entries n blob off' c').entries ≤ length blob)
        → base + 40 * (after_step n blob p).entries ≤ length blob
    go (c', none) e inside rec = let counted = rw e at (walk_step-counts blob off c) in omega arith
    go (c', some off') e inside rec =
        let (moves, counted) = walk_step-moves blob off c c' off' e in
        rec off' c' (omega arith) (omega arith)

-- Rounds that the walk does not need change nothing.
walk_entries-enough :
    (n more : ℕ) (blob : Bytes) (off : ℕ) (c : Counts)
    → length blob < off + 40 * (n + 1)
    → walk_entries (n + more) blob off c ≡ walk_entries n blob off c
unfolding walk_entries
walk_entries-enough zero zero blob off c h = refl
walk_entries-enough zero (suc more) blob off c h =
    ap (λ (k : ℕ). walk_entries k blob off c) (let e : 0 + suc more ≡ suc more = omega arith in e)
    ∙ rw (lt→leb (off + 40) (length blob) (omega arith), walk_entries)
walk_entries-enough (suc n) more blob off c h = elim (Bool-cases (leb (off + 40) (length blob))) [
  | inl t ↦
      ap (λ (k : ℕ). walk_entries k blob off c)
        (let e : suc n + more ≡ suc (n + more) = omega arith in e)
      ∙ walk_entries-suc (n + more) blob off c t
      ∙ go (walk_step blob off c) refl (λ off' c'. walk_entries-enough n more blob off' c')
      ∙ sym (walk_entries-suc n blob off c t)
  | inr f ↦
      ap (λ (k : ℕ). walk_entries k blob off c)
        (let e : suc n + more ≡ suc (n + more) = omega arith in e)
      ∙ rw (f, walk_entries)
]
  where
    go :
        (p : Counts × Option ℕ)
        → walk_step blob off c ≡ p
        → ((off' : ℕ) (c' : Counts)
            → length blob < off' + 40 * (n + 1)
            → walk_entries (n + more) blob off' c' ≡ walk_entries n blob off' c')
        → after_step (n + more) blob p ≡ after_step n blob p
    go (c', none) e rec = refl
    go (c', some off') e rec =
        let (moves, counted) = walk_step-moves blob off c c' off' e in rec off' c' (omega arith)

-- Whatever the bytes, `summarize` counts no entry, or entries that fit behind the base block with
-- 40 bytes each.
pub summarize-bound :
    (blob : Bytes)
    → ((summarize blob).entries ≡ 0)
      ⊎ (base_block_len + 40 * (summarize blob).entries ≤ length blob)
unfolding summarize summary_of
summarize-bound blob =
    ground (arith, walk_entries-bound max_rounds blob base_block_len base_block_len no_counts)

-- On a blob shorter than a base block and 40,000,040 bytes, a guard larger than a million rounds
-- gives the same counts: the guard cuts no walk short.
pub walk_entries-guard :
    (more : ℕ) (blob : Bytes) (c : Counts)
    → length blob < base_block_len + 40_000_040
    → walk_entries (max_rounds + more) blob base_block_len c
      ≡ walk_entries max_rounds blob base_block_len c
walk_entries-guard more blob c h =
    walk_entries-enough max_rounds more blob base_block_len c (omega arith)

-- `summarize` gives the format `new` exactly where it counts an entry.
pub summarize-label_iff :
    (blob : Bytes) → ((summarize blob).format_label ≡ label new) ↔ (1 ≤ (summarize blob).entries)
unfolding summarize summary_of label
summarize-label_iff blob = ground arith
