-- ===== src/LogParse/Stream.antt =====
-- What the walk counts on a log that was written as a stream of entries.
use vgi_reghive.Base.{ℕ, ◌+◌, ◌^◌, ◌<◌, max, ◌≡◌, refl, ap, ◌∙◌, arith, Option, none, some, true}
use vgi_reghive.Base.{false, List, [], ◌∷◌, ◌++◌, Bytes, length, ◌⊎◌, slice, slice-append_skip}
use vgi_reghive.Base.{slice-append_at, length-append, append_assoc, append-nil, suc, le→leb, inl}
use vgi_reghive.Base.{All, ◌≤◌, lt→leb, sym, inr, Bool-cases, leb, zero, min, slice-append}
use vgi_reghive.Base.Words.{to_le, length-to_le, sat_add32, checked_add64, u32_max, sat_add32_lem}
use vgi_reghive.Base.Strings.{text_eq, text_eq_refl}
use vgi_reghive.BaseBlock.{rd_u32, base_block_len, regf_signature}
use vgi_reghive.BaseBlock.Reads.{rd_u32-behind, rd_u32-word, rd_u32-skip}
use vgi_reghive.LogParse.{has_signature, hvle_signature, Counts, walk_step, walk_entries}
use vgi_reghive.LogParse.{entry_size, count_entry, summarize, summary_of, max_rounds, label, new}
use vgi_reghive.LogParse.{summarize_new, no_counts}

-- A log entry as the format has it: the header of 40 bytes, then the references and pages.
pub record LogEntry : Type 0 where
  pub flags : ℕ
  pub sequence : ℕ
  pub bins_size : ℕ
  pub dirty_pages : ℕ
  pub hashes : Bytes
  pub body : Bytes

pub record IsLogEntry (e : LogEntry) : Type 0 where
  pub sequence_fits : e.sequence < 2 ^ 32
  pub pages_fit : e.dirty_pages < 2 ^ 32
  pub size_fits : 40 + length e.body < 2 ^ 32
  pub hash_len : length e.hashes ≡ 16

-- The entry, written in front of `rest`.
abbrev pub put_entry : LogEntry → Bytes → Bytes
put_entry e rest =
    hvle_signature
    ++ (to_le 4 (40 + length e.body)
        ++ (to_le 4 e.flags
            ++ (to_le 4 e.sequence
                ++ (to_le 4 e.bins_size
                    ++ (to_le 4 e.dirty_pages ++ (e.hashes ++ (e.body ++ rest)))))))

abbrev pub put_entries : List LogEntry → Bytes → Bytes
put_entries [] tail = tail
put_entries (e ∷ es) tail = put_entry e (put_entries es tail)

-- What a reader of the entries would count.
abbrev pub page_total : List LogEntry → ℕ
page_total [] = 0
page_total (e ∷ es) = e.dirty_pages + page_total es

abbrev pub top_sequence : List LogEntry → ℕ
top_sequence [] = 0
top_sequence (e ∷ es) = max e.sequence (top_sequence es)

-- Nothing that follows is taken for an entry.
abbrev pub EndsStream : Bytes → Type 0
EndsStream tail = (length tail < 40) ⊎ (has_signature tail 0 hvle_signature ≡ false)

has_signature_read :
    (blob : Bytes) (off : ℕ) (sig : Bytes) {s : Bytes}
    → slice blob off 4 ≡ some s
    → has_signature blob off sig ≡ text_eq s sig
unfolding has_signature
has_signature_read blob off sig h =
    ap (λ (o : Option Bytes). elim o [ none ↦ false | some s ↦ text_eq s sig ]) h

has_signature-skip :
    (front back sig : Bytes)
    → has_signature (front ++ back) (length front) sig ≡ has_signature back 0 sig
unfolding has_signature
has_signature-skip front back sig =
    let e : length front ≡ length front + 0 = omega arith in
    ap (λ (o : Option Bytes). elim o [ none ↦ false | some s ↦ text_eq s sig ])
      (ap (λ (n : ℕ). slice (front ++ back) n 4) e ∙ slice-append_skip front back 0 4)

module _ (e : LogEntry) (ok : IsLogEntry e) (rest : Bytes) where
  entry_word_4 : rd_u32 (put_entry e rest) 4 ≡ some (40 + length e.body)
  entry_word_4 = rd_u32-behind hvle_signature _ 4 0 refl ∙ rd_u32-word _ _ ok.size_fits

  entry_word_12 : rd_u32 (put_entry e rest) 12 ≡ some e.sequence
  entry_word_12 =
      rd_u32-behind hvle_signature _ 4 8 refl
      ∙ rd_u32-behind (to_le 4 _) _ 4 4 (length-to_le 4 _)
      ∙ rd_u32-behind (to_le 4 _) _ 4 0 (length-to_le 4 _)
      ∙ rd_u32-word _ _ ok.sequence_fits

  entry_word_20 : rd_u32 (put_entry e rest) 20 ≡ some e.dirty_pages
  entry_word_20 =
      rd_u32-behind hvle_signature _ 4 16 refl
      ∙ rd_u32-behind (to_le 4 _) _ 4 12 (length-to_le 4 _)
      ∙ rd_u32-behind (to_le 4 _) _ 4 8 (length-to_le 4 _)
      ∙ rd_u32-behind (to_le 4 _) _ 4 4 (length-to_le 4 _)
      ∙ rd_u32-behind (to_le 4 _) _ 4 0 (length-to_le 4 _)
      ∙ rd_u32-word _ _ ok.pages_fit

  entry_signed : has_signature (put_entry e rest) 0 hvle_signature ≡ true
  unfolding text_eq
  entry_signed =
      has_signature_read (put_entry e rest) 0 hvle_signature (slice-append_at [] hvle_signature _)

  length-put_entry : length (put_entry e rest) ≡ 40 + length e.body + length rest
  length-put_entry = omega (arith, ok.hash_len, length-append {0}, length-to_le)

  -- Entries can be split off: what stands before them is a longer front.
  put_entry-append : put_entry e rest ≡ put_entry e [] ++ rest
  put_entry-append = simp (append_assoc, append-nil)

abbrev add_counts : LogEntry → Counts → Counts
add_counts e c = record {
  entries = sat_add32 c.entries 1;
  dirty_pages = sat_add32 c.dirty_pages e.dirty_pages;
  max_sequence = max c.max_sequence e.sequence;
}

module _ (e : LogEntry) (ok : IsLogEntry e) (front rest : Bytes) (c : Counts) where
  abbrev log_bytes : Bytes
  log_bytes = front ++ put_entry e rest

  count_entry-put : count_entry log_bytes (length front) c ≡ add_counts e c
  unfolding count_entry
  count_entry-put = rw (
    rd_u32-skip front (put_entry e rest) 20,
    rd_u32-skip front (put_entry e rest) 12,
    entry_word_20 e ok rest,
    entry_word_12 e ok rest,
  )

  entry_size-put : entry_size log_bytes (length front) ≡ some (40 + length e.body)
  unfolding entry_size
  entry_size-put =
      rw (rd_u32-skip front (put_entry e rest) 4, entry_word_4 e ok rest, entry_size)
        (rw (le→leb 40 (40 + length e.body) (omega arith)))

  walk_step-put :
      length log_bytes < 2 ^ 64
      → walk_step log_bytes (length front) c
        ≡ (add_counts e c, some (length front + (40 + length e.body)))
  unfolding walk_step checked_add64
  walk_step-put fits =
      rw
        (
          has_signature-skip front (put_entry e rest) hvle_signature,
          entry_signed e ok rest,
          entry_size-put,
          count_entry-put,
        )
        (ground (arith, length-put_entry e ok rest, length-append front (put_entry e rest)))

  walk_entries-put :
      (n : ℕ)
      → length log_bytes < 2 ^ 64
      → walk_entries (suc n) log_bytes (length front) c
        ≡ walk_entries n log_bytes (length front + (40 + length e.body)) (add_counts e c)
  unfolding walk_entries
  walk_entries-put n fits =
      rw
        (
          le→leb (length front + 40) (length log_bytes)
              (omega (arith, length-put_entry e ok rest, length-append front (put_entry e rest))),
          walk_step-put fits,
          walk_entries,
        )
        (rw (walk_step-put fits))

-- What the loop does with the outcome of its body.
abbrev pub after_step : ℕ → Bytes → Counts × Option ℕ → Counts
after_step n blob (c, none) = c
after_step n blob (c, some off) = walk_entries n blob off c

pub walk_entries-suc :
    (n : ℕ) (blob : Bytes) (off : ℕ) (c : Counts)
    → leb (off + 40) (length blob) ≡ true
    → walk_entries (suc n) blob off c ≡ after_step n blob (walk_step blob off c)
unfolding walk_entries
walk_entries-suc n blob off c t = rw (t, walk_entries)

walk_step-end :
    (front tail : Bytes) (c : Counts)
    → has_signature tail 0 hvle_signature ≡ false
    → walk_step (front ++ tail) (length front) c ≡ (c, none)
unfolding walk_step
walk_step-end front tail c other = rw (has_signature-skip front tail hvle_signature, other)

-- Where nothing is taken for an entry the walk ends with the counts that it has.
walk_entries-end :
    (n : ℕ) (front tail : Bytes) (c : Counts)
    → EndsStream tail
    → walk_entries n (front ++ tail) (length front) c ≡ c
unfolding walk_entries
walk_entries-end zero front tail c h = refl
walk_entries-end (suc n) front tail c (inl short) = rw (
  lt→leb (length front + 40) (length (front ++ tail)) (omega (arith, length-append front tail)),
  walk_entries,
)
walk_entries-end (suc n) front tail c (inr other) =
    elim (Bool-cases (leb (length front + 40) (length (front ++ tail)))) [
      | inl t ↦
          walk_entries-suc n (front ++ tail) (length front) c t
          ∙ ap (after_step n (front ++ tail)) (walk_step-end front tail c other)
      | inr f ↦ rw (f, walk_entries)
    ]

abbrev counts_of : List LogEntry → Counts → Counts
counts_of [] c = c
counts_of (e ∷ es) c = counts_of es (add_counts e c)

-- The walk over a stream counts each of its entries once, in order.
walk_entries-stream :
    (es : List LogEntry) (n : ℕ) (front tail : Bytes) (c : Counts)
    → All IsLogEntry es
    → EndsStream tail
    → length es ≤ n
    → length (front ++ put_entries es tail) < 2 ^ 64
    → walk_entries n (front ++ put_entries es tail) (length front) c ≡ counts_of es c
walk_entries-stream [] n front tail c h t le fits = walk_entries-end n front tail c t
walk_entries-stream (e ∷ es) zero front tail c h t le fits = absurd (omega arith)
walk_entries-stream (e ∷ es) (suc n) front tail c (he, h) t le fits =
    walk_entries-put e he front rest c n fits
    ∙ rw (offset, regroup)
        (walk_entries-stream es n (front ++ put_entry e []) tail (add_counts e c) h t (omega arith)
          (rw (← regroup) fits))
  where
    rest : Bytes
    rest = put_entries es tail

    regroup : front ++ put_entry e rest ≡ (front ++ put_entry e []) ++ rest
    regroup =
        ap (λ (t : Bytes). front ++ t) (put_entry-append e he rest)
        ∙ sym (append_assoc front (put_entry e []) rest)

    offset : length front + (40 + length e.body) ≡ length (front ++ put_entry e [])
    offset = omega (arith, length-append front (put_entry e []), length-put_entry e he [])

-- Counters that start at 0 saturate at the end as they do on the way.
counts_of-fields :
    (es : List LogEntry) (c : Counts)
    → c.entries ≤ u32_max
    → c.dirty_pages ≤ u32_max
    → ((counts_of es c).entries ≡ min (c.entries + length es) u32_max)
      × ((counts_of es c).dirty_pages ≡ min (c.dirty_pages + page_total es) u32_max)
      × ((counts_of es c).max_sequence ≡ max c.max_sequence (top_sequence es))
counts_of-fields [] c h k = omega arith
counts_of-fields (e ∷ es) c h k = omega (
  arith,
  sat_add32_lem c.entries 1,
  sat_add32_lem c.dirty_pages e.dirty_pages,
  counts_of-fields es (add_counts e c) (omega (arith, sat_add32_lem c.entries 1))
      (omega (arith, sat_add32_lem c.dirty_pages e.dirty_pages)),
)

-- A log file: a signed base block, then a stream of one or more entries that the guard allows, then
-- bytes that are no entry.
pub record IsStream (base : Bytes) (es : List LogEntry) (tail : Bytes) : Type 0 where
  pub base_len : length base ≡ base_block_len
  pub signed : slice base 0 4 ≡ some regf_signature
  pub entries : All IsLogEntry es
  pub some_entry : 1 ≤ length es
  pub few : length es ≤ max_rounds
  pub ends : EndsStream tail
  pub fits : length (base ++ put_entries es tail) < 2 ^ 64

summarize-as_new :
    (blob : Bytes)
    → base_block_len ≤ length blob
    → has_signature blob 0 regf_signature ≡ true
    → has_signature blob base_block_len hvle_signature ≡ true
    → summarize blob ≡ summarize_new blob
unfolding summarize
summarize-as_new blob h s k = ground arith

summarize_new-entries :
    (blob : Bytes) (c : Counts)
    → walk_entries max_rounds blob base_block_len no_counts ≡ c
    → 1 ≤ c.entries
    → summarize_new blob ≡ summary_of new c
unfolding summarize_new
summarize_new-entries blob c w h = rw w (ground arith)

-- On a signed base block, followed by well-formed entries, one at least and a million at most, and
-- then by no further entry, of fewer than 2^64 bytes together, `summarize` gives the format `new`,
-- the number of the entries, the sum of their dirty pages (up to the largest u32) and their highest
-- sequence number.
pub summarize-stream :
    (base : Bytes) (es : List LogEntry) (tail : Bytes)
    → IsStream base es tail
    → summarize (base ++ put_entries es tail) ≡ record {
      format_label = label new;
      entries = length es;
      dirty_pages = min (page_total es) u32_max;
      max_sequence = top_sequence es;
    }
unfolding summary_of
summarize-stream base [] tail h = absurd (omega (arith, h.some_entry))
summarize-stream base (e ∷ es) tail h =
    summarize-as_new blob
      (omega (arith, h.base_len, length-append base (put_entries (e ∷ es) tail))) regf hvle
    ∙ summarize_new-entries blob (counts_of (e ∷ es) no_counts) walk (omega (arith, counted, h.few))
    ∙ λ i. record {
      format_label = label new;
      entries = entries_eq i;
      dirty_pages = pages_eq i;
      max_sequence = seq_eq i;
    }
  where
    blob : Bytes
    blob = base ++ put_entries (e ∷ es) tail

    regf : has_signature blob 0 regf_signature ≡ true
    regf =
        has_signature_read blob 0 regf_signature
          (slice-append base (put_entries (e ∷ es) tail) 0 4 (omega (arith, h.base_len)) ∙ h.signed)
        ∙ text_eq_refl regf_signature

    hvle : has_signature blob base_block_len hvle_signature ≡ true
    hvle =
        ap (λ (n : ℕ). has_signature blob n hvle_signature) (sym h.base_len)
        ∙ has_signature-skip base (put_entries (e ∷ es) tail) hvle_signature
        ∙ entry_signed e h.entries.0 (put_entries es tail)

    walk : walk_entries max_rounds blob base_block_len no_counts ≡ counts_of (e ∷ es) no_counts
    walk =
        ap (λ (n : ℕ). walk_entries max_rounds blob n no_counts) (sym h.base_len)
        ∙ walk_entries-stream (e ∷ es) max_rounds base tail no_counts h.entries h.ends h.few h.fits

    counted :
        ((counts_of (e ∷ es) no_counts).entries ≡ min (0 + length (e ∷ es)) u32_max)
        × ((counts_of (e ∷ es) no_counts).dirty_pages ≡ min (0 + page_total (e ∷ es)) u32_max)
        × ((counts_of (e ∷ es) no_counts).max_sequence ≡ max 0 (top_sequence (e ∷ es)))
    counted = counts_of-fields (e ∷ es) no_counts (omega arith) (omega arith)

    entries_eq : (counts_of (e ∷ es) no_counts).entries ≡ length (e ∷ es)
    entries_eq = omega (arith, counted.0, h.few)

    pages_eq : (counts_of (e ∷ es) no_counts).dirty_pages ≡ min (page_total (e ∷ es)) u32_max
    pages_eq = omega (arith, counted.1)

    seq_eq : (counts_of (e ∷ es) no_counts).max_sequence ≡ top_sequence (e ∷ es)
    seq_eq = omega (arith, counted.2)
