-- ===== src/Catalog/Sample/Denotes.antt =====
-- The rendering of a blob stands for the bytes that it renders.
use vgi_reghive.Base.{ℕ, zero, suc, ◌^◌, ◌≤◌, ◌<◌, ◌≡◌, refl, sym, ap, ◌∙◌, inl, inr, List, []}
use vgi_reghive.Base.{◌∷◌, ◌++◌, append-nil, append_assoc, arith, leb, ◌==◌, leb→le, Bool-cases}
use vgi_reghive.Base.{length, drop, replicate, All, All-append, All-drop, length-drop, Bytes}
use vgi_reghive.Base.{IsByte, Text, codes}
use vgi_reghive.ValueType.{to_hex_lower}
use vgi_reghive.Catalog.Sample.{zero_run_min, zero_run, hex_byte, repeated, flush, blob_step}
use vgi_reghive.Catalog.Sample.{blob_loop, join, or_empty, compact_blob_sql}
use mathlib.Core.Path.{subst}
use vgi_reghive.Catalog.Sample.Parts.{PartsDenote, literal_part, repeat_part, and_part}
use vgi_reghive.Catalog.Sample.Parts.{to_hex_lower-append, ConcatDenotes, BlobDenotes, one, unhex}

-- The state of the loop: the pending literal is the hex of `b`, and the parts stand for `done`.
record Rendered (done b : Bytes) (lit : Text) (parts : List Text) : Type 0 where
  pub bytes : All IsByte b
  pub lit_hex : lit ≡ to_hex_lower b
  pub parts_denote : PartsDenote parts done

flush-Denotes :
    (done b : Bytes) (lit : Text) (parts : List Text)
    → Rendered done b lit parts
    → PartsDenote (flush lit parts) (done ++ b)
unfolding flush to_hex_lower
flush-Denotes done [] lit parts r =
    rw (r.lit_hex) (subst (PartsDenote parts) (sym (append-nil done)) r.parts_denote)
flush-Denotes done (c ∷ b) lit parts r =
    rw (r.lit_hex) (and_part parts done _ (c ∷ b) r.parts_denote (literal_part (c ∷ b) r.bytes))

-- A run of zeros, and what stands behind it.
zero_run-drop :
    (bytes : Bytes)
    → (zero_run bytes ≤ length bytes)
      × (replicate (zero_run bytes) 0 ++ drop (zero_run bytes) bytes ≡ bytes)
unfolding zero_run
zero_run-drop [] = (omega arith, refl)
zero_run-drop (b ∷ bytes) = elim (Bool-cases (b == 0)) [
  | inl e ↦ rw e (
      let (l, same) = zero_run-drop bytes in
      (omega arith, (let z : 0 ≡ b = ground arith in λ i. z i ∷ same i)))
  | inr e ↦ rw e (omega arith, refl)
]

-- What a round of the loop comes to: it takes a byte at least, and loses none.
record Step (done b all : Bytes) (st : ℕ × (Text × List Text)) : Type 0 where
  pub done' : Bytes
  pub b' : Bytes
  pub rendered : Rendered done' b' st.1.0 st.1.1
  pub whole : done' ++ (b' ++ drop st.0 all) ≡ done ++ (b ++ all)
  pub takes : 1 ≤ st.0

blob_step-Step :
    (c : ℕ) (bytes done b : Bytes) (lit : Text) (parts : List Text)
    → IsByte c
    → length (c ∷ bytes) < 10 ^ 20
    → Rendered done b lit parts
    → Step done b (c ∷ bytes) (blob_step c bytes lit parts)
unfolding blob_step
blob_step-Step c bytes done b lit parts hc h r =
    elim (Bool-cases (leb zero_run_min (zero_run (c ∷ bytes)))) [
      | inl e ↦
          let n = zero_run (c ∷ bytes) in
          let (l, same) = zero_run-drop (c ∷ bytes) in
          rw e (record {
            done' = (done ++ b) ++ replicate n 0;
            b' = [];
            rendered = record {
              bytes = tt;
              lit_hex = unfold to_hex_lower in refl;
              parts_denote =
                  and_part (flush lit parts) (done ++ b) (repeated n) (replicate n 0)
                    (flush-Denotes done b lit parts r) (repeat_part n (omega (arith, l, h)));
            };
            whole =
                append_assoc (done ++ b) (replicate n 0) (drop n (c ∷ bytes))
                ∙ ap (λ (t : Bytes). (done ++ b) ++ t) same
                ∙ append_assoc done b (c ∷ bytes);
            takes = omega (arith, leb→le _ _ e);
          })
      | inr e ↦ rw e (record {
        done' = done;
        b' = b ++ c ∷ [];
        rendered = record {
          bytes = All-append IsByte b (c ∷ []) r.bytes (hc, tt);
          lit_hex =
              ap (λ (t : Text). t ++ hex_byte c) r.lit_hex
              ∙ sym (
                  to_hex_lower-append b (c ∷ [])
                  ∙ ap (◌++◌ (to_hex_lower b)) (unfold to_hex_lower in refl));
          parts_denote = r.parts_denote;
        };
        whole = ap (λ (t : Bytes). done ++ t) (append_assoc b (c ∷ []) bytes);
        takes = omega arith;
      })
    ]

blob_loop-Rendered :
    (fuel : ℕ) (bytes done b : Bytes) (lit : Text) (parts : List Text)
    → length bytes ≤ fuel
    → length bytes < 10 ^ 20
    → All IsByte bytes
    → Rendered done b lit parts
    → (done' : Bytes) × (b' : Bytes) × Rendered done' b'
        (blob_loop fuel bytes lit parts).0
        (blob_loop fuel bytes lit parts).1
      × (done' ++ b' ≡ done ++ (b ++ bytes))
unfolding blob_loop
blob_loop-Rendered zero [] done b lit parts h k all r =
    (done, b, r, ap (λ (t : Bytes). done ++ t) (sym (append-nil b)))
blob_loop-Rendered zero (c ∷ bytes) done b lit parts h k all r = absurd (omega arith)
blob_loop-Rendered (suc fuel) [] done b lit parts h k all r =
    (done, b, r, ap (λ (t : Bytes). done ++ t) (sym (append-nil b)))
blob_loop-Rendered (suc fuel) (c ∷ bytes) done b lit parts h k (hc, all) r =
    let s = blob_step-Step c bytes done b lit parts hc k r in
    let n = (blob_step c bytes lit parts).0 in
    let len = length-drop n (c ∷ bytes) in
    let (d, e, r', eq) =
      blob_loop-Rendered fuel (drop n (c ∷ bytes)) s.done' s.b' (blob_step c bytes lit parts).1.0
        (blob_step c bytes lit parts).1.1 (omega (arith, len, s.takes, h)) (omega (arith, len, k))
        (All-drop IsByte n (c ∷ bytes) (hc, all)) s.rendered in
    (d, e, r', eq ∙ s.whole)

-- Joined, parts that are not empty stand for their bytes.
concat-Denotes :
    (parts : List Text) (b : Bytes)
    → PartsDenote parts b
    → ConcatDenotes (join (codes " || ") (or_empty parts)) b
unfolding or_empty join to_hex_lower
concat-Denotes [] b e = subst (ConcatDenotes (codes "''")) (sym e) (one _ [] (literal_part [] tt))
concat-Denotes (p ∷ parts) b d = d

-- The SQL expression stands for exactly the bytes that it renders, whatever runs of zeros they have.
pub compact_blob_sql-Denotes :
    (bytes : Bytes)
    → All IsByte bytes
    → length bytes < 10 ^ 20
    → BlobDenotes (compact_blob_sql bytes) bytes
unfolding compact_blob_sql
compact_blob_sql-Denotes bytes h k =
    let (done, b, r, e) =
      blob_loop-Rendered (length bytes) bytes [] [] [] [] (omega arith) k h
        (record { bytes = tt; lit_hex = unfold to_hex_lower in refl; parts_denote = refl }) in
    unhex _ bytes (subst (ConcatDenotes _) e (concat-Denotes _ _ (flush-Denotes done b _ _ r)))
