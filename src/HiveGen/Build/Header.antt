-- ===== src/HiveGen/Build/Header.antt =====
-- The base block of a built hive: what its copies leave, before and after the checksum is stored.
use vgi_reghive.Base.{take-drop, ℕ, zero, suc, ◌+◌, ◌≤◌, ◌≡◌, refl, sym, ap, ◌∙◌, inr, some, List}
use vgi_reghive.Base.{[], ◌∷◌, arith, length, take, drop, replicate, All, All-take, slice}
use vgi_reghive.Base.{slice_within, length-take, length-replicate, Bytes, IsByte, Text}
use vgi_reghive.HiveGen.Spec.{HiveSpec, key_last_written}
use vgi_reghive.HiveGen.Build.{base_block, base_writes, filename_bytes, stored_checksum}
use vgi_reghive.BaseBlock.Checksum.{xor32_checksum, xor32_checksum-append}
use vgi_reghive.Base.Words.{to_le, to_le-IsByte, length-to_le}
use vgi_reghive.Base.Utf16.{units_to_le, encode_utf16}
use vgi_reghive.Base.Writes.{Ascending, Ascending-AllWritten, AllWritten, Written, write_at}
use vgi_reghive.Base.Writes.{write_at-Written, Within, Ascending-Within, Untouched}
use vgi_reghive.Base.Writes.{write_at-IsByte, write_each-IsByte}
use mathlib.Core.Path.{subst}
use mathlib.Core.Option.{some-injective}

replicate-IsByte : (n : ℕ) → All IsByte (replicate n 0)
replicate-IsByte zero = tt
replicate-IsByte (suc n) = (omega arith, replicate-IsByte n)

units_to_le-IsByte : (us : List ℕ) → All IsByte (units_to_le us)
unfolding units_to_le
units_to_le-IsByte [] = tt
units_to_le-IsByte (u ∷ us) = (omega arith, (omega arith, units_to_le-IsByte us))

pub length-filename_bytes : (name : Text) → length (filename_bytes name) ≤ 64
unfolding filename_bytes
length-filename_bytes name = omega (arith, length-take 64 (units_to_le (encode_utf16 name)))

module _ (spec : HiveSpec) (root_off size : ℕ) where
  base-Ascending : (hi : ℕ) → 112 ≤ hi → Ascending 0 hi (base_writes spec root_off size)
  unfolding base_writes
  base-Ascending hi h = (
    omega arith,
    (
      omega arith,
      (
        omega (arith, length-to_le 4 spec.primary_seq),
        (
          omega (arith, length-to_le 4 spec.secondary_seq),
          (
            omega (arith, length-to_le 8 (key_last_written spec.root)),
            (
              omega (arith, length-to_le 4 1),
              (
                omega (arith, length-to_le 4 spec.minor),
                (
                  omega (arith, length-to_le 4 0),
                  (
                    omega (arith, length-to_le 4 1),
                    (
                      omega (arith, length-to_le 4 root_off),
                      (
                        omega (arith, length-to_le 4 size),
                        (
                          omega (arith, length-to_le 4 1),
                          omega (arith, h, length-filename_bytes spec.filename),
                        ),
                      ),
                    ),
                  ),
                ),
              ),
            ),
          ),
        ),
      ),
    ),
  )

-- The checksum is one of the first 508 bytes.
xor32_checksum-front :
    (a b : Bytes)
    → 508 ≤ length a
    → 508 ≤ length b
    → slice a 0 508 ≡ slice b 0 508
    → xor32_checksum a ≡ xor32_checksum b
xor32_checksum-front a b ha hb e =
    checksum_front a ha
    ∙ ap xor32_checksum (
        some-injective _ _
          (sym (slice_within a 0 508 (omega arith)) ∙ e ∙ slice_within b 0 508 (omega arith)))
    ∙ sym (checksum_front b hb)
  where
    checksum_front : (c : Bytes) → 508 ≤ length c → xor32_checksum c ≡ xor32_checksum (take 508 c)
    checksum_front c h =
        ap xor32_checksum (sym (take-drop 508 c))
        ∙ xor32_checksum-append (take 508 c) (drop 508 c) (omega (arith, length-take 508 c))

-- A base block with the words of the spec, zeros behind the name, and the stored checksum.
pub record IsHeader (spec : HiveSpec) (root_off size : ℕ) (base : Bytes) : Type 0 where
  pub len : length base ≡ 4096
  pub bytes : All IsByte base
  pub words :
      All
        (λ (w : ℕ × Bytes). slice base w.0 (length w.1) ≡ some w.1)
        (base_writes spec root_off size)
  pub zeros :
      (k n : ℕ)
      → 48 + length (filename_bytes spec.filename) ≤ k
      → k + n ≤ 508
      → slice base k n ≡ slice (replicate 4096 0) k n
  pub checksum : slice base 508 4 ≡ some (to_le 4 (stored_checksum spec.corrupt_checksum base))

module _ (spec : HiveSpec) (root_off size : ℕ) where
  abbrev writes : List (ℕ × Bytes)
  writes = base_writes spec root_off size

  keep_words :
      (b c s : Bytes) (ws : List (ℕ × Bytes))
      → Written b 508 s c
      → All (λ (w : ℕ × Bytes). slice b w.0 (length w.1) ≡ some w.1) ws
      → All (Within 0 508) ws
      → All (λ (w : ℕ × Bytes). slice c w.0 (length w.1) ≡ some w.1) ws
  keep_words b c s [] r h i = tt
  keep_words b c s (w ∷ ws) r (h, hs) (i, is_) =
      (r.below w.0 (length w.1) i.1 ∙ h, keep_words b c s ws r hs is_)

  behind-Untouched :
      (k n : ℕ) → 48 + length (filename_bytes spec.filename) ≤ k → All (Untouched k n) writes
  unfolding base_writes
  behind-Untouched k n h = (
    inr (omega (arith, h)),
    (
      inr (omega (arith, h, length-to_le 4 spec.primary_seq)),
      (
        inr (omega (arith, h, length-to_le 4 spec.secondary_seq)),
        (
          inr (omega (arith, h, length-to_le 8 (key_last_written spec.root))),
          (
            inr (omega (arith, h, length-to_le 4 1)),
            (
              inr (omega (arith, h, length-to_le 4 spec.minor)),
              (
                inr (omega (arith, h, length-to_le 4 0)),
                (
                  inr (omega (arith, h, length-to_le 4 1)),
                  (
                    inr (omega (arith, h, length-to_le 4 root_off)),
                    (
                      inr (omega (arith, h, length-to_le 4 size)),
                      (inr (omega (arith, h, length-to_le 4 1)), (inr h, tt)),
                    ),
                  ),
                ),
              ),
            ),
          ),
        ),
      ),
    ),
  )

  writes_bytes : All (λ (w : ℕ × Bytes). All IsByte w.1) writes
  unfolding base_writes filename_bytes
  writes_bytes = (
    omega arith,
    (
      to_le-IsByte 4 spec.primary_seq,
      (
        to_le-IsByte 4 spec.secondary_seq,
        (
          to_le-IsByte 8 (key_last_written spec.root),
          (
            to_le-IsByte 4 1,
            (
              to_le-IsByte 4 spec.minor,
              (
                to_le-IsByte 4 0,
                (
                  to_le-IsByte 4 1,
                  (
                    to_le-IsByte 4 root_off,
                    (
                      to_le-IsByte 4 size,
                      (
                        to_le-IsByte 4 1,
                        (
                          All-take IsByte 64 (units_to_le (encode_utf16 spec.filename))
                              (units_to_le-IsByte (encode_utf16 spec.filename)),
                          tt,
                        ),
                      ),
                    ),
                  ),
                ),
              ),
            ),
          ),
        ),
      ),
    ),
  )

  -- The checksum does not depend on what is stored at its place.
  stored_checksum-front :
      (b c s : Bytes)
      → length b ≡ 4096
      → Written b 508 s c
      → stored_checksum spec.corrupt_checksum b ≡ stored_checksum spec.corrupt_checksum c
  unfolding stored_checksum
  stored_checksum-front b c s h w =
      rw
        (xor32_checksum-front c b (omega (arith, w.same_length)) (omega arith)
          (w.below 0 508 (omega arith)))
        refl

  stored-IsHeader :
      (b : Bytes)
      → length b ≡ 4096
      → All IsByte b
      → AllWritten (replicate 4096 0) writes b
      → (c : Bytes) × (write_at b 508 (to_le 4 (stored_checksum spec.corrupt_checksum b)) ≡ some c)
        × IsHeader spec root_off size c
  stored-IsHeader b b_len b_bytes all =
      let sum = stored_checksum spec.corrupt_checksum b in
      let (c, w) =
        write_at-Written b 508 (to_le 4 sum) (omega (arith, b_len, length-to_le 4 sum)) in
      (
        c,
        w.result,
        record {
          len = w.same_length ∙ b_len;
          bytes = write_at-IsByte b 508 (to_le 4 sum) c w.result b_bytes (to_le-IsByte 4 sum);
          words =
              keep_words b c (to_le 4 sum) writes w all.here (
                Ascending-Within writes 0 508
                  (base-Ascending spec root_off size 508 (omega arith)));
          zeros = λ k n h l. w.below k n l ∙ all.outside k n (behind-Untouched k n h);
          checksum =
              ap (slice c 508) (sym (length-to_le 4 sum))
              ∙ w.here
              ∙ ap (λ (t : ℕ). some (to_le 4 t)) (stored_checksum-front b c (to_le 4 sum) b_len w);
        },
      )

  -- The copies into the base block succeed, and leave its words, zeros and checksum.
  pub base_block-IsHeader :
      (base : Bytes) × (base_block spec root_off size ≡ some base)
      × IsHeader spec root_off size base
  unfolding base_block
  base_block-IsHeader =
      let zeros_len = length-replicate {A = ℕ} 4096 0 in
      let (b, all) = Ascending-AllWritten writes (replicate 4096 0) (
        subst (λ (n : ℕ). Ascending 0 n writes) (sym zeros_len)
          (base-Ascending spec root_off size 4096 (omega arith))) in
      let (c, e, i) =
        stored-IsHeader b (all.same_length ∙ zeros_len)
          (write_each-IsByte writes (replicate 4096 0) b all.result (replicate-IsByte 4096)
            writes_bytes)
          all in
      (c, rw all.result e, i)
