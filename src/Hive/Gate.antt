-- ===== src/Hive/Gate.antt =====
-- Which blobs `open_blob` opens.
use vgi_reghive.Base.{◌≡◌, refl, ◌↔◌, ◌⊎◌, Bool, Option, none, some, List, [], arith}
use vgi_reghive.Base.{if◌then◌else◌, Bytes, Text}
use vgi_reghive.BaseBlock.{BaseBlock, parse}
use vgi_reghive.BaseBlock.Kinds.{WellFormedKind}
use vgi_reghive.Hive.Notatin.{Notatin, Result}
use vgi_reghive.Hive.Open.{OpenError, Opened, open_blob, open_built, refusal}

-- The verdicts that let a blob through: a bad checksum marks a dirty hive, which is still opened.
abbrev pub IsAdmitted : WellFormedKind → Type 0
IsAdmitted k = (k ≡ WellFormedKind.ok) ⊎ (k ≡ WellFormedKind.bad_checksum)

refusal-none_iff : (k : WellFormedKind) → (refusal k ≡ none) ↔ IsAdmitted k
unfolding refusal
refusal-none_iff WellFormedKind.ok = ground arith
refusal-none_iff WellFormedKind.bad_checksum = ground arith
refusal-none_iff WellFormedKind.truncated = ground arith
refusal-none_iff WellFormedKind.bad_signature = ground arith
refusal-none_iff WellFormedKind.not_a_hive = ground arith
refusal-none_iff WellFormedKind.short_base_block = ground arith
refusal-none_iff WellFormedKind.bin_size_overrun = ground arith

module _ (N : Notatin) where
  gated :
      (r : Option Text) (b : Result Text N.Parser) (base : Option BaseBlock) (k : WellFormedKind)
      → ((o : Opened N.Parser) × (◌≡◌ {A = Result OpenError (Opened N.Parser)}
            (elim r [
              | some message ↦ Result.err (record { kind = k; message = message })
              | none ↦ open_built N b base k
            ])
            (Result.ok o)))
        ↔ ((r ≡ none) × ((p : N.Parser) × (b ≡ Result.ok p)))
  unfolding open_built
  gated (some m) b base k = ground arith
  gated none (Result.err e) base k = ground arith
  gated none (Result.ok p) base k = (λ h. (refl, (p, refl)), λ h. (_, refl))

  -- A blob opens exactly if its verdict is a clean one or a bad checksum, and the parser builds on the
  -- bytes and on the logs, which it is given only where they are to be applied.
  pub open_blob-ok_iff :
      (bytes : Bytes) (apply recover : Bool) (logs : List Bytes)
      → ((o : Opened N.Parser) × (open_blob N bytes apply recover logs ≡ Result.ok o)) ↔ (
          IsAdmitted (parse bytes).1
          × ((p : N.Parser) × (N.build bytes recover (if apply then logs else []) ≡ Result.ok p)))
  unfolding open_blob
  open_blob-ok_iff bytes apply recover logs =
      let b = N.build bytes recover (if apply then logs else []) in
      let (to, from) = gated (refusal (parse bytes).1) b (parse bytes).0 (parse bytes).1 in
      let (f, g) = refusal-none_iff (parse bytes).1 in
      (λ h. (f (to h).0, (to h).1), λ h. from (g h.0, h.1))
