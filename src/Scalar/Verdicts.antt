-- ===== src/Scalar/Verdicts.antt =====
-- What the answers of `well_formed` and `hive_info` say of a blob.
use vgi_reghive.Base.{◌<◌, ◌≡◌, refl, ap, ◌↔◌, ◌⊎◌, true, Option, none, some, List, map, arith}
use vgi_reghive.Base.{length, Bytes}
use vgi_reghive.BaseBlock.{parse}
use vgi_reghive.BaseBlock.Kinds.{WellFormedKind}
use vgi_reghive.BaseBlock.Classes.{IsPrimaryHive, IsSigned, parse-ok_iff, parse-none_iff}
use vgi_reghive.Hive.Notatin.{Notatin, Result}
use vgi_reghive.Scalar.Io.{Cell, IsBinary, each_row-ok, blob_val_binary}
use vgi_reghive.Arrow.{DataType}
use vgi_reghive.Scalar.WellFormed.{well_formed, well_formed_row, is_ok}
use vgi_reghive.Scalar.HiveInfo.{hive_info_row}
use mathlib.Core.Option
use mathlib.Core.Option.{some-injective}

is_ok_iff : (k : WellFormedKind) → (is_ok k ≡ true) ↔ (k ≡ WellFormedKind.ok)
unfolding is_ok
is_ok_iff WellFormedKind.ok = ground arith
is_ok_iff WellFormedKind.bad_checksum = ground arith
is_ok_iff WellFormedKind.truncated = ground arith
is_ok_iff WellFormedKind.bad_signature = ground arith
is_ok_iff WellFormedKind.not_a_hive = ground arith
is_ok_iff WellFormedKind.short_base_block = ground arith
is_ok_iff WellFormedKind.bin_size_overrun = ground arith

map-none :
    {A B : Type 0} {P : Type 0} (f : A → B) (o : Option A)
    → (o ≡ none) ↔ P
    → (Option.map f o ≡ none) ↔ P
map-none f none (to, from) = (λ _. to refl, λ _. refl)
map-none f (some a) (to, from) = (λ e. absurd (ground arith), λ p. absurd (ground (arith, from p)))

module _ (N : Notatin) where
  -- `well_formed` answers true for a blob exactly if it is a primary hive.
  pub well_formed_row-ok_iff :
      (bytes : Bytes) → ((well_formed_row N (some bytes)).ok ≡ some true) ↔ IsPrimaryHive bytes
  unfolding well_formed_row
  well_formed_row-ok_iff bytes =
      let (f, g) = is_ok_iff (parse bytes).1 in
      let (to, from) = parse-ok_iff bytes in
      (λ e. to (f (some-injective _ _ e)), λ h. ap some (g (from h)))

  -- `hive_info` answers a blob by null exactly if it is shorter than eight bytes or does not begin with
  -- the signature.
  pub hive_info_row-none_iff :
      (bytes : Bytes)
      → (hive_info_row N (some bytes) ≡ none) ↔ ((length bytes < 8) ⊎ (¬ IsSigned bytes))
  unfolding hive_info_row
  hive_info_row-none_iff bytes = map-none _ (parse bytes).0 (parse-none_iff bytes)

  -- On a column of one of the blob types, `well_formed` answers every row without an error,
  -- whatever the bytes are.
  pub well_formed_total :
      (t : DataType) (cells : List Cell)
      → IsBinary t
      → well_formed N t cells ≡ Result.ok (map (well_formed_row N) cells)
  unfolding well_formed
  well_formed_total t cells b =
      each_row-ok _ (well_formed_row N) cells (λ c. rw (blob_val_binary t c b))
