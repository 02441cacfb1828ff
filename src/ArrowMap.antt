-- ===== src/ArrowMap.antt =====
-- The output row and the batch builder, crates/reghive-worker/src/arrow_map.rs. The array builders of
-- Arrow are lists of cells without a bound: the panic of a string or bytes builder past the largest i32
-- is left out.
pub mod Schema
pub mod Finish
use mathlib.Core.List.{map-append}
use vgi_reghive.Base.{ℕ, ◌+◌, ◌≡◌, refl, sym, ◌↔◌, Bool, true, Option, List, [], ◌∷◌, ◌++◌, map}
use vgi_reghive.Base.{append-nil, append_assoc, arith, ◌==◌, length, length-append, Bytes, Text}
use vgi_reghive.Base.Int.{ℤ}

pub record Row : Type 0 where
  pub key_path : Text
  pub value_name : Option Text
  pub value_type : Option Text
  pub value_data : Option Text
  pub value_raw : Option Bytes
  pub value_dword : Option ℤ
  pub key_last_write : Option ℤ
  pub is_deleted : Bool
  pub hive_type : Text
  pub source : Text
  pub recovery : Option Text
  pub diagnostics : Option Text

pub record RowBatchBuilder : Type 0 where
  pub key_path : List Text
  pub value_name : List (Option Text)
  pub value_type : List (Option Text)
  pub value_data : List (Option Text)
  pub value_raw : List (Option Bytes)
  pub value_dword : List (Option ℤ)
  pub key_last_write : List (Option ℤ)
  pub is_deleted : List Bool
  pub hive_type : List Text
  pub source : List Text
  pub recovery : List (Option Text)
  pub diagnostics : List (Option Text)
  pub len : ℕ

abbrev pub empty_builder : RowBatchBuilder
empty_builder = record {
  key_path = [];
  value_name = [];
  value_type = [];
  value_data = [];
  value_raw = [];
  value_dword = [];
  key_last_write = [];
  is_deleted = [];
  hive_type = [];
  source = [];
  recovery = [];
  diagnostics = [];
  len = 0;
}

unfoldable pub push : RowBatchBuilder → Row → RowBatchBuilder
push b r = record {
  key_path = b.key_path ++ r.key_path ∷ [];
  value_name = b.value_name ++ r.value_name ∷ [];
  value_type = b.value_type ++ r.value_type ∷ [];
  value_data = b.value_data ++ r.value_data ∷ [];
  value_raw = b.value_raw ++ r.value_raw ∷ [];
  value_dword = b.value_dword ++ r.value_dword ∷ [];
  key_last_write = b.key_last_write ++ r.key_last_write ∷ [];
  is_deleted = b.is_deleted ++ r.is_deleted ∷ [];
  hive_type = b.hive_type ++ r.hive_type ∷ [];
  source = b.source ++ r.source ∷ [];
  recovery = b.recovery ++ r.recovery ∷ [];
  diagnostics = b.diagnostics ++ r.diagnostics ∷ [];
  len = b.len + 1;
}

unfoldable pub is_empty : RowBatchBuilder → Bool
is_empty b = b.len == 0

-- `for r in &rows { b.push(r); }`
unfoldable pub push_all : RowBatchBuilder → List Row → RowBatchBuilder
unfolding push
push_all b [] = b
push_all b (r ∷ rs) = push_all (push b r) rs

-- A batch whose columns are the fields of `rows`, one cell for each row.
pub record HoldsRows (b : RowBatchBuilder) (rows : List Row) : Type 0 where
  pub key_path : b.key_path ≡ map (λ r. r.key_path) rows
  pub value_name : b.value_name ≡ map (λ r. r.value_name) rows
  pub value_type : b.value_type ≡ map (λ r. r.value_type) rows
  pub value_data : b.value_data ≡ map (λ r. r.value_data) rows
  pub value_raw : b.value_raw ≡ map (λ r. r.value_raw) rows
  pub value_dword : b.value_dword ≡ map (λ r. r.value_dword) rows
  pub key_last_write : b.key_last_write ≡ map (λ r. r.key_last_write) rows
  pub is_deleted : b.is_deleted ≡ map (λ r. r.is_deleted) rows
  pub hive_type : b.hive_type ≡ map (λ r. r.hive_type) rows
  pub source : b.source ≡ map (λ r. r.source) rows
  pub recovery : b.recovery ≡ map (λ r. r.recovery) rows
  pub diagnostics : b.diagnostics ≡ map (λ r. r.diagnostics) rows
  pub len : b.len ≡ length rows

-- Pushing a row keeps the columns aligned.
push-HoldsRows :
    (b : RowBatchBuilder) (rows : List Row) (r : Row)
    → HoldsRows b rows
    → HoldsRows (push b r) (rows ++ r ∷ [])
unfolding push
push-HoldsRows b rows r h = record {
  key_path = rw (h.key_path, map-append);
  value_name = rw (h.value_name, map-append);
  value_type = rw (h.value_type, map-append);
  value_data = rw (h.value_data, map-append);
  value_raw = rw (h.value_raw, map-append);
  value_dword = rw (h.value_dword, map-append);
  key_last_write = rw (h.key_last_write, map-append);
  is_deleted = rw (h.is_deleted, map-append);
  hive_type = rw (h.hive_type, map-append);
  source = rw (h.source, map-append);
  recovery = rw (h.recovery, map-append);
  diagnostics = rw (h.diagnostics, map-append);
  len = omega (arith, h.len, length-append rows (r ∷ []));
}

push_all-HoldsRows :
    (b : RowBatchBuilder) (done rows : List Row)
    → HoldsRows b done
    → HoldsRows (push_all b rows) (done ++ rows)
unfolding push_all
push_all-HoldsRows b done [] h = rw append-nil h
push_all-HoldsRows b done (r ∷ rs) h =
    rw (sym (append_assoc done (r ∷ []) rs))
      (push_all-HoldsRows (push b r) (done ++ r ∷ []) rs (push-HoldsRows b done r h))

empty_builder-HoldsRows : HoldsRows empty_builder []
empty_builder-HoldsRows = record {
  key_path = refl;
  value_name = refl;
  value_type = refl;
  value_data = refl;
  value_raw = refl;
  value_dword = refl;
  key_last_write = refl;
  is_deleted = refl;
  hive_type = refl;
  source = refl;
  recovery = refl;
  diagnostics = refl;
  len = refl;
}

none_iff : (rows : List Row) (n : ℕ) → n ≡ length rows → ((n == 0) ≡ true) ↔ (rows ≡ [])
none_iff [] n e = ground arith
none_iff (r ∷ rs) n e = ground arith

-- A batch built from rows has the fields of those rows as its columns, in order, and it is empty
-- exactly when there are none.
pub push_all-rows :
    (rows : List Row)
    → HoldsRows (push_all empty_builder rows) rows
      × ((is_empty (push_all empty_builder rows) ≡ true) ↔ (rows ≡ []))
unfolding is_empty
push_all-rows rows =
    let h = push_all-HoldsRows empty_builder [] rows empty_builder-HoldsRows in
    (h, none_iff rows _ h.len)
