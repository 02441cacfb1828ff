-- ===== src/Scalar/Agree.antt =====
-- The probes for one key agree: `hive_key`, `key_info` and `hive_value` say the same of a key, and the
-- lists of `hive_key` are cut out of its array of values where they belong.
use mathlib.Core.List.{map-append}
use mathlib.Core.Option.{some-injective}
use vgi_reghive.Hive.Open.{OpenError, Opened, open_blob}
use vgi_reghive.Hive.Notatin.{Result, ok, err, Notatin, CellKey, CellValue}
use vgi_reghive.Base.Strings.{trim_start}
use vgi_reghive.Hive.Walk.{backslash}
use vgi_reghive.Base.{arith, unwrap_or, Option-cases, true, inr, inl, ℕ, ◌≡◌, refl, ap, Option}
use vgi_reghive.Base.{none, some, List, [], ◌∷◌, ◌++◌, map, take, drop, take-append, drop-append}
use vgi_reghive.Base.{Text}
use mathlib.Core.Option
use vgi_reghive.Hive.Value.{DecodedValue, decode}
use vgi_reghive.Scalar.Io.{Cell}
use vgi_reghive.Scalar.Answer.{cells}
use vgi_reghive.Scalar.KeyInfo
use vgi_reghive.Scalar.KeyInfo.{KeyMeta, key_info_row, find_key}
use vgi_reghive.Scalar.HiveValue
use vgi_reghive.Scalar.HiveValue.{HiveValueRow, hive_value_row}
use vgi_reghive.Scalar.HiveKey
use vgi_reghive.Scalar.HiveKey.{FoundKey, hive_key_row, all_values, sizes}

-- A list array read back: each row takes as many elements as are its own.
abbrev cut : {B : Type 0} → List (Option ℕ) → List B → List (Option (List B))
cut [] elements = []
cut (none ∷ ns) elements = none ∷ cut ns elements
cut (some n ∷ ns) elements = some (take n elements) ∷ cut ns (drop n elements)

-- The list array of `hive_key`, read back row by row, has for each key that was found its own values, in their order, and null for the others.
pub cut-all_values :
    (rows : List (Option FoundKey))
    → cut (sizes rows) (all_values rows) ≡ cells (λ k. k.decoded) rows
cut-all_values [] = refl
cut-all_values (none ∷ rows) = ap (◌∷◌ none) (cut-all_values rows)
cut-all_values (some k ∷ rows) =
    rw (take-append k.decoded (all_values rows), drop-append k.decoded (all_values rows))
      (ap (◌∷◌ (some k.decoded)) (cut-all_values rows))

-- What `key_info` and `hive_key` have in common.
abbrev pub meta_of : FoundKey → KeyMeta
meta_of k = record {
  last_write = k.last_write;
  subkeys = k.subkeys;
  values = k.values;
  is_deleted = k.is_deleted;
}

-- One of the values of a key.
abbrev pub AmongValues : DecodedValue → List DecodedValue → Type 0
AmongValues dv dvs = (before after : List DecodedValue) × (dvs ≡ before ++ dv ∷ after)

-- What `lookup` makes of a key that was found.
abbrev key_of : Text → CellKey → FoundKey
key_of path key = record {
  key_path = trim_start backslash path;
  last_write = key.last_write;
  subkeys = key.subkey_count;
  values = key.value_count;
  is_deleted = key.deleted;
  decoded = map decode key.values;
}

abbrev meta_of_key : CellKey → KeyMeta
meta_of_key key = record {
  last_write = key.last_write;
  subkeys = key.subkey_count;
  values = key.value_count;
  is_deleted = key.deleted;
}

meta_of-key_of :
    (path : Text) (o : Option CellKey)
    → Option.map meta_of_key o ≡ Option.map meta_of (Option.map (key_of path) o)
meta_of-key_of path none = refl
meta_of-key_of path (some key) = refl

module _ (N : Notatin) where
  -- `key_info` answers a blob and a path with the metadata of the key that `hive_key` answers, and with null exactly if `hive_key` does.
  pub key_info_row-hive_key :
      (blob path : Cell) → key_info_row N blob path ≡ Option.map meta_of (hive_key_row N blob path)
  unfolding KeyInfo.lookup HiveKey.lookup key_info_row hive_key_row
  key_info_row-hive_key none path = refl
  key_info_row-hive_key (some bytes) none = refl
  key_info_row-hive_key (some bytes) (some path) =
      meta_of-key_of path (find_key N (open_blob N bytes true true []) path)

-- Documented of notatin: `get_value` gives a value of the key.
abbrev pub GetsOwn : Notatin → Type 0
GetsOwn N =
    (parser : N.Parser) (path : Text) (key : CellKey)
    → N.get_key parser path ≡ some key
    → (name : Text) (v : CellValue) → key.get_value name ≡ some v
    → (before after : List CellValue) × (key.values ≡ before ++ v ∷ after)

abbrev pub row_of : DecodedValue → HiveValueRow
row_of dv = record {
  value_type = dv.value_type;
  value_data = dv.value_data;
  value_raw = dv.value_raw;
}

decoded-AmongValues :
    (key : CellKey) (v : CellValue)
    → (before after : List CellValue) × (key.values ≡ before ++ v ∷ after)
    → AmongValues (decode v) (map decode key.values)
decoded-AmongValues key v (before, after, e) =
    (map decode before, map decode after, rw (e, map-append) refl)

module _ (N : Notatin) where
  find_key-own :
      (opened : Result OpenError (Opened N.Parser)) (path name : Text) (key : CellKey)
      (v : CellValue)
      → GetsOwn N
      → find_key N opened path ≡ some key
      → key.get_value name ≡ some v
      → AmongValues (decode v) (map decode key.values)
  unfolding find_key
  find_key-own (ok o) path name key v own e g =
      decoded-AmongValues key v (own o.parser path key e name v g)
  find_key-own (err x) path name key v own e g = absurd (ground arith)

  -- Where notatin's search gives a value of the key, the answer of `hive_value` is one of the values that `hive_key` lists for the same blob and path, less its name.
  pub hive_value_row-hive_key :
      (blob path name : Cell) (r : HiveValueRow)
      → GetsOwn N
      → hive_value_row N blob path name ≡ some r
      → (k : FoundKey) × (dv : DecodedValue) × (hive_key_row N blob path ≡ some k)
        × AmongValues dv k.decoded
        × (row_of dv ≡ r)
  unfolding HiveValue.lookup HiveKey.lookup hive_value_row hive_key_row
  hive_value_row-hive_key none path name r own e = absurd (ground arith)
  hive_value_row-hive_key (some bytes) none name r own e = absurd (ground arith)
  hive_value_row-hive_key (some bytes) (some path) name r own e =
      elim (Option-cases (find_key N (open_blob N bytes true true []) path)) [
        | inl no_key ↦ absurd (ground (arith, rw no_key at e))
        | inr (key, found) ↦ elim (Option-cases (key.get_value (unwrap_or name []))) [
          | inl no_value ↦ absurd (ground (arith, rw (found, no_value) at e))
          | inr (v, got) ↦ (
            key_of path key,
            decode v,
            ap (Option.map (key_of path)) found,
            find_key-own (open_blob N bytes true true []) path (unwrap_or name []) key v own found
                got,
            some-injective _ _ (rw (found, got) at e),
          )
        ]
      ]
