-- ===== src/HiveGen/Spec.antt =====
-- The values, keys and hives to synthesize: `ValueSpec`, `KeySpec` and `HiveSpec`.
use vgi_reghive.Base.{ℕ, Bool, false, List, [], ◌∷◌, ◌++◌, Bytes, Text}

pub record ValueSpec : Type 0 where
  pub name : Text
  pub type_raw : ℕ
  pub bytes : Bytes

-- A key holds a list of keys: its name, the time of its last write, its values and its subkeys.
mutual
  pub data KeySpec : Type 0 where
    key : Text → ℕ → List ValueSpec → Subkeys → KeySpec

  pub data Subkeys : Type 0 where
    no_keys : Subkeys
    and_key : KeySpec → Subkeys → Subkeys

unfoldable pub key_name : KeySpec → Text
key_name (key name last_written values subkeys) = name

unfoldable pub key_last_written : KeySpec → ℕ
key_last_written (key name last_written values subkeys) = last_written

-- `KeySpec::new`; the time is 2020-01-01 in FILETIME ticks.
unfoldable pub new_key : Text → KeySpec
new_key name = key name 132_223_104_000_000_000 [] no_keys

unfoldable pub with_value : KeySpec → ValueSpec → KeySpec
with_value (key name last_written values subkeys) v =
    key name last_written (values ++ v ∷ []) subkeys

push_key : Subkeys → KeySpec → Subkeys
push_key no_keys k = and_key k no_keys
push_key (and_key j ks) k = and_key j (push_key ks k)

unfoldable pub with_subkey : KeySpec → KeySpec → KeySpec
unfolding push_key
with_subkey (key name last_written values subkeys) k =
    key name last_written values (push_key subkeys k)

pub record HiveSpec : Type 0 where
  pub filename : Text
  pub minor : ℕ
  pub primary_seq : ℕ
  pub secondary_seq : ℕ
  pub corrupt_checksum : Bool
  pub root : KeySpec
  pub deleted_orphans : List KeySpec

-- `HiveSpec::new`
unfoldable pub new_hive : Text → KeySpec → HiveSpec
new_hive filename root = record {
  filename = filename;
  minor = 3;
  primary_seq = 1;
  secondary_seq = 1;
  corrupt_checksum = false;
  root = root;
  deleted_orphans = [];
}

unfoldable pub dirty : HiveSpec → HiveSpec
dirty h = record h { primary_seq = 2; secondary_seq = 1 }
