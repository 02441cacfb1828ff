-- ===== src/Hive/Walk.antt =====
-- Paths, filters and the walk over the keys, crates/reghive-worker/src/hive/walk.rs. The proofs are in
-- the modules below.
pub mod Paths
pub mod Rows
pub mod Marks
use mathlib.Core.Option
use vgi_reghive.Base.{ℕ, Bool, true, false, ◌||◌, Option, none, some, List, [], ◌∷◌, ◌++◌, map}
use vgi_reghive.Base.{if◌then◌else◌, unwrap_or, Text, codes}
use vgi_reghive.Hive.Notatin.{Notatin, CellKey, CellValue}
use vgi_reghive.Hive.Open.{Opened}
use vgi_reghive.Hive.Value.{decode}
use vgi_reghive.ArrowMap.{Row}
use vgi_reghive.Base.Strings.{to_lower, strip_prefix, trim_start, text_eq, starts_with}

pub data Mode : Type 0 where
  values keys all : Mode

unfoldable pub parse_mode : Text → Mode
parse_mode s =
    let t = to_lower s in
    if text_eq t (codes "keys") then keys else if text_eq t (codes "all") then all else values

-- The byte of a path separator.
abbrev pub backslash : ℕ
backslash = b'\\'

orphan_path : Text → Text × Bool
orphan_path p = (codes "$Deleted\\" ++ p, true)

-- On the path without its leading separator.
unfoldable pub normalize_stripped : Text → Text → Text × Bool
unfolding orphan_path
normalize_stripped [] [] = ([], false)
normalize_stripped (c ∷ p) [] = orphan_path (c ∷ p)
normalize_stripped p (r ∷ root) =
    if text_eq p (r ∷ root)
    then ([], false)
    else elim (strip_prefix ((r ∷ root) ++ backslash ∷ []) p) [
      | some rest ↦ (rest, false)
      | none ↦ orphan_path p
    ]

unfoldable pub normalize : Text → Text → Text × Bool
unfolding normalize_stripped
normalize path root_name =
    normalize_stripped (unwrap_or (strip_prefix (backslash ∷ []) path) path) root_name

unfoldable pub deleted_label : Bool → Text
deleted_label is_orphan = if is_orphan then codes "deleted-orphan" else codes "deleted-reparented"

unfoldable pub normalize_filter : Text → Text
normalize_filter f = to_lower (trim_start backslash f)

unfoldable pub subtree_match : Text → Text → Bool
subtree_match key_path [] = true
subtree_match key_path (c ∷ filter) =
    let kp = to_lower key_path in
    text_eq kp (c ∷ filter) || starts_with ((c ∷ filter) ++ backslash ∷ []) kp

-- What the walk takes from its arguments and the opened hive.
pub record Context : Type 0 where
  pub root_name : Text
  pub hive_type : Text
  pub source : Text
  pub mode : Mode
  pub base_recovery : Option Text
  pub hive_diag : Option Text

abbrev pub recovery_of : Context → Bool → Bool → Option Text
recovery_of x deleted is_orphan =
    if deleted then some (deleted_label is_orphan) else x.base_recovery

-- The key-only row.
unfoldable pub key_row : Context → CellKey → Row
key_row x key =
    let (key_path, is_orphan) = normalize key.path x.root_name in
    record {
      key_path = key_path;
      value_name = none;
      value_type = none;
      value_data = none;
      value_raw = none;
      value_dword = none;
      key_last_write = some key.last_write;
      is_deleted = key.deleted;
      hive_type = x.hive_type;
      source = x.source;
      recovery = recovery_of x key.deleted is_orphan;
      diagnostics = x.hive_diag;
    }

-- `a.or_else(|| b)`
abbrev pub or_else {ℓ} : {A : Type ℓ} → Option A → Option A → Option A
or_else none b = b
or_else (some a) b = some a

unfoldable pub value_row : Context → CellKey → CellValue → Row
value_row x key v =
    let (key_path, is_orphan) = normalize key.path x.root_name in
    let dv = decode v in
    let v_deleted = key.deleted || v.deleted in
    record {
      key_path = key_path;
      value_name = dv.name;
      value_type = some dv.value_type;
      value_data = some dv.value_data;
      value_raw = some dv.value_raw;
      value_dword = dv.value_dword;
      key_last_write = some key.last_write;
      is_deleted = v_deleted;
      hive_type = x.hive_type;
      source = x.source;
      recovery = recovery_of x v_deleted is_orphan;
      diagnostics = or_else dv.diagnostics x.hive_diag;
    }

unfoldable pub wants_key_row : Mode → List CellValue → Bool
wants_key_row values [] = true
wants_key_row values (v ∷ vs) = false
wants_key_row _ vs = true

unfoldable pub wants_value_rows : Mode → Bool
wants_value_rows keys = false
wants_value_rows _ = true

-- The body of the loop over the keys, behind the filter.
unfoldable pub key_rows : Context → CellKey → List Row
unfolding wants_key_row wants_value_rows
key_rows x key =
    (if wants_key_row x.mode key.values then key_row x key ∷ [] else [])
    ++ (if wants_value_rows x.mode then map (value_row x key) key.values else [])

-- `if let Some(ref f) = filter_norm { if !subtree_match(&key_path, f) { continue; } }`
unfoldable pub passes : Context → Option Text → CellKey → Bool
passes x none key = true
passes x (some f) key = subtree_match (normalize key.path x.root_name).0 f

unfoldable pub walk_keys : Context → Option Text → List CellKey → List Row
unfolding passes
walk_keys x filter [] = []
walk_keys x filter (key ∷ rest) =
    (if passes x filter key then key_rows x key else []) ++ walk_keys x filter rest

abbrev pub context : {P : Type 0} → Opened P → Text → Mode → Option Text → Option Text → Context
context o source mode base_recovery hive_diag = record {
  root_name = o.root_name;
  hive_type = o.hive_type;
  source = source;
  mode = mode;
  base_recovery = base_recovery;
  hive_diag = hive_diag;
}

module _ (N : Notatin) where
  unfoldable pub walk :
      Opened N.Parser → Text → Mode → Option Text → Option Text → Option Text → List Row
  unfolding walk_keys
  walk o source mode base_recovery hive_diag key_filter =
      walk_keys (context o source mode base_recovery hive_diag)
        (Option.map normalize_filter key_filter) (N.keys o.parser)
