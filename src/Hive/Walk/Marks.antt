-- ===== src/Hive/Walk/Marks.antt =====
-- How the rows of a walk are marked as deleted and recovered.
use vgi_reghive.Base.{◌≡◌, refl, Bool, true, false, ◌||◌, Option, some, List, [], ◌∷◌, ◌++◌, map}
use vgi_reghive.Base.{if◌then◌else◌, All, All-append, Text}
use vgi_reghive.ArrowMap.{Row}
use vgi_reghive.Hive.Notatin.{CellKey, CellValue}
use vgi_reghive.Hive.Walk.{Context, key_rows, walk_keys, key_row, value_row, deleted_label}
use vgi_reghive.Hive.Walk.{passes, wants_key_row, wants_value_rows, normalize, recovery_of}

-- A row that is deleted says how it was recovered, an allocated one has the recovery of the hive.
pub data IsMarked (base : Option Text) (r : Row) : Type 0 where
  allocated : r.is_deleted ≡ false → r.recovery ≡ base → IsMarked base r
  deleted :
      (is_orphan : Bool)
      → r.is_deleted ≡ true
      → r.recovery ≡ some (deleted_label is_orphan)
      → IsMarked base r

module _ (x : Context) where
  IsMarked-by :
      (r : Row) (d is_orphan : Bool)
      → r.is_deleted ≡ d
      → r.recovery ≡ recovery_of x d is_orphan
      → IsMarked x.base_recovery r
  IsMarked-by r false is_orphan e f = allocated e f
  IsMarked-by r true is_orphan e f = deleted is_orphan e f

  key_row-IsMarked : (key : CellKey) → IsMarked x.base_recovery (key_row x key)
  unfolding key_row
  key_row-IsMarked key =
      IsMarked-by (key_row x key) key.deleted (normalize key.path x.root_name).1 refl refl

  values-IsMarked :
      (key : CellKey) (vs : List CellValue)
      → All (IsMarked x.base_recovery) (map (value_row x key) vs)
  unfolding value_row
  values-IsMarked key [] = tt
  values-IsMarked key (v ∷ vs) = (
    IsMarked-by (value_row x key v) (key.deleted || v.deleted) (normalize key.path x.root_name).1
        refl refl,
    values-IsMarked key vs,
  )

  key_rows-IsMarked : (key : CellKey) → All (IsMarked x.base_recovery) (key_rows x key)
  unfolding key_rows
  key_rows-IsMarked key = by_mode (wants_key_row x.mode key.values) (wants_value_rows x.mode)
    where
      by_mode :
          (b c : Bool)
          → All (IsMarked x.base_recovery) (
              (if b then key_row x key ∷ [] else [])
              ++ (if c then map (value_row x key) key.values else []))
      by_mode true true = (key_row-IsMarked key, values-IsMarked key key.values)
      by_mode true false = (key_row-IsMarked key, tt)
      by_mode false true = values-IsMarked key key.values
      by_mode false false = tt

  -- Every row of a walk is marked: a deleted one with one of the two labels of recovered cells, an
  -- allocated one with the recovery that the hive as a whole has.
  pub walk_keys-IsMarked :
      (filter : Option Text) (keys : List CellKey)
      → All (IsMarked x.base_recovery) (walk_keys x filter keys)
  unfolding walk_keys
  walk_keys-IsMarked filter [] = tt
  walk_keys-IsMarked filter (key ∷ keys) =
      first (passes x filter key) (walk_keys-IsMarked filter keys)
    where
      first :
          (b : Bool)
          → All (IsMarked x.base_recovery) (walk_keys x filter keys)
          → All
              (IsMarked x.base_recovery)
              ((if b then key_rows x key else []) ++ walk_keys x filter keys)
      first true h =
          All-append _ (key_rows x key) (walk_keys x filter keys) (key_rows-IsMarked key) h
      first false h = h
