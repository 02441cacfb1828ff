-- ===== src/Hive/Walk/Rows.antt =====
-- The rows of a walk: how the filter picks them, and how they are marked.
use vgi_reghive.Base.{◌≡◌, refl, ap, true, false, List, [], ◌∷◌, ◌++◌, map, append_assoc}
use vgi_reghive.Base.{if◌then◌else◌, Text, sym, some, none, Bool-cases, inl, inr, Bool}
use vgi_reghive.ArrowMap.{Row}
use vgi_reghive.Hive.Notatin.{CellKey, CellValue}
use vgi_reghive.Hive.Walk.{Context, value_row, normalize, subtree_match, walk_keys, key_rows}
use vgi_reghive.Hive.Walk.{passes, key_row, wants_key_row, wants_value_rows}

-- The rows that a key filter selects, said of the rows: their path is the filter or lies below it.
abbrev pub select : Text → List Row → List Row
select f [] = []
select f (r ∷ rows) = (if subtree_match r.key_path f then r ∷ [] else []) ++ select f rows

select-append : (f : Text) (xs ys : List Row) → select f (xs ++ ys) ≡ select f xs ++ select f ys
select-append f [] ys = refl
select-append f (x ∷ xs) ys = rw (select-append f xs ys) (
    sym (
      append_assoc (if subtree_match x.key_path f then x ∷ [] else []) (select f xs) (select f ys)))

module _ (x : Context) where
  select-values_in :
      (f : Text) (key : CellKey) (vs : List CellValue)
      → subtree_match (normalize key.path x.root_name).0 f ≡ true
      → select f (map (value_row x key) vs) ≡ map (value_row x key) vs
  unfolding value_row
  select-values_in f key [] h = refl
  select-values_in f key (v ∷ vs) h =
      rw h (ap (λ t. value_row x key v ∷ t) (select-values_in f key vs h))

  select-values_out :
      (f : Text) (key : CellKey) (vs : List CellValue)
      → subtree_match (normalize key.path x.root_name).0 f ≡ false
      → select f (map (value_row x key) vs) ≡ []
  unfolding value_row
  select-values_out f key [] h = refl
  select-values_out f key (v ∷ vs) h = rw h (select-values_out f key vs h)

  select-key_in :
      (f : Text) (key : CellKey)
      → subtree_match (normalize key.path x.root_name).0 f ≡ true
      → select f (key_rows x key) ≡ key_rows x key
  unfolding key_rows key_row
  select-key_in f key h =
      rw
        (select-append f (if wants_key_row x.mode key.values then key_row x key ∷ [] else [])
          (if wants_value_rows x.mode then map (value_row x key) key.values else []))
        (by_mode (wants_key_row x.mode key.values) (wants_value_rows x.mode))
    where
      by_mode :
          (b c : Bool)
          → select f (if b then key_row x key ∷ [] else [])
              ++ select f (if c then map (value_row x key) key.values else [])
            ≡ (if b then key_row x key ∷ [] else [])
              ++ (if c then map (value_row x key) key.values else [])
      by_mode true true = rw (h, select-values_in f key key.values h)
      by_mode true false = rw h
      by_mode false true = select-values_in f key key.values h
      by_mode false false = refl

  select-key_out :
      (f : Text) (key : CellKey)
      → subtree_match (normalize key.path x.root_name).0 f ≡ false
      → select f (key_rows x key) ≡ []
  unfolding key_rows key_row
  select-key_out f key h =
      rw
        (select-append f (if wants_key_row x.mode key.values then key_row x key ∷ [] else [])
          (if wants_value_rows x.mode then map (value_row x key) key.values else []))
        (by_mode (wants_key_row x.mode key.values) (wants_value_rows x.mode))
    where
      by_mode :
          (b c : Bool)
          → select f (if b then key_row x key ∷ [] else [])
              ++ select f (if c then map (value_row x key) key.values else [])
            ≡ []
      by_mode true true = rw (h, select-values_out f key key.values h)
      by_mode true false = rw h
      by_mode false true = select-values_out f key key.values h
      by_mode false false = refl

  -- A walk with a normalized filter gives the rows of the whole walk whose path the filter matches,
  -- in the same order.
  pub walk_keys-select :
      (f : Text) (keys : List CellKey)
      → walk_keys x (some f) keys ≡ select f (walk_keys x none keys)
  unfolding walk_keys passes
  walk_keys-select f [] = refl
  walk_keys-select f (key ∷ keys) =
      rw (select-append f (key_rows x key) (walk_keys x none keys), sym (walk_keys-select f keys))
        (elim (Bool-cases (subtree_match (normalize key.path x.root_name).0 f)) [
          | inl h ↦ rw (h, select-key_in f key h)
          | inr h ↦ rw (h, select-key_out f key h)
        ])
