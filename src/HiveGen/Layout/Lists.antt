-- ===== src/HiveGen/Layout/Lists.antt =====
-- The space of lists of values and subkeys.
use vgi_reghive.Base.{ℕ, zero, suc, ◌+◌, ◌*◌, ◌%◌, ◌≡◌, refl, ap, ◌∙◌, true, List, [], ◌∷◌, ◌++◌}
use vgi_reghive.Base.{arith, length, replicate, length-append, length-take, Text, codes}
use vgi_reghive.Base.Utf8.{as_bytes}
use vgi_reghive.Base.Words.{to_le, length-to_le}
use vgi_reghive.HiveGen.Spec.{ValueSpec}
use vgi_reghive.HiveGen.Cells.{alloc_cell}
use vgi_reghive.HiveGen.Cells.Sizes.{padded}
use vgi_reghive.HiveGen.Layout.{Layout, layout_lf, lf_entries, hint, layout_values}
use vgi_reghive.HiveGen.Layout.{layout_value_list, layout_value, offset_list}
use vgi_reghive.HiveGen.Layout.Tiles.{Extends, Extends-refl, Extends-trans, HasRoom, emit-Extends}
use vgi_reghive.HiveGen.Layout.Sizes.{value_space, value_space-units, room_first, room_rest}
use vgi_reghive.HiveGen.Layout.Sizes.{layout_value-Extends}

abbrev pub values_space : List ValueSpec → ℕ
values_space [] = 0
values_space (v ∷ vs) = value_space v + values_space vs

abbrev pub value_list_space : List ValueSpec → ℕ
value_list_space [] = 0
value_list_space (v ∷ vs) = values_space (v ∷ vs) + padded (4 * length (v ∷ vs))

pub length-offset_list : (offs : List ℕ) → length (offset_list offs) ≡ 4 * length offs
unfolding offset_list
length-offset_list [] = omega arith
length-offset_list (off ∷ offs) = omega (
  arith,
  length-append (to_le 4 off) (offset_list offs),
  length-to_le 4 off,
  length-offset_list offs,
)

pub values_space-units : (vs : List ValueSpec) → values_space vs % 8 ≡ 0
values_space-units [] = omega arith
values_space-units (v ∷ vs) = omega (arith, value_space-units v, values_space-units vs)

pub length-layout_values :
    (lay : Layout) (vs : List ValueSpec) → length (layout_values lay vs).1 ≡ length vs
unfolding layout_values
length-layout_values lay [] = refl
length-layout_values lay (v ∷ vs) = ap suc (length-layout_values (layout_value lay v).0 vs)

pub layout_values-Extends :
    (lay : Layout) (vs : List ValueSpec)
    → HasRoom lay (values_space vs)
    → Extends lay (layout_values lay vs).0 (values_space vs)
unfolding layout_values
layout_values-Extends lay [] h = Extends-refl lay
layout_values-Extends lay (v ∷ vs) h =
    let e = layout_value-Extends lay v (room_first _ h) in
    Extends-trans e
      (layout_values-Extends (layout_value lay v).0 vs (room_rest h e (value_space-units v)))

pub layout_value_list-Extends :
    (lay : Layout) (vs : List ValueSpec)
    → HasRoom lay (value_list_space vs)
    → Extends lay (layout_value_list lay vs).0 (value_list_space vs)
unfolding layout_value_list alloc_cell
layout_value_list-Extends lay [] h = Extends-refl lay
layout_value_list-Extends lay (v ∷ vs) h =
    let e = layout_values-Extends lay (v ∷ vs) (room_first _ h) in
    let offs = (layout_values lay (v ∷ vs)).1 in
    Extends-trans e (
      emit-Extends (layout_values lay (v ∷ vs)).0 (offset_list offs) true (4 * length (v ∷ vs))
        (length-offset_list offs ∙ ap (λ (t : ℕ). 4 * t) (length-layout_values lay (v ∷ vs)))
        (room_rest h e (values_space-units (v ∷ vs))))

-- The `lf` list of `n` subkeys.
abbrev pub lf_space : ℕ → ℕ
lf_space zero = 0
lf_space (suc n) = padded (4 + 8 * suc n)

pub length-hint : (name : Text) → length (hint name) ≡ 4
length-hint name = omega (
  arith,
  length-take 4 (as_bytes name ++ replicate 4 0),
  length-append (as_bytes name) (replicate 4 0),
)

pub length-lf_entries : (child : List (ℕ × Text)) → length (lf_entries child) ≡ 8 * length child
unfolding lf_entries
length-lf_entries [] = omega arith
length-lf_entries ((off, name) ∷ child) = omega (
  arith,
  length-append (to_le 4 off) (hint name ++ lf_entries child),
  length-to_le 4 off,
  length-append (hint name) (lf_entries child),
  length-hint name,
  length-lf_entries child,
)

pub layout_lf-Extends :
    (lay : Layout) (child : List (ℕ × Text))
    → HasRoom lay (lf_space (length child))
    → Extends lay (layout_lf lay child).0 (lf_space (length child))
unfolding layout_lf alloc_cell
layout_lf-Extends lay [] h = Extends-refl lay
layout_lf-Extends lay (c ∷ child) h =
    emit-Extends lay (codes "lf" ++ (to_le 2 (length (c ∷ child)) ++ lf_entries (c ∷ child))) true
      (4 + 8 * length (c ∷ child)) (lf_len (c ∷ child)) h
  where
    lf_len :
        (cs : List (ℕ × Text))
        → length (codes "lf" ++ (to_le 2 (length cs) ++ lf_entries cs)) ≡ 4 + 8 * length cs
    lf_len cs = omega (
      arith,
      length-append (to_le 2 (length cs)) (lf_entries cs),
      length-to_le 2 (length cs),
      length-lf_entries cs,
    )
