-- ===== src/HiveGen/Reader/Nodes.antt =====
-- The `nk` cell and the `lf` list of a key are read back from a blob in which they stand.
use mathlib.Core.Option
use vgi_reghive.Base.{ℕ, suc, ◌+◌, ◌*◌, ◌^◌, ◌≤◌, ◌<◌, ◌≡◌, refl, ap, ◌∙◌, true, Option, some}
use vgi_reghive.Base.{List, [], ◌∷◌, ◌++◌, arith, length, take, drop, All, slice, slice_within}
use vgi_reghive.Base.{slice-append_skip, slice-append_at, length-append, Bytes, Text, codes}
use vgi_reghive.Base.Words.{to_le, from_le, from_le-to_le, length-to_le}
use vgi_reghive.Base.Utf8.{as_bytes}
use vgi_reghive.Base.Strings.{text_eq_refl}
use vgi_reghive.BaseBlock.{rd_u32, rd_u64}
use vgi_reghive.HiveGen.Spec.{KeySpec, key_name, key_last_written}
use vgi_reghive.HiveGen.Cells.{cell_with_sign, alloc_cell, nk_payload}
use vgi_reghive.HiveGen.Cells.Sizes.{length-nk_payload, take-all}
use vgi_reghive.HiveGen.Layout.{lf_entries}
use vgi_reghive.HiveGen.Layout.Lists.{length-lf_entries}
use vgi_reghive.HiveGen.Layout.Keys.{nk_len}
use vgi_reghive.HiveGen.Layout.ReadBack.{Stands, Stands-payload}
use vgi_reghive.HiveGen.Reader.{rd_u16, read_offsets, read_trees, read_key, values_at, trees_at}
use vgi_reghive.HiveGen.Reader.{KeyTree, tree, Trees}
use vgi_reghive.HiveGen.Reader.Offsets.{read_offsets_moved, read_offsets-lf_entries, offsets_in}
use vgi_reghive.HiveGen.Reader.Offsets.{IsOffset}

-- The numbers of a key cell have the widths of its fields.
pub record NkWidths (k : KeySpec) (n_sub sub_list n_values value_list : ℕ) : Type 0 where
  pub written : key_last_written k < 2 ^ 64
  pub name : length (as_bytes (key_name k)) < 2 ^ 16
  pub sub_count : n_sub < 2 ^ 32
  pub sub_offset : sub_list < 2 ^ 32
  pub value_count : n_values < 2 ^ 32
  pub value_offset : value_list < 2 ^ 32

module _ (blob : Bytes) (off : ℕ) (k : KeySpec)
    (flags parent n_sub sub_list n_values value_list : ℕ) (h : nk_len (key_name k) + 11 < 2 ^ 32)
    (s : Stands blob (
      off,
      cell_with_sign (nk_payload k flags parent n_sub sub_list n_values value_list) true,
    )) where
  abbrev payload : Bytes
  payload = nk_payload k flags parent n_sub sub_list n_values value_list

  nk_slice :
      (i m : ℕ)
      → i + m ≤ nk_len (key_name k)
      → slice blob (4096 + off + (4 + i)) m ≡ some (take m (drop i payload))
  nk_slice i m q =
      let len = length-nk_payload k flags parent n_sub sub_list n_values value_list in
      Stands-payload payload true (omega (arith, len, h)) blob off i m s (omega (arith, len, q))
      ∙ slice_within payload i m (omega (arith, len, q))

  read_written :
      key_last_written k < 2 ^ 64 → rd_u64 blob (4096 + off + 8) ≡ some (key_last_written k)
  unfolding rd_u64 nk_payload to_le
  read_written q =
      rw (nk_slice 4 8 (omega arith)) (ap some (from_le-to_le 8 (key_last_written k) q))

  read_n_sub : n_sub < 2 ^ 32 → rd_u32 blob (4096 + off + 24) ≡ some n_sub
  unfolding rd_u32 nk_payload to_le
  read_n_sub q = rw (nk_slice 20 4 (omega arith)) (ap some (from_le-to_le 4 n_sub q))

  read_sub_list : sub_list < 2 ^ 32 → rd_u32 blob (4096 + off + 32) ≡ some sub_list
  unfolding rd_u32 nk_payload to_le
  read_sub_list q = rw (nk_slice 28 4 (omega arith)) (ap some (from_le-to_le 4 sub_list q))

  read_n_values : n_values < 2 ^ 32 → rd_u32 blob (4096 + off + 40) ≡ some n_values
  unfolding rd_u32 nk_payload to_le
  read_n_values q = rw (nk_slice 36 4 (omega arith)) (ap some (from_le-to_le 4 n_values q))

  read_value_list : value_list < 2 ^ 32 → rd_u32 blob (4096 + off + 44) ≡ some value_list
  unfolding rd_u32 nk_payload to_le
  read_value_list q = rw (nk_slice 40 4 (omega arith)) (ap some (from_le-to_le 4 value_list q))

  read_name_len :
      length (as_bytes (key_name k)) < 2 ^ 16
      → rd_u16 blob (4096 + off + 76) ≡ some (length (as_bytes (key_name k)))
  unfolding rd_u16 nk_payload to_le
  read_name_len q =
      rw (nk_slice 72 2 (omega arith))
        (ap some (from_le-to_le 2 (length (as_bytes (key_name k))) q))

  read_signature : slice blob (4096 + off + 4) 2 ≡ some (codes "nk")
  unfolding nk_payload to_le
  read_signature = nk_slice 0 2 (omega arith)

  read_key_name :
      slice blob (4096 + off + 80) (length (as_bytes (key_name k))) ≡ some (as_bytes (key_name k))
  unfolding nk_payload to_le
  read_key_name =
      nk_slice 76 (length (as_bytes (key_name k))) (omega arith)
      ∙ ap some (take-all (length (as_bytes (key_name k))) (as_bytes (key_name k)) (omega arith))

  pub read_key-nk :
      (fuel : ℕ) (vals : List (Bytes × (ℕ × Bytes))) (subs : Trees)
      → NkWidths k n_sub sub_list n_values value_list
      → values_at blob n_values value_list ≡ some vals
      → trees_at (read_key fuel blob) blob n_sub sub_list ≡ some subs
      → read_key (suc fuel) blob off
        ≡ some (tree (as_bytes (key_name k)) (key_last_written k) vals subs)
  unfolding read_key
  read_key-nk fuel vals subs w v t =
      rw
        (
          read_signature,
          read_written w.written,
          read_n_sub w.sub_count,
          read_sub_list w.sub_offset,
          read_n_values w.value_count,
          read_value_list w.value_offset,
          read_name_len w.name,
          read_key_name,
          v,
          t,
          text_eq_refl (codes "nk"),
        )
        refl

-- The `lf` list of subkeys that are read one by one.
module _ (read : ℕ → Option KeyTree) (blob : Bytes) (off : ℕ) (c : ℕ × Text)
    (child : List (ℕ × Text)) (few : length (c ∷ child) < 2 ^ 16) (small : All IsOffset (c ∷ child))
    (s : Stands blob (
      off,
      alloc_cell (codes "lf" ++ (to_le 2 (length (c ∷ child)) ++ lf_entries (c ∷ child))),
    )) where
  abbrev entries : Bytes
  entries = codes "lf" ++ (to_le 2 (length (c ∷ child)) ++ lf_entries (c ∷ child))

  entries_len : length entries ≡ 4 + 8 * length (c ∷ child)
  unfolding to_le
  entries_len = omega (arith, length-lf_entries (c ∷ child))

  lf_slice :
      (i m : ℕ) → i + m ≤ length entries → slice blob (4096 + off + 4 + i) m ≡ slice entries i m
  unfolding alloc_cell
  lf_slice i m q =
      ap (λ (t : ℕ). slice blob t m) (omega arith)
      ∙ Stands-payload entries true (omega (arith, entries_len, few)) blob off i m s q

  lf_offsets :
      read_offsets 8 (length (c ∷ child)) blob (4096 + off + 8) ≡ some (offsets_in (c ∷ child))
  lf_offsets =
      let front : Bytes = codes "lf" ++ to_le 2 (length (c ∷ child)) in
      let n : length front ≡ 4 = omega (
        arith,
        length-append (codes "lf") (to_le 2 (length (c ∷ child))),
        length-to_le 2 (length (c ∷ child)),
      ) in
      ap (read_offsets 8 (length (c ∷ child)) blob) (omega arith)
      ∙ read_offsets_moved 8 (length (c ∷ child)) (4096 + off + 4) 4 (length entries) blob entries
          (omega arith) lf_slice (omega (arith, entries_len))
      ∙ ap (read_offsets 8 (length (c ∷ child)) entries) (omega (arith, n))
      ∙ read_offsets_moved 8 (length (c ∷ child)) (length front) 0 (length (lf_entries (c ∷ child)))
          entries (lf_entries (c ∷ child)) (omega arith)
          (λ i m q. slice-append_skip front (lf_entries (c ∷ child)) i m)
          (omega (arith, length-lf_entries (c ∷ child)))
      ∙ read_offsets-lf_entries (c ∷ child) small

  lf_signature : slice blob (4096 + off + 4) 2 ≡ some (codes "lf")
  lf_signature =
      ap (λ (t : ℕ). slice blob t 2) (omega arith)
      ∙ lf_slice 0 2 (omega (arith, entries_len))
      ∙ slice-append_at [] (codes "lf") _

  count_front :
      slice (to_le 2 (length (c ∷ child)) ++ lf_entries (c ∷ child)) 0 2
      ≡ some (to_le 2 (length (c ∷ child)))
  unfolding to_le
  count_front = slice-append_at [] (to_le 2 (length (c ∷ child))) (lf_entries (c ∷ child))

  lf_count : rd_u16 blob (4096 + off + 6) ≡ some (length (c ∷ child))
  unfolding rd_u16
  lf_count =
      ap (λ (t : ℕ). Option.map from_le (slice blob t 2)) (omega arith)
      ∙ ap (Option.map from_le) (
          lf_slice 2 2 (omega (arith, entries_len))
          ∙ slice-append_skip (codes "lf") (to_le 2 (length (c ∷ child)) ++ lf_entries (c ∷ child))
              0 2
          ∙ count_front)
      ∙ ap some (from_le-to_le 2 (length (c ∷ child)) few)

  pub trees_at-lf :
      (subs : Trees)
      → read_trees read (offsets_in (c ∷ child)) ≡ some subs
      → trees_at read blob (length (c ∷ child)) off ≡ some subs
  unfolding trees_at
  trees_at-lf subs e =
      rw (lf_signature, lf_count, lf_offsets, e, text_eq_refl (codes "lf")) (ground arith)
