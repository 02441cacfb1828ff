-- ===== src/HiveGen/Cells.antt =====
-- Cells and their payloads: `pad8` to `vk_payload`. Sums of u32 wrap around.
pub mod Sizes
use vgi_reghive.Base.{ℕ, ◌+◌, ◌-◌, ◌*◌, ◌/◌, ◌%◌, ◌^◌, Bool, true, false, [], ◌∷◌, ◌++◌, Bytes}
use vgi_reghive.Base.{Text, codes, length, take, replicate, if◌then◌else◌}
use vgi_reghive.Base.Words.{to_le}
use vgi_reghive.Base.Utf8.{as_bytes}
use vgi_reghive.HiveGen.Spec.{ValueSpec, KeySpec, key_name, key_last_written}

-- `as u32`
abbrev pub as_u32 : ℕ → ℕ
as_u32 n = n % 2 ^ 32

-- `n.div_ceil(8) * 8`
unfoldable pub pad8 : ℕ → ℕ
pad8 n = as_u32 ((n + 7) / 8 * 8)

unfoldable pub cell_size : ℕ → ℕ
unfolding pad8
cell_size payload_len = pad8 (as_u32 (4 + payload_len))

-- `v.resize(n, 0)`
abbrev pub resize : ℕ → Bytes → Bytes
resize n b = take n b ++ replicate (n - length b) 0

-- The bits of `-(n as i32)`.
abbrev pub negated : ℕ → ℕ
negated n = as_u32 (2 ^ 32 - n)

unfoldable pub cell_with_sign : Bytes → Bool → Bytes
unfolding cell_size
cell_with_sign payload allocated =
    let total = cell_size (as_u32 (length payload)) in
    let signed = if allocated then negated total else total in
    resize total (to_le 4 signed ++ payload)

unfoldable pub alloc_cell : Bytes → Bytes
unfolding cell_with_sign
alloc_cell payload = cell_with_sign payload true

unfoldable pub free_cell : Bytes → Bytes
unfolding cell_with_sign
free_cell payload = cell_with_sign payload false

-- The bits of -1.
abbrev pub minus_one : ℕ
minus_one = 0xffff_ffff

abbrev pub key_comp_name : ℕ
key_comp_name = 0x20

abbrev pub key_hive_entry : ℕ
key_hive_entry = 4

abbrev pub value_comp_name_ascii : ℕ
value_comp_name_ascii = 1

abbrev pub data_is_resident_mask : ℕ
data_is_resident_mask = 0x8000_0000

-- The offset of the value list is given by its bits.
unfoldable pub nk_payload : KeySpec → ℕ → ℕ → ℕ → ℕ → ℕ → ℕ → Bytes
nk_payload k flags parent_rel n_sub sub_list_off n_values value_list_off =
    let name = as_bytes (key_name k) in
    codes "nk"
    ++ (to_le 2 flags
        ++ (to_le 8 (key_last_written k)
            ++ (to_le 4 0
                ++ (to_le 4 parent_rel
                    ++ (to_le 4 n_sub
                        ++ (to_le 4 0
                            ++ (to_le 4 sub_list_off
                                ++ (to_le 4 minus_one
                                    ++ (to_le 4 n_values
                                        ++ (to_le 4 value_list_off
                                            ++ (to_le 4 0xffff_ffff
                                                ++ (to_le 4 minus_one
                                                    ++ (to_le 4 0
                                                        ++ (to_le 4 0
                                                            ++ (to_le 4 0
                                                            ++ (to_le 4 0
                                                            ++ (to_le 4 0
                                                            ++ (to_le 2 (length name)
                                                            ++ (to_le 2 0 ++ name)))))))))))))))))))

-- The size of the name and the flags of a value.
abbrev pub name_fields : Text → ℕ × ℕ
name_fields [] = (0, 0)
name_fields (c ∷ s) = (length (as_bytes (c ∷ s)), value_comp_name_ascii)

unfoldable pub vk_payload : ValueSpec → ℕ → ℕ → Bytes
vk_payload v data_size_raw data_offset_relative =
    let (name_size, flags) = name_fields v.name in
    codes "vk"
    ++ (to_le 2 name_size
        ++ (to_le 4 data_size_raw
            ++ (to_le 4 data_offset_relative
                ++ (to_le 4 v.type_raw ++ (to_le 2 flags ++ (to_le 2 0 ++ as_bytes v.name))))))
