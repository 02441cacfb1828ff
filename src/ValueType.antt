-- ===== src/ValueType.antt =====
-- REG_* type names and the coercion of value bytes, crates/reghive-core/src/valuetype.rs. The proofs
-- are in the modules below.
pub mod Lossless
pub mod Strings
pub mod MultiStrings
pub mod Numbers
pub mod Hex
use mathlib.Core.List.{reverse}
use vgi_reghive.Base.{◌+◌, ◌-◌, ◌/◌, ◌%◌, unwrap_or, ◌∷◌, some, if◌then◌else◌, codes, Option}
use vgi_reghive.Base.{List, Bool, ◌==◌, ◌++◌, not, none, ltb, false, ◌||◌, true, map, length, []}
use vgi_reghive.Base.{leb, take}
use Prim.Native.Nat.{bit_and, ℕ}
use vgi_reghive.Base.Words.{Bytes, from_le}
use vgi_reghive.Base.Strings.{Text}
use vgi_reghive.Base.Decimal.{decimal}
use vgi_reghive.Base.Int.{ℤ, pos, as_i64}
use vgi_reghive.Base.Utf16.{decode_utf16, units, or_replacement}

abbrev pub devprop_mask_type : ℕ
devprop_mask_type = 0xfff

unfoldable pub masked : ℕ → ℕ
masked raw = bit_and raw devprop_mask_type

-- The name of a type code that has one.
unfoldable pub known_name : ℕ → Option Text
known_name t =
    if t == 0
    then some (codes "REG_NONE")
    else if t == 1
    then some (codes "REG_SZ")
    else if t == 2
    then some (codes "REG_EXPAND_SZ")
    else if t == 3
    then some (codes "REG_BINARY")
    else if t == 4
    then some (codes "REG_DWORD")
    else if t == 5
    then some (codes "REG_DWORD_BIG_ENDIAN")
    else if t == 6
    then some (codes "REG_LINK")
    else if t == 7
    then some (codes "REG_MULTI_SZ")
    else if t == 8
    then some (codes "REG_RESOURCE_LIST")
    else if t == 9
    then some (codes "REG_FULL_RESOURCE_DESCRIPTOR")
    else if t == 10
    then some (codes "REG_RESOURCE_REQUIREMENTS_LIST")
    else if t == 11
    then some (codes "REG_QWORD")
    else if t == 16
    then some (codes "REG_FILETIME")
    else none

unfoldable pub type_name : ℕ → Text
unfolding masked known_name decimal
type_name raw = unwrap_or (known_name (masked raw)) (codes "REG_" ++ decimal (masked raw))

pub record Coerced : Type 0 where
  pub value_data : Text
  pub value_dword : Option ℤ
  pub diagnostics : Option Text

-- `char::from_digit(d, 16)`
unfoldable pub hex_digit : ℕ → ℕ
hex_digit d = if ltb d 10 then b'0' + d else b'a' + (d - 10)

-- `b >> 4` and `b & 0x0f`, as digits.
unfoldable pub to_hex_lower : Bytes → Text
unfolding hex_digit
to_hex_lower [] = []
to_hex_lower (b ∷ bs) = hex_digit (b / 16) ∷ hex_digit (b % 16) ∷ to_hex_lower bs

-- `!bytes.len().is_multiple_of(2)`
abbrev pub has_odd_length : Bytes → Bool
has_odd_length bytes = not (length bytes % 2 == 0)

-- `if units.last() == Some(&0) { units.pop(); }`
unfoldable pub trim_nul : List ℕ → List ℕ
trim_nul [] = []
trim_nul (u ∷ []) = if u == 0 then [] else u ∷ []
trim_nul (u ∷ v ∷ rest) = u ∷ trim_nul (v ∷ rest)

-- Whether the decoder met an unpaired surrogate.
unfoldable pub any_error : List (Option ℕ) → Bool
any_error [] = false
any_error (none ∷ os) = true
any_error (some c ∷ os) = any_error os

-- The loop over `char::decode_utf16`: the text, and whether `bad` was set.
unfoldable pub decode_lossy : List ℕ → Text × Bool
unfolding any_error
decode_lossy us = let os = decode_utf16 us in (map or_replacement os, any_error os)

unfoldable pub decode_utf16le : Bytes → Text × Bool
unfolding trim_nul decode_lossy
decode_utf16le bytes =
    let (text, bad) = decode_lossy (trim_nul (units bytes)) in (text, has_odd_length bytes || bad)

-- The loop over the units: the finished parts, the units of the current one, and `bad`.
unfoldable pub split_loop : List ℕ → List Text → List ℕ → Bool → List Text × List ℕ × Bool
unfolding decode_lossy
split_loop [] parts cur bad = (parts, cur, bad)
split_loop (u ∷ us) parts [] bad = elim (u == 0) [
  | true ↦ (parts, [], bad)
  | false ↦ split_loop us parts (u ∷ []) bad
]
split_loop (u ∷ us) parts (c ∷ cur) bad =
    let (text, wrong) = decode_lossy (c ∷ cur) in
    elim (u == 0) [
      | true ↦ split_loop us (parts ++ text ∷ []) [] (bad || wrong)
      | false ↦ split_loop us parts (c ∷ (cur ++ u ∷ [])) bad
    ]

-- The part that no NUL has ended.
unfoldable pub last_part : List Text × List ℕ × Bool → List Text × Bool
unfolding decode_lossy
last_part (parts, [], bad) = (parts, bad)
last_part (parts, c ∷ cur, bad) =
    let (text, wrong) = decode_lossy (c ∷ cur) in (parts ++ text ∷ [], bad || wrong)

unfoldable pub split_multi_sz : Bytes → List Text × Bool
unfolding split_loop last_part
split_multi_sz bytes = last_part (split_loop (units bytes) [] [] (has_odd_length bytes))

-- `parts.join("\n")`
unfoldable pub join_lines : List Text → Text
join_lines [] = []
join_lines (p ∷ []) = p
join_lines (p ∷ q ∷ rest) = p ++ (b'\n' ∷ join_lines (q ∷ rest))

abbrev pub utf16_diagnostics : Bool → Option Text
utf16_diagnostics bad = if bad then some (codes "bad-utf16") else none

abbrev pub as_text : Text × Bool → Coerced
as_text (text, bad) = record {
  value_data = text;
  value_dword = none;
  diagnostics = utf16_diagnostics bad;
}

abbrev pub as_number : ℕ → ℤ → Coerced
as_number v dword = record { value_data = decimal v; value_dword = some dword; diagnostics = none }

abbrev pub as_hex : Bytes → Option Text → Coerced
as_hex raw diagnostics = record {
  value_data = to_hex_lower raw;
  value_dword = none;
  diagnostics = diagnostics;
}

abbrev pub truncated : Option Text
truncated = some (codes "truncated")

-- `u32::from_be_bytes` on the first four bytes.
abbrev pub from_be : Bytes → ℕ
from_be bs = from_le (reverse bs)

unfoldable pub coerce : ℕ → Bytes → Coerced
unfolding masked to_hex_lower decode_utf16le split_multi_sz join_lines
coerce type_raw raw =
    let t = masked type_raw in
    if t == 1 || t == 2 || t == 6
    then as_text (decode_utf16le raw)
    else if t == 4
    then (if leb 4 (length raw)
        then (let v = from_le (take 4 raw) in as_number v (pos v))
        else as_hex raw truncated)
    else if t == 5
    then (if leb 4 (length raw)
        then (let v = from_be (take 4 raw) in as_number v (pos v))
        else as_hex raw truncated)
    else if t == 11 || t == 16
    then (if leb 8 (length raw)
        then (let v = from_le (take 8 raw) in as_number v (as_i64 v))
        else as_hex raw truncated)
    else if t == 7
    then (let (parts, bad) = split_multi_sz raw in as_text (join_lines parts, bad))
    else as_hex raw none
