-- ===== src/Catalog/Sample.antt =====
-- `compact_blob_sql` of crates/reghive-worker/src/sample.rs; the embedded demo hive is a parameter.
pub mod Parts
pub mod Denotes
use vgi_reghive.Base.{ℕ, zero, suc, ◌/◌, ◌%◌, Bool, List, [], ◌∷◌, ◌++◌, Bytes, Text, codes}
use vgi_reghive.Base.{length, drop, leb, ◌==◌, if◌then◌else◌}
use vgi_reghive.Base.Decimal.{decimal}
use vgi_reghive.ValueType.{hex_digit}

abbrev pub zero_run_min : ℕ
zero_run_min = 32

-- `bytes[i..].iter().take_while(|&&b| b == 0).count()`
unfoldable pub zero_run : Bytes → ℕ
zero_run [] = 0
zero_run (b ∷ bytes) = let more = zero_run bytes in if b == 0 then suc more else 0

-- `{:02x}`
abbrev pub hex_byte : ℕ → Text
hex_byte b = hex_digit (b / 16) ∷ hex_digit (b % 16) ∷ []

abbrev pub quoted : Text → Text
quoted lit = codes "'" ++ (lit ++ codes "'")

abbrev pub repeated : ℕ → Text
repeated run = codes "repeat('00', " ++ (decimal run ++ codes ")")

-- The pending literal is pushed, if there is one.
unfoldable pub flush : Text → List Text → List Text
flush [] parts = parts
flush (c ∷ lit) parts = parts ++ quoted (c ∷ lit) ∷ []

-- One round of the loop at the byte `b`: how many bytes it takes, the new literal and the new parts.
unfoldable pub blob_step : ℕ → Bytes → Text → List Text → ℕ × (Text × List Text)
unfolding flush
blob_step b bytes lit parts =
    let run = zero_run (b ∷ bytes) in
    if leb zero_run_min run
    then (run, ([], flush lit parts ++ repeated run ∷ []))
    else (1, (lit ++ hex_byte b, parts))

-- The `while` loop over what is left of the bytes; a round takes a byte at least.
unfoldable pub blob_loop : ℕ → Bytes → Text → List Text → Text × List Text
blob_loop zero bytes lit parts = (lit, parts)
blob_loop (suc fuel) [] lit parts = (lit, parts)
blob_loop (suc fuel) (b ∷ bytes) lit parts =
    let (step, (lit1, parts1)) = blob_step b bytes lit parts in
    blob_loop fuel (drop step (b ∷ bytes)) lit1 parts1

-- `parts.join(sep)`
unfoldable pub join : Text → List Text → Text
join sep [] = []
join sep (p ∷ []) = p
join sep (p ∷ q ∷ parts) = p ++ (sep ++ join sep (q ∷ parts))

unfoldable pub or_empty : List Text → List Text
or_empty [] = codes "''" ∷ []
or_empty (p ∷ parts) = p ∷ parts

unfoldable pub compact_blob_sql : Bytes → Text
unfolding blob_loop join or_empty flush
compact_blob_sql bytes =
    let (lit, parts) = blob_loop (length bytes) bytes [] [] in
    codes "unhex(" ++ (join (codes " || ") (or_empty (flush lit parts)) ++ codes ")::BLOB")
