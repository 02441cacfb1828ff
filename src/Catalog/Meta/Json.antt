-- ===== src/Catalog/Meta/Json.antt =====
-- A reader of JSON tokens, and that it reads back the texts that the JSON values hold.
use vgi_reghive.Base.{ℕ, ◌||◌, Option, none, some, List, [], ◌∷◌, ◌++◌, ltb, ◌==◌, if◌then◌else◌}
use vgi_reghive.Base.{◌>>=◌, Text}

-- A structural character outside of strings, or a string.
pub data Token : Type 0 where
  mark : ℕ → Token
  str : Text → Token

pub data Reader : Type 0 where
  outside : Reader
  inside : Text → Reader
  behind_backslash : Text → Reader

-- The character that an escape stands for; the two that no text here needs beyond the line feed are
-- the quote and the backslash.
unfoldable pub unescaped : ℕ → Option ℕ
unescaped c = if c == b'n' then some b'\n' else if c == b'"' || c == b'\\' then some c else none

-- One character: control characters are no part of a string.
unfoldable pub read_char : Reader → ℕ → Option (Reader × List Token)
read_char outside c = if c == b'"' then some (inside [], []) else some (outside, mark c ∷ [])
read_char (inside s) c =
    if c == b'"'
    then some (outside, str s ∷ [])
    else if c == b'\\'
    then some (behind_backslash s, [])
    else if ltb c 32
    then none
    else some (inside (s ++ c ∷ []), [])
read_char (behind_backslash s) c = do d ← unescaped c; some (inside (s ++ d ∷ []), [])

-- A string has to end.
unfoldable pub at_end : Reader → Option (List Token)
at_end outside = some []
at_end (inside s) = none
at_end (behind_backslash s) = none

unfoldable pub tokens_from : Reader → Text → Option (List Token)
unfolding read_char unescaped at_end
tokens_from r [] = at_end r
tokens_from r (c ∷ text) = do
  (r1, now) ← read_char r c
  later ← tokens_from r1 text
  some (now ++ later)

unfoldable pub json_tokens : Text → Option (List Token)
unfolding tokens_from
json_tokens text = tokens_from outside text
