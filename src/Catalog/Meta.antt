-- ===== src/Catalog/Meta.antt =====
-- The JSON values of crates/reghive-worker/src/meta.rs, and the tags of an object.
pub mod Json
pub mod Moves
pub mod Pieces
pub mod RoundTrip
use vgi_reghive.Base.{ℕ, Bool, true, not, ◌||◌, ◌&&◌, List, [], ◌∷◌, ◌++◌, map, Text, codes, leb}
use vgi_reghive.Base.{◌==◌, if◌then◌else◌}
use vgi_reghive.Catalog.Sample.{join}
use mathlib.Core.List.{reverse}

-- `s.replace(c, with)`, for a character.
unfoldable pub replace : ℕ → Text → Text → Text
replace c with [] = []
replace c with (d ∷ s) = (if d == c then with else d ∷ []) ++ replace c with s

-- `s.split(c)`: the first piece and the others.
unfoldable pub split_first : ℕ → Text → Text × List Text
split_first c [] = ([], [])
split_first c (d ∷ s) =
    let (piece, pieces) = split_first c s in
    if d == c then ([], piece ∷ pieces) else (d ∷ piece, pieces)

unfoldable pub split : ℕ → Text → List Text
unfolding split_first
split c s = let (piece, pieces) = split_first c s in piece ∷ pieces

-- The characters with the Unicode property White_Space.
unfoldable pub is_whitespace : ℕ → Bool
is_whitespace c =
    (leb 9 c && leb c 13)
    || c == 0x20
    || c == 0x85
    || c == 0xa0
    || c == 0x1680
    || (leb 0x2000 c && leb c 0x200a)
    || c == 0x2028
    || c == 0x2029
    || c == 0x202f
    || c == 0x205f
    || c == 0x3000

unfoldable pub trim_left : Text → Text
trim_left [] = []
trim_left (c ∷ s) = let rest = trim_left s in if is_whitespace c then rest else c ∷ s

-- `str::trim`
unfoldable pub trim : Text → Text
unfolding trim_left is_whitespace
trim s = reverse (trim_left (reverse (trim_left s)))

-- `.map(str::trim).filter(|k| !k.is_empty())`
unfoldable pub trimmed : List Text → List Text
unfolding trim
trimmed [] = []
trimmed (k ∷ ks) = elim (trim k) [ [] ↦ trimmed ks | ◌∷◌ c s ↦ (c ∷ s) ∷ trimmed ks ]

-- `k.replace('\\', "\\\\").replace('"', "\\\"")`
unfoldable pub escaped : Text → Text
unfolding replace
escaped k = replace b'"' (codes "\\\"") (replace b'\\' (codes "\\\\") k)

-- `esc` of the tasks and of the example queries: line feeds as well.
unfoldable pub esc : Text → Text
unfolding escaped
esc s = replace b'\n' (codes "\\n") (escaped s)

abbrev pub in_quotes : Text → Text
in_quotes s = codes "\"" ++ (s ++ codes "\"")

abbrev pub json_list : List Text → Text
json_list items = codes "[" ++ (join (codes ",") items ++ codes "]")

unfoldable pub keywords_json : Text → Text
unfolding escaped trimmed split join
keywords_json keywords =
    json_list (map (λ (k : Text). in_quotes (escaped k)) (trimmed (split b',' keywords)))

pub record AgentTask : Type 0 where
  pub name : Text
  pub prompt : Text

-- `{"a":"…","b":"…"}`
abbrev pub json_pair : Text → Text → Text × Text → Text
json_pair a b (x, y) =
    codes "{"
    ++ (in_quotes a
        ++ (codes ":"
            ++ (in_quotes (esc x)
                ++ (codes ","
                    ++ (in_quotes b ++ (codes ":" ++ (in_quotes (esc y) ++ codes "}")))))))

unfoldable pub agent_test_tasks_json : List AgentTask → Text
unfolding esc join
agent_test_tasks_json tasks =
    json_list
      (map (λ (t : AgentTask). json_pair (codes "name") (codes "prompt") (t.name, t.prompt)) tasks)

unfoldable pub example_queries_json : List (Text × Text) → Text
unfolding esc join
example_queries_json examples =
    json_list (map (json_pair (codes "description") (codes "sql")) examples)

unfoldable pub object_tags : Text → Text → Text → Text → Text → List (Text × Text)
unfolding keywords_json
object_tags title description_llm description_md keywords category =
    (codes "vgi.title", title)
    ∷ (codes "vgi.doc_llm", description_llm)
    ∷ (codes "vgi.doc_md", description_md)
    ∷ (codes "vgi.keywords", keywords_json keywords)
    ∷ (codes "vgi.category", category)
    ∷ []
