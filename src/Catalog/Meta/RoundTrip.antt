-- ===== src/Catalog/Meta/RoundTrip.antt =====
-- The reader of JSON tokens reads back the texts that the JSON values hold.
use vgi_reghive.Base.{ℕ, ◌≤◌, ◌≡◌, refl, sym, ap, ◌∙◌, ◌⊎◌, inl, inr, ◌||◌, some, List, [], ◌∷◌}
use vgi_reghive.Base.{◌++◌, map, append-nil, append_assoc, arith, ◌==◌, if◌then◌else◌, Bool-cases}
use vgi_reghive.Base.{All, Text, codes, All-mono}
use vgi_reghive.Catalog.Meta.Pieces.{All-split, All-trimmed}
use vgi_reghive.Catalog.Meta.{replace, escaped, esc, in_quotes, json_list, json_pair}
use vgi_reghive.Catalog.Meta.{keywords_json, trimmed, split, AgentTask, agent_test_tasks_json}
use vgi_reghive.Catalog.Meta.{example_queries_json}
use vgi_reghive.Catalog.Meta.Json.{Token, mark, str, outside, unescaped, tokens_from, json_tokens}
use vgi_reghive.Catalog.Meta.Moves.{Moves, Moves-append, Moves-nil, Moves-in_quotes, Moves-mark}
use vgi_reghive.Catalog.Meta.Moves.{Escapes}
use vgi_reghive.Catalog.Sample.{join}

replace-append : (c : ℕ) (w a b : Text) → replace c w (a ++ b) ≡ replace c w a ++ replace c w b
unfolding replace
replace-append c w [] b = refl
replace-append c w (d ∷ a) b =
    ap (λ (t : Text). (if d == c then w else d ∷ []) ++ t) (replace-append c w a b)
    ∙ sym (append_assoc (if d == c then w else d ∷ []) (replace c w a) (replace c w b))

escaped-append : (a b : Text) → escaped (a ++ b) ≡ escaped a ++ escaped b
unfolding escaped
escaped-append a b =
    ap (replace b'"' (codes "\\\"")) (replace-append b'\\' (codes "\\\\") a b)
    ∙ replace-append b'"' (codes "\\\"") (replace b'\\' (codes "\\\\") a) _

esc-append : (a b : Text) → esc (a ++ b) ≡ esc a ++ esc b
unfolding esc
esc-append a b =
    ap (replace b'\n' (codes "\\n")) (escaped-append a b)
    ∙ replace-append b'\n' (codes "\\n") (escaped a) (escaped b)

-- What one character becomes.
escaped_one :
    (c : ℕ)
    → escaped (c ∷ [])
      ≡ (if c == b'"' then codes "\\\"" else if c == b'\\' then codes "\\\\" else c ∷ [])
unfolding escaped replace
escaped_one c = ground arith

esc_one :
    (c : ℕ)
    → esc (c ∷ []) ≡ (
        if c == b'"'
        then codes "\\\""
        else if c == b'\\'
        then codes "\\\\"
        else if c == b'\n'
        then codes "\\n"
        else c ∷ [])
unfolding esc escaped replace
esc_one c = ground arith

-- Characters that JSON allows in a string; the tasks and queries may have line feeds too.
abbrev pub IsPrintable : ℕ → Type 0
IsPrintable c = 32 ≤ c

abbrev pub IsTextual : ℕ → Type 0
IsTextual c = (32 ≤ c) ⊎ (c ≡ b'\n')

escaped-Escapes : (c : ℕ) → IsPrintable c → Escapes escaped c
unfolding unescaped
escaped-Escapes c h = elim (Bool-cases (c == b'"' || c == b'\\')) [
  | inl e ↦ inl (c, escaped_one c ∙ ground arith, ground arith)
  | inr n ↦ inr (escaped_one c ∙ ground arith, ground arith, ground arith, h)
]

esc-Escapes : (c : ℕ) → IsTextual c → Escapes esc c
unfolding unescaped
esc-Escapes c h = elim (Bool-cases (c == b'"' || c == b'\\')) [
  | inl e ↦ inl (c, esc_one c ∙ ground arith, ground arith)
  | inr n ↦ elim (Bool-cases (c == b'\n')) [
    | inl e ↦ inl (b'n', esc_one c ∙ ground arith, ground arith)
    | inr m ↦ inr (esc_one c ∙ ground arith, ground arith, ground arith, ground arith)
  ]
]

-- The tokens of an array: its items with commas between them.
abbrev pub comma_join : List (List Token) → List Token
comma_join [] = []
comma_join (t ∷ []) = t
comma_join (t ∷ u ∷ ts) = t ++ (mark b',' ∷ comma_join (u ∷ ts))

abbrev pub array : List (List Token) → List Token
array items = mark b'[' ∷ (comma_join items ++ mark b']' ∷ [])

module _ {A : Type 0} (g : A → Text) (k : A → List Token) where
  Moves-join :
      (xs : List A)
      → All (λ (x : A). Moves outside (g x) (k x) outside) xs
      → Moves outside (join (codes ",") (map g xs)) (comma_join (map k xs)) outside
  unfolding join
  Moves-join [] h = Moves-nil outside
  Moves-join (x ∷ []) (m, h) = m
  Moves-join (x ∷ y ∷ xs) (m, h) =
      Moves-append m (Moves-append (Moves-mark b',' (ground arith)) (Moves-join (y ∷ xs) h))

  json_list-tokens :
      (xs : List A)
      → All (λ (x : A). Moves outside (g x) (k x) outside) xs
      → json_tokens (json_list (map g xs)) ≡ some (array (map k xs))
  unfolding json_tokens
  json_list-tokens xs h =
      ap (tokens_from outside) (sym (append-nil (json_list (map g xs))))
      ∙ (Moves-append (Moves-mark b'[' (ground arith))
            (Moves-append (Moves-join xs h) (Moves-mark b']' (ground arith)))).go
          []
      ∙ ap (λ (t : List Token). some (mark b'[' ∷ t))
          (append-nil (comma_join (map k xs) ++ mark b']' ∷ []))

abbrev IsLetter : ℕ → Type 0
IsLetter c = (b'a' ≤ c) × (c ≤ b'z')

letter-Escapes : (c : ℕ) → IsLetter c → Escapes (λ (t : Text). t) c
letter-Escapes c h = inr (refl, ground arith, ground arith, omega (arith, h))

-- The name of a field.
Moves-name : (a : Text) → All IsLetter a → Moves outside (in_quotes a) (str a ∷ []) outside
Moves-name a h =
    Moves-in_quotes (λ (t : Text). t) refl (λ (s t : Text). refl) a (All-mono letter-Escapes a h)

Moves-esc : (x : Text) → All IsTextual x → Moves outside (in_quotes (esc x)) (str x ∷ []) outside
Moves-esc x h = Moves-in_quotes esc (unfold esc in refl) esc-append x (All-mono esc-Escapes x h)

-- The tokens of an object with two fields.
abbrev pub pair_tokens : Text → Text → Text × Text → List Token
pair_tokens a b (x, y) =
    mark b'{' ∷ str a ∷ mark b':' ∷ str x ∷ mark b',' ∷ str b ∷ mark b':' ∷ str y ∷ mark b'}' ∷ []

module _ (a b : Text) (ha : All IsLetter a) (hb : All IsLetter b) where
  Moves-pair :
      (x y : Text)
      → All IsTextual x
      → All IsTextual y
      → Moves outside (json_pair a b (x, y)) (pair_tokens a b (x, y)) outside
  Moves-pair x y hx hy = Moves-append (Moves-mark b'{' (ground arith)) (
      Moves-append (Moves-name a ha) (
        Moves-append (Moves-mark b':' (ground arith)) (
          Moves-append (Moves-esc x hx) (
            Moves-append (Moves-mark b',' (ground arith)) (
              Moves-append (Moves-name b hb) (
                Moves-append (Moves-mark b':' (ground arith))
                  (Moves-append (Moves-esc y hy) (Moves-mark b'}' (ground arith)))))))))

-- The keywords, cut at the commas and trimmed, are read back from their JSON value in order: quotes
-- and backslashes in them are escaped, and nothing else of them is lost or merged. The text has no
-- control characters.
pub keywords_json-tokens :
    (keywords : Text)
    → All IsPrintable keywords
    → json_tokens (keywords_json keywords)
      ≡ some (array (map (λ (k : Text). str k ∷ []) (trimmed (split b',' keywords))))
unfolding keywords_json
keywords_json-tokens keywords h =
    json_list-tokens (λ (k : Text). in_quotes (escaped k)) (λ (k : Text). str k ∷ [])
      (trimmed (split b',' keywords))
      (All-mono
        (λ (k : Text) (hk : All IsPrintable k).
          Moves-in_quotes escaped (unfold escaped replace in refl) escaped-append k
            (All-mono escaped-Escapes k hk))
        _ (All-trimmed IsPrintable (split b',' keywords) (All-split IsPrintable b',' keywords h)))

letters_name : All IsLetter (codes "name") × All IsLetter (codes "prompt")
letters_name = omega arith

letters_sql : All IsLetter (codes "description") × All IsLetter (codes "sql")
letters_sql = omega arith

-- Each task's name and prompt, which may have line feeds but no other control characters, are read
-- back from the JSON value of the tasks: one object for each task, in order.
pub agent_test_tasks_json-tokens :
    (tasks : List AgentTask)
    → All (λ (t : AgentTask). All IsTextual t.name × All IsTextual t.prompt) tasks
    → json_tokens (agent_test_tasks_json tasks)
      ≡ some (
          array (
            map
              (λ (t : AgentTask). pair_tokens (codes "name") (codes "prompt") (t.name, t.prompt))
              tasks))
unfolding agent_test_tasks_json
agent_test_tasks_json-tokens tasks h = json_list-tokens _ _ tasks (
    All-mono
      (λ (t : AgentTask) (ht : All IsTextual t.name × All IsTextual t.prompt).
        Moves-pair _ _ letters_name.0 letters_name.1 t.name t.prompt ht.0 ht.1)
      tasks h)

-- Each example's description and query, which may have line feeds but no other control characters,
-- are read back from the JSON value of the examples: one object for each, in order.
pub example_queries_json-tokens :
    (examples : List (Text × Text))
    → All (λ (e : Text × Text). All IsTextual e.0 × All IsTextual e.1) examples
    → json_tokens (example_queries_json examples)
      ≡ some (array (map (pair_tokens (codes "description") (codes "sql")) examples))
unfolding example_queries_json
example_queries_json-tokens examples h = json_list-tokens _ _ examples (
    All-mono
      (λ (e : Text × Text) (he : All IsTextual e.0 × All IsTextual e.1).
        Moves-pair _ _ letters_sql.0 letters_sql.1 e.0 e.1 he.0 he.1)
      examples h)
