-- ===== src/Catalog/Meta/Moves.antt =====
-- Runs of the reader of JSON tokens, and strings that an escaping makes readable.
use vgi_reghive.Base.{ℕ, ◌≤◌, ◌≡◌, refl, sym, ap, ◌∙◌, ◌≢◌, ◌⊎◌, inl, inr, Option, none, some}
use vgi_reghive.Base.{List, [], ◌∷◌, ◌++◌, append-nil, append_assoc, arith, ◌>>=◌, All, Text}
use vgi_reghive.Catalog.Meta.{in_quotes}
use vgi_reghive.Catalog.Meta.Json.{Token, mark, str, Reader, outside, inside, behind_backslash}
use vgi_reghive.Catalog.Meta.Json.{unescaped, read_char, tokens_from}
use mathlib.Core.Option
use mathlib.Core.Path.{subst}

-- Over the text the reader goes from the one state to the other, and gives the tokens.
pub record Moves (r : Reader) (text : Text) (toks : List Token) (r1 : Reader) : Type 0 where
  pub go :
      (rest : Text) → tokens_from r (text ++ rest) ≡ Option.map (◌++◌ toks) (tokens_from r1 rest)

map-append :
    (ts us : List Token) (o : Option (List Token))
    → Option.map (◌++◌ ts) (Option.map (◌++◌ us) o) ≡ Option.map (◌++◌ (ts ++ us)) o
map-append ts us none = refl
map-append ts us (some t) = ap some (sym (append_assoc ts us t))

pub Moves-append :
    {r r1 r2 : Reader} {a b : Text} {ts us : List Token}
    → Moves r a ts r1
    → Moves r1 b us r2
    → Moves r (a ++ b) (ts ++ us) r2
Moves-append {r} {r1} {r2} {a} {b} {ts} {us} m n = record {
  go = λ rest.
      ap (tokens_from r) (append_assoc a b rest)
      ∙ m.go (b ++ rest)
      ∙ ap (Option.map (◌++◌ ts)) (n.go rest)
      ∙ map-append ts us (tokens_from r2 rest);
}

map-nil : (o : Option (List Token)) → o ≡ Option.map (◌++◌ []) o
map-nil none = refl
map-nil (some us) = refl

pub Moves-nil : (r : Reader) → Moves r [] [] r
Moves-nil r = record { go = λ rest. map-nil (tokens_from r rest) }

bind_map :
    (ts : List Token) (o : Option (List Token))
    → (o >>= (λ (later : List Token). some (ts ++ later))) ≡ Option.map (◌++◌ ts) o
bind_map ts none = refl
bind_map ts (some us) = refl

-- One character.
Moves-one :
    (r r1 : Reader) (c : ℕ) (ts : List Token)
    → read_char r c ≡ some (r1, ts)
    → Moves r (c ∷ []) ts r1
unfolding tokens_from
Moves-one r r1 c ts e = record { go = λ (rest : Text). rw e (bind_map ts (tokens_from r1 rest)) }

Moves-escape :
    (s : Text) (c d : ℕ)
    → unescaped c ≡ some d
    → Moves (inside s) (b'\\' ∷ c ∷ []) [] (inside (s ++ d ∷ []))
Moves-escape s c d e =
    Moves-append (Moves-one (inside s) (behind_backslash s) b'\\' [] (unfold read_char in refl))
      (Moves-one (behind_backslash s) (inside (s ++ d ∷ [])) c [] (unfold read_char in rw e refl))

Moves-plain :
    (s : Text) (c : ℕ)
    → c ≢ b'"'
    → c ≢ b'\\'
    → 32 ≤ c
    → Moves (inside s) (c ∷ []) [] (inside (s ++ c ∷ []))
Moves-plain s c q b h =
    Moves-one (inside s) (inside (s ++ c ∷ [])) c [] (unfold read_char in ground arith)

-- What an escaping makes of a character: an escape that stands for it, or itself.
abbrev pub Escapes : (Text → Text) → ℕ → Type 0
Escapes f c =
    ((x : ℕ) × (f (c ∷ []) ≡ b'\\' ∷ x ∷ []) × (unescaped x ≡ some c))
    ⊎ ((f (c ∷ []) ≡ c ∷ []) × (c ≢ b'"') × (c ≢ b'\\') × (32 ≤ c))

module _ (f : Text → Text) (nil : f [] ≡ [])
    (f-append : (a b : Text) → f (a ++ b) ≡ f a ++ f b) where
  Moves-char :
      (s : Text) (c : ℕ) → Escapes f c → Moves (inside s) (f (c ∷ [])) [] (inside (s ++ c ∷ []))
  Moves-char s c (inl (x, e, u)) =
      subst (λ (t : Text). Moves (inside s) t [] (inside (s ++ c ∷ []))) (sym e)
        (Moves-escape s x c u)
  Moves-char s c (inr (e, q, b, h)) =
      subst (λ (t : Text). Moves (inside s) t [] (inside (s ++ c ∷ []))) (sym e)
        (Moves-plain s c q b h)

  Moves-text :
      (s text : Text) → All (Escapes f) text → Moves (inside s) (f text) [] (inside (s ++ text))
  Moves-text s [] h =
      subst (λ (t : Text). Moves (inside s) t [] (inside (s ++ []))) (sym nil)
        (subst (λ (t : Text). Moves (inside s) [] [] (inside t)) (sym (append-nil s))
          (Moves-nil (inside s)))
  Moves-text s (c ∷ text) (hc, h) =
      subst (λ (t : Text). Moves (inside s) t [] (inside (s ++ c ∷ text)))
        (sym (f-append (c ∷ []) text))
        (subst (λ (t : Text). Moves (inside s) (f (c ∷ []) ++ f text) [] (inside t))
          (append_assoc s (c ∷ []) text)
          (Moves-append (Moves-char s c hc) (Moves-text (s ++ c ∷ []) text h)))

  -- A string in quotes is one token.
  pub Moves-in_quotes :
      (text : Text)
      → All (Escapes f) text
      → Moves outside (in_quotes (f text)) (str text ∷ []) outside
  Moves-in_quotes text h =
      Moves-append (Moves-one outside (inside []) b'"' [] (unfold read_char in refl)) (
        Moves-append (Moves-text [] text h)
          (Moves-one (inside text) outside b'"' (str text ∷ []) (unfold read_char in refl)))

-- A structural character.
pub Moves-mark : (c : ℕ) → c ≢ b'"' → Moves outside (c ∷ []) (mark c ∷ []) outside
Moves-mark c n = Moves-one outside outside c (mark c ∷ []) (unfold read_char in ground arith)
