-- ===== src/Catalog/Meta/Pieces.antt =====
-- What holds of all characters of a text holds of those of its pieces, trimmed.
use vgi_reghive.Base.{ℕ, inl, inr, List, [], ◌∷◌, ◌==◌, Bool-cases, All, Text}
use mathlib.Core.List.{reverse, reverse_aux}
use vgi_reghive.Catalog.Meta.{split_first, split, trim_left, trim, trimmed, is_whitespace}

module _ (P : ℕ → Type 0) where
  All-reverse : (s : Text) → All P s → All P (reverse s)
  All-reverse s h = onto s [] h tt
    where
      onto : (a b : Text) → All P a → All P b → All P (reverse_aux a b)
      onto [] b ha hb = hb
      onto (c ∷ a) b (hc, ha) hb = onto a (c ∷ b) ha (hc, hb)

  All-trim_left : (s : Text) → All P s → All P (trim_left s)
  unfolding trim_left
  All-trim_left [] h = tt
  All-trim_left (c ∷ s) (hc, h) = elim (Bool-cases (is_whitespace c)) [
    | inl e ↦ rw e (All-trim_left s h)
    | inr e ↦ rw e (hc, h)
  ]

  All-trim : (s : Text) → All P s → All P (trim s)
  unfolding trim
  All-trim s h = All-reverse _ (All-trim_left _ (All-reverse _ (All-trim_left s h)))

  All-split_first :
      (c : ℕ) (s : Text) → All P s → All P (split_first c s).0 × All (All P) (split_first c s).1
  unfolding split_first
  All-split_first c [] h = (tt, tt)
  All-split_first c (d ∷ s) (hd, h) =
      let (first, others) = All-split_first c s h in
      elim (Bool-cases (d == c)) [
        | inl e ↦ rw e (tt, (first, others))
        | inr e ↦ rw e ((hd, first), others)
      ]

  pub All-trimmed : (ks : List Text) → All (All P) ks → All (All P) (trimmed ks)
  unfolding trimmed
  All-trimmed [] h = tt
  All-trimmed (k ∷ ks) (hk, h) = kept (trim k) (All-trim k hk) (All-trimmed ks h)
    where
      kept :
          (t : Text)
          → All P t
          → All (All P) (trimmed ks)
          → All
              (All P)
              (elim t as (λ x. List Text) [ [] ↦ trimmed ks | ◌∷◌ c s ↦ (c ∷ s) ∷ trimmed ks ])
      kept [] ht more = more
      kept (c ∷ s) ht more = (ht, more)

  pub All-split : (c : ℕ) (s : Text) → All P s → All (All P) (split c s)
  unfolding split
  All-split c s h = All-split_first c s h
