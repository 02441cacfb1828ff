-- ===== src/Hive/Walk/Paths.antt =====
-- The path that a row shows, and what marks a key as an orphan.
use vgi_reghive.Base.{ℕ, ◌≡◌, sym, ap, ◌∙◌, ◌≢◌, ◌⊎◌, inl, inr, true, false, none, some, [], ◌∷◌}
use vgi_reghive.Base.{◌++◌, append_assoc, arith, Bool-cases, Option-cases, length, length-append}
use vgi_reghive.Base.{Text, codes, Bool}
use vgi_reghive.Hive.Walk.{normalize, backslash, text_eq, orphan_path, normalize_stripped}
use vgi_reghive.Base.Strings.{strip_prefix-append, text_eq_iff, strip_prefix, strip_prefix_sound}
use vgi_reghive.Hive.Walk.{subtree_match}
use vgi_reghive.Base.{◌↔◌, ◌||◌, refl}
use vgi_reghive.Base.Strings.{starts_with, starts_with_sound, starts_with-append, text_eq_refl}
use vgi_reghive.Base.Strings.{to_lower}

longer : (root rest : Text) (r : ℕ) → text_eq ((r ∷ root) ++ backslash ∷ rest) (r ∷ root) ≡ false
longer root rest r = elim (Bool-cases (text_eq ((r ∷ root) ++ backslash ∷ rest) (r ∷ root))) [
  | inr e ↦ e
  | inl e ↦ absurd (
      omega (arith, length-append (r ∷ root) (backslash ∷ rest), ap length ((text_eq_iff _ _).0 e)))
]

strip_root :
    (r : ℕ) (root rest : Text)
    → strip_prefix (r ∷ (root ++ backslash ∷ [])) (r ∷ (root ++ backslash ∷ rest)) ≡ some rest
strip_root r root rest =
    ap (strip_prefix (r ∷ (root ++ backslash ∷ [])))
      (ap (◌∷◌ r) (sym (append_assoc root (backslash ∷ []) rest)))
    ∙ strip_prefix-append (r ∷ (root ++ backslash ∷ [])) rest

-- The path of a key below a named root, written with a separator in front, loses the root, and the
-- key is no orphan.
pub normalize-live :
    (r : ℕ) (root rest : Text)
    → normalize (backslash ∷ (r ∷ root) ++ backslash ∷ rest) (r ∷ root) ≡ (rest, false)
unfolding normalize
normalize-live r root rest =
    rw (strip_prefix-append (backslash ∷ []) ((r ∷ root) ++ backslash ∷ rest), longer root rest r)
      (rw (strip_root r root rest))

normalize-separated :
    (path root : Text) → normalize (backslash ∷ path) root ≡ normalize_stripped path root
unfolding normalize
normalize-separated path root = rw (strip_prefix-append (backslash ∷ []) path)

-- A path that, less a separator in front, is neither the named root nor below it is put under
-- `$Deleted`, and the key is an orphan.
pub normalize-orphan :
    (r : ℕ) (root path : Text)
    → path ≢ r ∷ root
    → ((rest : Text) → path ≢ (r ∷ root) ++ backslash ∷ rest)
    → normalize (backslash ∷ path) (r ∷ root) ≡ (codes "$Deleted\\" ++ path, true)
unfolding normalize_stripped orphan_path
normalize-orphan r root path top below =
    rw (normalize-separated path (r ∷ root)) (elim (Bool-cases (text_eq path (r ∷ root))) [
      | inl e ↦ absurd (top ((text_eq_iff path (r ∷ root)).0 e))
      | inr e ↦ rw e (not_below (Option-cases (strip_prefix (r ∷ (root ++ backslash ∷ [])) path)))
    ])
  where
    not_below :
        (strip_prefix (r ∷ (root ++ backslash ∷ [])) path ≡ none)
          ⊎ ((rest : Text) × (strip_prefix (r ∷ (root ++ backslash ∷ [])) path ≡ some rest))
        → ◌≡◌ {A = Text × Bool}
            (elim (strip_prefix (r ∷ (root ++ backslash ∷ [])) path) [
              | some rest ↦ (rest, false)
              | none ↦ (codes "$Deleted\\" ++ path, true)
            ])
            (codes "$Deleted\\" ++ path, true)
    not_below (inl e) = rw e
    not_below (inr (rest, e)) = absurd (
        below rest (
          strip_prefix_sound (r ∷ (root ++ backslash ∷ [])) path rest e
          ∙ ap (◌∷◌ r) (append_assoc root (backslash ∷ []) rest)))

or_true : (a : Bool) {b : Bool} → b ≡ true → (a || b) ≡ true
or_true true e = refl
or_true false e = e

-- A filter matches exactly the paths that in lower case are the filter or lie below it, and the
-- empty filter matches every path.
pub subtree_match_iff :
    (path filter : Text)
    → (subtree_match path filter ≡ true) ↔ (
        (filter ≡ [])
        ⊎ (to_lower path ≡ filter)
        ⊎ ((rest : Text) × (to_lower path ≡ filter ++ backslash ∷ rest)))
unfolding subtree_match
subtree_match_iff path [] = (λ e. inl refl, λ h. refl)
subtree_match_iff path (c ∷ f) = (sound, complete)
  where
    sound :
        (text_eq (to_lower path) (c ∷ f) || starts_with ((c ∷ f) ++ backslash ∷ []) (to_lower path))
          ≡ true
        → (c ∷ f ≡ [])
          ⊎ (to_lower path ≡ c ∷ f)
          ⊎ ((rest : Text) × (to_lower path ≡ (c ∷ f) ++ backslash ∷ rest))
    sound e = elim (Bool-cases (text_eq (to_lower path) (c ∷ f))) [
      | inl a ↦ inr (inl ((text_eq_iff (to_lower path) (c ∷ f)).0 a))
      | inr a ↦
          let (rest, b) =
            starts_with_sound ((c ∷ f) ++ backslash ∷ []) (to_lower path) (rw a at e) in
          inr (inr (rest, b ∙ ap (◌∷◌ c) (append_assoc f (backslash ∷ []) rest)))
    ]

    complete :
        (c ∷ f ≡ [])
          ⊎ (to_lower path ≡ c ∷ f)
          ⊎ ((rest : Text) × (to_lower path ≡ (c ∷ f) ++ backslash ∷ rest))
        → (text_eq (to_lower path) (c ∷ f)
            || starts_with ((c ∷ f) ++ backslash ∷ []) (to_lower path))
          ≡ true
    complete (inl e) = absurd (ground arith)
    complete (inr (inl e)) = rw (e, text_eq_refl (c ∷ f))
    complete (inr (inr (rest, e))) =
        let whole : to_lower path ≡ ((c ∷ f) ++ backslash ∷ []) ++ rest =
          e ∙ ap (◌∷◌ c) (sym (append_assoc f (backslash ∷ []) rest)) in
        or_true (text_eq (to_lower path) (c ∷ f)) (
          ap (starts_with ((c ∷ f) ++ backslash ∷ [])) whole
          ∙ starts_with-append ((c ∷ f) ++ backslash ∷ []) rest)
