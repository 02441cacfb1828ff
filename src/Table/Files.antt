-- ===== src/Table/Files.antt =====
-- Local files, crates/reghive-worker/src/table/common.rs. The file system and the `glob` crate are
-- parameters.
use vgi_reghive.Base.{◌≡◌, refl, ap, ◌∙◌, map, inl, inr, Bool, true, false, ◌&&◌, ◌||◌, Option}
use vgi_reghive.Base.{none, some, List, [], ◌∷◌, ◌++◌, arith, ltb, ◌==◌, if◌then◌else◌}
use vgi_reghive.Base.{Bool-cases, All, Bytes, Text, codes}
use mathlib.Core.List.Permᴰ
use mathlib.Core.List.{Permᴰ}

-- A path need not be a text: `path_of` is `Path::new`, and `to_string_lossy` puts replacement characters
-- for what is not Unicode. `read` is `std::fs::read(..).ok()`. `glob` is what the pattern gives, if it is
-- a pattern: the paths, and `none` for each that could not be read.
pub record FileSystem : Type 1 where
  pub PathBuf : Type 0
  pub path_of : Text → PathBuf
  pub to_string_lossy : PathBuf → Text
  pub is_file : PathBuf → Bool
  pub read : PathBuf → Option Bytes
  pub glob : Text → Option (List (Option PathBuf))

-- `a <= b` on strings, by code points.
unfoldable pub text_le : Text → Text → Bool
text_le [] t = true
text_le (c ∷ s) [] = false
text_le (c ∷ s) (d ∷ t) = ltb c d || c == d && text_le s t

insert : Text → List Text → List Text
insert x [] = x ∷ []
insert x (y ∷ ys) = if text_le x y then x ∷ y ∷ ys else y ∷ insert x ys

-- `out.sort()`
unfoldable pub sort : List Text → List Text
unfolding insert text_le
sort [] = []
sort (x ∷ xs) = insert x (sort xs)

unfoldable pub keep {ℓ} : {A : Type ℓ} → (A → Bool) → List A → List A
keep p [] = []
keep p (x ∷ xs) = if p x then x ∷ keep p xs else keep p xs

-- `paths.flatten()`
unfoldable pub flatten {ℓ} : {A : Type ℓ} → List (Option A) → List A
flatten [] = []
flatten (none ∷ os) = flatten os
flatten (some x ∷ os) = x ∷ flatten os

-- `spec.contains(['*', '?', '['])`
unfoldable pub is_pattern : Text → Bool
is_pattern [] = false
is_pattern (c ∷ s) = c == b'*' || c == b'?' || c == b'[' || is_pattern s

module _ (fs : FileSystem) where
  open fs use {PathBuf, path_of, to_string_lossy, is_file, read, glob}

  glob_files : Option (List (Option PathBuf)) → List Text
  glob_files none = []
  glob_files (some paths) = sort (map to_string_lossy (keep is_file (flatten paths)))

  unfoldable pub expand_glob : Text → List Text
  unfolding glob_files is_pattern
  expand_glob spec =
      if is_pattern spec
      then glob_files (glob spec)
      else if is_file (path_of spec)
      then spec ∷ []
      else []

  log_of : Option Bytes → List Bytes
  log_of none = []
  log_of (some []) = []
  log_of (some (b ∷ bytes)) = (b ∷ bytes) ∷ []

  logs_with : Text → List Text → List Bytes
  unfolding log_of
  logs_with primary [] = []
  logs_with primary (ext ∷ exts) =
      log_of (read (path_of (primary ++ ext))) ++ logs_with primary exts

  unfoldable pub sibling_logs : Text → List Bytes
  unfolding logs_with
  sibling_logs primary =
      logs_with primary (codes ".LOG1" ∷ codes ".LOG2" ∷ codes ".log1" ∷ codes ".log2" ∷ [])

-- Each text is at most the ones behind it.
abbrev pub IsSorted : List Text → Type 0
IsSorted [] = Unit
IsSorted (x ∷ xs) = All (λ y. text_le x y ≡ true) xs × IsSorted xs

text_le_total : (s t : Text) → text_le s t ≡ false → text_le t s ≡ true
unfolding text_le
text_le_total [] t h = cc
text_le_total (c ∷ s) [] h = refl
text_le_total (c ∷ s) (d ∷ t) h = ground (arith, text_le_total s t)

text_le_trans : (s t u : Text) → text_le s t ≡ true → text_le t u ≡ true → text_le s u ≡ true
unfolding text_le
text_le_trans [] t u h k = refl
text_le_trans (c ∷ s) [] u h k = cc
text_le_trans (c ∷ s) (d ∷ t) [] h k = cc
text_le_trans (c ∷ s) (d ∷ t) (e ∷ u) h k = ground (arith, text_le_trans s t u)

All-le :
    (x y : Text) (ys : List Text)
    → text_le x y ≡ true
    → All (λ z. text_le y z ≡ true) ys
    → All (λ z. text_le x z ≡ true) ys
All-le x y [] h k = tt
All-le x y (z ∷ ys) h (kz, k) = (text_le_trans x y z h kz, All-le x y ys h k)

module _ (P : Text → Type 0) where
  All-insert : (x : Text) (xs : List Text) → P x → All P xs → All P (insert x xs)
  unfolding insert
  All-insert x [] px h = (px, tt)
  All-insert x (y ∷ ys) px (py, h) = elim (Bool-cases (text_le x y)) [
    | inl e ↦ rw e (px, (py, h))
    | inr e ↦ rw e (py, All-insert x ys px h)
  ]

  All-sort : (xs : List Text) → All P xs → All P (sort xs)
  unfolding sort
  All-sort [] h = tt
  All-sort (x ∷ xs) (px, h) = All-insert x (sort xs) px (All-sort xs h)

insert-IsSorted : (x : Text) (xs : List Text) → IsSorted xs → IsSorted (insert x xs)
unfolding insert
insert-IsSorted x [] h = (tt, tt)
insert-IsSorted x (y ∷ ys) (hy, h) = elim (Bool-cases (text_le x y)) [
  | inl e ↦ rw e ((e, All-le x y ys e hy), (hy, h))
  | inr e ↦
      rw e
        (All-insert (λ z. text_le y z ≡ true) x ys (text_le_total x y e) hy, insert-IsSorted x ys h)
]

sort-IsSorted : (xs : List Text) → IsSorted (sort xs)
unfolding sort
sort-IsSorted [] = tt
sort-IsSorted (x ∷ xs) = insert-IsSorted x (sort xs) (sort-IsSorted xs)

All-keep {ℓ} : {A : Type ℓ} (p : A → Bool) (xs : List A) → All (λ x. p x ≡ true) (keep p xs)
unfolding keep
All-keep p [] = tt
All-keep p (x ∷ xs) = elim (Bool-cases (p x)) [
  | inl e ↦ rw e (e, All-keep p xs)
  | inr e ↦ rw e (All-keep p xs)
]

insert-Perm : (x : Text) (xs : List Text) → Permᴰ (x ∷ xs) (insert x xs)
unfolding insert
insert-Perm x [] = Permᴰ.refl (x ∷ [])
insert-Perm x (y ∷ ys) = elim (Bool-cases (text_le x y)) [
  | inl e ↦ rw e (Permᴰ.refl (x ∷ y ∷ ys))
  | inr e ↦ rw e (Permᴰ.trans (Permᴰ.swap refl refl) (Permᴰ.cons refl (insert-Perm x ys)))
]

sort-Perm : (xs : List Text) → Permᴰ xs (sort xs)
unfolding sort
sort-Perm [] = Permᴰ.nil
sort-Perm (x ∷ xs) = Permᴰ.trans (Permᴰ.cons refl (sort-Perm xs)) (insert-Perm x (sort xs))

-- A pattern that is well formed expands, in ascending order, to the lossy texts of those of its paths that are files, each as often as the pattern gives it. What the pattern could not read is left out. Whether a path is a file is asked of the path, not of its text.
pub expand_glob-files :
    (fs : FileSystem) (spec : Text) (paths : List (Option fs.PathBuf))
    → is_pattern spec ≡ true
    → fs.glob spec ≡ some paths
    → IsSorted (expand_glob fs spec)
      × Permᴰ (map fs.to_string_lossy (keep fs.is_file (flatten paths))) (expand_glob fs spec)
unfolding expand_glob glob_files
expand_glob-files fs spec paths e g = rw e (rw g (sort-IsSorted _, sort-Perm _))

All-map {ℓ} :
    {A : Type ℓ} (f : A → Text) (P : Text → Type 0) (Q : A → Type 0) (xs : List A)
    → ((x : A) → Q x → P (f x))
    → All Q xs
    → All P (map f xs)
All-map f P Q [] h k = tt
All-map f P Q (x ∷ xs) h (q, k) = (h x q, All-map f P Q xs h k)

-- Where texts stand for the paths that they come from, each text that a pattern expands to names a file.
pub expand_glob-is_file :
    (fs : FileSystem) (spec : Text) (paths : List (Option fs.PathBuf))
    → ((x : fs.PathBuf) → fs.path_of (fs.to_string_lossy x) ≡ x)
    → is_pattern spec ≡ true
    → fs.glob spec ≡ some paths
    → All (λ f. fs.is_file (fs.path_of f) ≡ true) (expand_glob fs spec)
unfolding expand_glob glob_files
expand_glob-is_file fs spec paths lossless e g = rw e (
    rw g (
      All-sort (λ f. fs.is_file (fs.path_of f) ≡ true) _
        (All-map fs.to_string_lossy (λ f. fs.is_file (fs.path_of f) ≡ true)
          (λ x. fs.is_file x ≡ true) _ (λ x h. ap fs.is_file (lossless x) ∙ h)
          (All-keep fs.is_file (flatten paths)))))
