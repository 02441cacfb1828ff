-- ===== src/Scalar/Io.antt =====
-- Reading the cells of Arrow columns, crates/reghive-worker/src/scalar/io.rs. A cell is its bytes or
-- its text, or null; the type of the column says which.
use vgi_reghive.Base.{ℕ, ◌≡◌, refl, ◌⊎◌, inl, inr, Option, none, some, List, [], ◌∷◌, map, Text}
use vgi_reghive.Hive.Notatin.{Result, ok, err}
use vgi_reghive.Arrow.{DataType, binary, large_binary, binary_view, utf8, large_utf8, utf8_view}

-- `value_error`, with the type that was found, and `runtime_error`.
pub data RpcError : Type 0 where
  expected_blob expected_varchar : DataType → RpcError
  runtime_error : Text → RpcError

abbrev pub Cell : Type 0
Cell = Option (List ℕ)

-- On a cell that is not null.
unfoldable pub bytes_of : DataType → List ℕ → Result RpcError Cell
bytes_of binary v = ok (some v)
bytes_of large_binary v = ok (some v)
bytes_of binary_view v = ok (some v)
bytes_of t v = err (expected_blob t)

unfoldable pub blob_val : DataType → Cell → Result RpcError Cell
unfolding bytes_of
blob_val t none = ok none
blob_val t (some v) = bytes_of t v

unfoldable pub text_of : DataType → List ℕ → Result RpcError Cell
text_of utf8 v = ok (some v)
text_of large_utf8 v = ok (some v)
text_of utf8_view v = ok (some v)
text_of t v = err (expected_varchar t)

unfoldable pub text_val : DataType → Cell → Result RpcError Cell
unfolding text_of
text_val t none = ok none
text_val t (some v) = text_of t v

infixl 5 ◌>>=◌
abbrev pub ◌>>=◌ : {A B : Type 0} → Result RpcError A → (A → Result RpcError B) → Result RpcError B
ok a >>= f = f a
err e >>= f = err e

-- `for i in 0..rows { … ? … }`: a value for each row, up to the first error.
unfoldable pub each_row :
    {A B : Type 0} → (A → Result RpcError B) → List A → Result RpcError (List B)
each_row f [] = ok []
each_row f (x ∷ xs) = do y ← f x; ys ← each_row f xs; ok (y ∷ ys)

pub each_row-ok :
    {A B : Type 0} (f : A → Result RpcError B) (g : A → B) (xs : List A)
    → ((x : A) → f x ≡ ok (g x))
    → each_row f xs ≡ ok (map g xs)
unfolding each_row
each_row-ok f g [] h = refl
each_row-ok f g (x ∷ xs) h = rw (h x) (rw (each_row-ok f g xs h))

abbrev pub IsBinary : DataType → Type 0
IsBinary t = (t ≡ binary) ⊎ (t ≡ large_binary) ⊎ (t ≡ binary_view)

abbrev pub IsVarchar : DataType → Type 0
IsVarchar t = (t ≡ utf8) ⊎ (t ≡ large_utf8) ⊎ (t ≡ utf8_view)

pub blob_val_binary : (t : DataType) (c : Cell) → IsBinary t → blob_val t c ≡ ok c
unfolding blob_val
blob_val_binary t none h = refl
blob_val_binary t (some v) (inl e) = rw e
blob_val_binary t (some v) (inr (inl e)) = rw e
blob_val_binary t (some v) (inr (inr e)) = rw e

pub text_val_varchar : (t : DataType) (c : Cell) → IsVarchar t → text_val t c ≡ ok c
unfolding text_val
text_val_varchar t none h = refl
text_val_varchar t (some v) (inl e) = rw e
text_val_varchar t (some v) (inr (inl e)) = rw e
text_val_varchar t (some v) (inr (inr e)) = rw e
