-- ===== src/Cursor.antt =====
-- The file-glob scan cursor, crates/reghive-core/src/cursor.rs. `serde_json`, which is not part of this
-- repository, is a parameter.
use vgi_reghive.Base.{ℕ, ◌≡◌, refl, ap, ◌∙◌, ◌≢◌, inl, inr, Bool, true, false, ◌&&◌, Option, none}
use vgi_reghive.Base.{some, List, [], ◌∷◌, Option-cases, unwrap_or, Bytes, Text}

pub record HiveGlobCursor : Type 0 where
  pub pending_files : List Text
  pub current_file : Option Text
  pub emitted_in_current : ℕ

abbrev pub default_cursor : HiveGlobCursor
default_cursor = record { pending_files = []; current_file = none; emitted_in_current = 0 }

-- `files.remove(0)`, where there is one; the rest stays.
take_first : List Text → Option Text × List Text
take_first [] = (none, [])
take_first (f ∷ fs) = (some f, fs)

unfoldable pub new : List Text → HiveGlobCursor
unfolding take_first
new files =
    let (current, rest) = take_first files in
    record { pending_files = rest; current_file = current; emitted_in_current = 0 }

unfoldable pub advance_file : HiveGlobCursor → HiveGlobCursor
unfolding take_first
advance_file c =
    let (current, rest) = take_first c.pending_files in
    record { pending_files = rest; current_file = current; emitted_in_current = 0 }

is_none : Option Text → Bool
is_none none = true
is_none (some f) = false

no_files : List Text → Bool
no_files [] = true
no_files (f ∷ fs) = false

unfoldable pub is_exhausted : HiveGlobCursor → Bool
unfolding is_none no_files
is_exhausted c = is_none c.current_file && no_files c.pending_files

-- `serde_json::to_vec` and `serde_json::from_slice` on cursors; `none` is an error.
pub record Serde : Type 0 where
  pub to_vec : HiveGlobCursor → Option Bytes
  pub from_slice : Bytes → Option HiveGlobCursor

-- What the crate documents: every cursor has a rendering, no rendering is empty, and it is read back.
pub record IsLossless (S : Serde) : Type 0 where
  pub writes : (c : HiveGlobCursor) → S.to_vec c ≢ none
  pub not_empty : (c : HiveGlobCursor) → S.to_vec c ≢ some []
  pub reads : (c : HiveGlobCursor) (b : Bytes) → S.to_vec c ≡ some b → S.from_slice b ≡ some c

module _ (S : Serde) where
  unfoldable pub to_bytes : HiveGlobCursor → Bytes
  to_bytes c = unwrap_or (S.to_vec c) []

  unfoldable pub from_bytes : Bytes → HiveGlobCursor
  from_bytes [] = default_cursor
  from_bytes (b ∷ bytes) = unwrap_or (S.from_slice (b ∷ bytes)) default_cursor

  from_bytes-some :
      (b : Bytes) (c : HiveGlobCursor) → b ≢ [] → S.from_slice b ≡ some c → from_bytes b ≡ c
  unfolding from_bytes
  from_bytes-some [] c h e = absurd (h refl)
  from_bytes-some (x ∷ b) c h e = rw e

  module _ (lossless : IsLossless S) where
    -- A cursor is read back from its own bytes, where serde_json reads back what it writes.
    pub from_bytes-to_bytes : (c : HiveGlobCursor) → from_bytes (to_bytes c) ≡ c
    unfolding to_bytes
    from_bytes-to_bytes c = elim (Option-cases (S.to_vec c)) [
      | inl e ↦ absurd (lossless.writes c e)
      | inr (b, e) ↦
          rw e
            (from_bytes-some b c (λ p. lossless.not_empty c (e ∙ ap some p)) (lossless.reads c b e))
    ]

remaining_from : Option Text → List Text → List Text
remaining_from none pending = []
remaining_from (some f) pending = f ∷ pending

-- The files that a cursor has still to deliver, in order.
unfoldable pub remaining : HiveGlobCursor → List Text
unfolding remaining_from
remaining c = remaining_from c.current_file c.pending_files

pub remaining-new : (files : List Text) → remaining (new files) ≡ files
unfolding remaining new
remaining-new [] = refl
remaining-new (f ∷ fs) = refl

-- A cursor with no current file has nothing pending: so it is for every cursor that `new` and
-- `advance_file` make.
abbrev pub IsOrdered : HiveGlobCursor → Type 0
IsOrdered c = c.current_file ≡ none → c.pending_files ≡ []

pub new-IsOrdered : (files : List Text) → IsOrdered (new files)
unfolding new
new-IsOrdered [] = λ _. refl
new-IsOrdered (f ∷ fs) = λ e. cc

pub advance_file-IsOrdered : (c : HiveGlobCursor) → IsOrdered (advance_file c)
advance_file-IsOrdered c = unfold advance_file new in new-IsOrdered c.pending_files
