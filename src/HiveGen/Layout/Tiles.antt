-- ===== src/HiveGen/Layout/Tiles.antt =====
-- Cells that fill a range exactly, and layouts that extend each other by such cells.
use vgi_reghive.Base.{ℕ, ◌+◌, ◌%◌, ◌^◌, ◌≤◌, ◌<◌, ◌≡◌, refl, sym, ap, ◌∙◌, inl, inr, Bool, List}
use vgi_reghive.Base.{[], ◌∷◌, ◌++◌, append-nil, append_assoc, arith, length, All, All-append}
use vgi_reghive.Base.{Bytes, take, ◌⊎◌, true, false, if◌then◌else◌, All-mono}
use vgi_reghive.Base.Writes.{IsApart, IsApart-append}
use mathlib.Core.Path.{subst}
use vgi_reghive.HiveGen.Layout.{Layout, emit}
use vgi_reghive.HiveGen.Cells.{cell_with_sign, as_u32, negated}
use vgi_reghive.HiveGen.Cells.Sizes.{padded, length-cell_with_sign, size_word}
use vgi_reghive.Base.Words.{from_le}

-- A cell begins with its own size: as it is if the cell is free, negated if it is allocated.
abbrev pub Sized : Bytes → Type 0
Sized b = (from_le (take 4 b) ≡ length b) ⊎ (from_le (take 4 b) + length b ≡ 2 ^ 32)

-- A cell within a range: in units of eight bytes, behind its size.
pub record IsCell (lo hi : ℕ) (c : ℕ × Bytes) : Type 0 where
  pub from : lo ≤ c.0
  pub to : c.0 + length c.1 ≤ hi
  pub aligned : c.0 % 8 ≡ 0
  pub units : length c.1 % 8 ≡ 0
  pub some : 8 ≤ length c.1
  pub sized : Sized c.1

abbrev pub total : List (ℕ × Bytes) → ℕ
total [] = 0
total (c ∷ cs) = length c.1 + total cs

-- The cells lie in the range, apart from each other, and fill it.
pub record Tiles (lo hi : ℕ) (cells : List (ℕ × Bytes)) : Type 0 where
  pub within : All (IsCell lo hi) cells
  pub apart : IsApart cells
  pub filled : lo + total cells ≡ hi

total-append : (xs ys : List (ℕ × Bytes)) → total (xs ++ ys) ≡ total xs + total ys
total-append [] ys = omega arith
total-append (x ∷ xs) ys = omega (arith, total-append xs ys)

module _ (lo mid hi : ℕ) (p : lo ≤ mid) (q : mid ≤ hi) where
  lower : (c : ℕ × Bytes) → IsCell lo mid c → IsCell lo hi c
  lower c h = record {
    from = h.from;
    to = omega (arith, h.to);
    aligned = h.aligned;
    units = h.units;
    some = h.some;
    sized = h.sized;
  }

  upper : (c : ℕ × Bytes) → IsCell mid hi c → IsCell lo hi c
  upper c h = record {
    from = omega (arith, h.from);
    to = h.to;
    aligned = h.aligned;
    units = h.units;
    some = h.some;
    sized = h.sized;
  }

-- Tiles of two ranges, one behind the other, tile the whole, whichever stand first in the list.
module _ {lo mid hi : ℕ} {xs ys : List (ℕ × Bytes)} (s : Tiles lo mid xs)
    (t : Tiles mid hi ys) where
  lo-le : lo ≤ mid
  lo-le = omega (arith, s.filled)

  mid-le : mid ≤ hi
  mid-le = omega (arith, t.filled)

  low-All : All (IsCell lo hi) xs
  low-All = All-mono (lower lo mid hi lo-le mid-le) xs s.within

  high-All : All (IsCell lo hi) ys
  high-All = All-mono (upper lo mid hi lo-le mid-le) ys t.within

  pub Tiles-append : Tiles lo hi (xs ++ ys)
  Tiles-append = record {
    within = All-append (IsCell lo hi) xs ys low-All high-All;
    apart = IsApart-append xs ys s.apart t.apart (
        All-mono
          (λ (x : ℕ × Bytes) (h : IsCell lo mid x).
            All-mono (λ (y : ℕ × Bytes) (k : IsCell mid hi y). inl (omega (arith, h.to, k.from))) ys
              t.within)
          xs s.within);
    filled = omega (arith, total-append xs ys, s.filled, t.filled);
  }

  pub Tiles-behind : Tiles lo hi (ys ++ xs)
  Tiles-behind = record {
    within = All-append (IsCell lo hi) ys xs high-All low-All;
    apart = IsApart-append ys xs t.apart s.apart (
        All-mono
          (λ (y : ℕ × Bytes) (k : IsCell mid hi y).
            All-mono (λ (x : ℕ × Bytes) (h : IsCell lo mid x). inr (omega (arith, h.to, k.from))) xs
              s.within)
          ys t.within);
    filled = omega (arith, total-append ys xs, s.filled, t.filled);
  }

pub Tiles-one :
    (lo : ℕ) (b : Bytes)
    → lo % 8 ≡ 0
    → length b % 8 ≡ 0
    → 8 ≤ length b
    → Sized b
    → Tiles lo (lo + length b) ((lo, b) ∷ [])
Tiles-one lo b a u s z = record {
  within = (
    record { from = omega arith; to = omega arith; aligned = a; units = u; some = s; sized = z },
    tt,
  );
  apart = (tt, tt);
  filled = omega arith;
}

-- The later layout has the cells of the earlier one and, behind them, cells that tile the range
-- between their ends, which has the given size.
pub record Extends (lay later : Layout) (size : ℕ) : Type 0 where
  pub grows : later.next ≡ lay.next + size
  pub new : List (ℕ × Bytes)
  pub cells : later.cells ≡ lay.cells ++ new
  pub tiles : Tiles lay.next later.next new

pub Extends-refl : (lay : Layout) → Extends lay lay 0
Extends-refl lay = record {
  grows = omega arith;
  new = [];
  cells = sym (append-nil lay.cells);
  tiles = record { within = tt; apart = tt; filled = omega arith };
}

pub Extends-trans : {a b c : Layout} {m n : ℕ} → Extends a b m → Extends b c n → Extends a c (m + n)
Extends-trans {a} {b} {c} e f = record {
  grows = omega (arith, e.grows, f.grows);
  new = e.new ++ f.new;
  cells =
      f.cells
      ∙ ap (λ (t : List (ℕ × Bytes)). t ++ f.new) e.cells
      ∙ append_assoc a.cells e.new f.new;
  tiles = Tiles-append e.tiles f.tiles;
}

-- A layout whose end lies on a unit of eight bytes, with room for `size` bytes more.
pub record HasRoom (lay : Layout) (size : ℕ) : Type 0 where
  pub aligned : lay.next % 8 ≡ 0
  pub room : lay.next + size + 16 < 2 ^ 32

pub cell_with_sign-Sized :
    (payload : Bytes) (allocated : Bool)
    → length payload + 11 < 2 ^ 32
    → Sized (cell_with_sign payload allocated)
cell_with_sign-Sized payload allocated h =
    rw (size_word payload allocated h, length-cell_with_sign payload allocated h)
      (sign_cases allocated)
  where
    sign_cases :
        (a : Bool)
        → ((if a then negated (padded (length payload)) else padded (length payload))
            ≡ padded (length payload))
          ⊎ ((if a then negated (padded (length payload)) else padded (length payload))
                + padded (length payload)
              ≡ 2 ^ 32)
    sign_cases true = inr (omega arith)
    sign_cases false = inl refl

pub emit-Extends :
    (lay : Layout) (payload : Bytes) (allocated : Bool) (n : ℕ)
    → length payload ≡ n
    → HasRoom lay (padded n)
    → Extends lay (emit lay (cell_with_sign payload allocated)).0 (padded n)
unfolding emit
emit-Extends lay payload allocated n e h =
    let len : length (cell_with_sign payload allocated) ≡ padded n =
      length-cell_with_sign payload allocated (omega (arith, e, h.room)) ∙ ap padded e in
    let next : as_u32 (lay.next + as_u32 (length (cell_with_sign payload allocated)))
        ≡ lay.next + padded n =
      omega (arith, len, h.room) in
    record {
      grows = next;
      new = (lay.next, cell_with_sign payload allocated) ∷ [];
      cells = refl;
      tiles =
          subst (λ (t : ℕ). Tiles lay.next t ((lay.next, cell_with_sign payload allocated) ∷ []))
            (omega (arith, len, next))
            (Tiles-one lay.next (cell_with_sign payload allocated) h.aligned (omega (arith, len))
              (omega (arith, len))
              (cell_with_sign-Sized payload allocated (omega (arith, e, h.room))));
    }
