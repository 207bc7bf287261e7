-- ===== src/IntObj/Denote.antt =====
-- The integer that a value stands for, and the form in which the functions leave a value.
use zis_lang.Common.{
  ℕ, zero, suc, ◌+◌, ◌≤◌, ◌<◌, ◌≡◌, refl, Bool, true, false, List, [], ◌∷◌, arith, length, ap, ◌∙◌,
  ◌-◌, ◌^◌, leb, le→leb,
}
use zis_lang.Common.Int.{ℤ, pos, negsuc}
use native.Mathlib.Decide.{dec_lt}
use zis_lang.Bigint.{cell_base}
use zis_lang.Bigint.Value.{value, IsCells, IsTrimmed, IsNormal, IsTrimmed-IsNormal}
use zis_lang.Smallint.{in_range, is_int64}
use zis_lang.IntObj.{
  IntObj, IntValue, smallint, int_obj, signed, operand, dummy_int_obj, cells_of, cell_count_max,
  is_negative, magnitude,
}

abbrev pub denote_obj : IntObj → ℤ
denote_obj o = signed o.negative (value o.cells)

abbrev pub denote : IntValue → ℤ
denote (smallint v) = v
denote (int_obj o) = denote_obj o

-- An object has cells without leading zeros and no value that a small integer could hold.
pub record IsIntObj (o : IntObj) : Type 0 where
  pub cells : IsCells o.cells
  pub trimmed : IsTrimmed o.cells
  pub bounded : length o.cells ≤ cell_count_max
  pub large : in_range (denote_obj o) ≡ false

abbrev pub IsInt : IntValue → Type 0
IsInt (smallint v) = in_range v ≡ true
IsInt (int_obj o) = IsIntObj o

-- What the slow paths need of an operand.
pub record IsOperand (o : IntObj) (v : ℤ) : Type 0 where
  pub cells : IsCells o.cells
  pub normal : IsNormal o.cells
  pub denotes : denote_obj o ≡ v

cells_of-value :
    (n : ℕ)
    → n < 2 ^ 64
    → (value (cells_of n) ≡ n)
      × IsCells (cells_of n)
      × IsNormal (cells_of n)
      × (length (cells_of n) ≤ 2)
unfolding cells_of
cells_of-value n h = elim (dec_lt n cell_base) [
  | yes small ↦
      rw (le→leb n (cell_base - 1) (omega arith)) (omega arith, (omega arith, tt), tt, omega arith)
  | no large ↦
      let e : leb n (cell_base - 1) ≡ false = ground arith in
      rw e (omega arith, (omega arith, (omega arith, tt)), omega arith, omega arith)
]

in_range-is_int64 : (v : ℤ) → in_range v ≡ true → is_int64 v ≡ true
unfolding in_range is_int64
in_range-is_int64 (pos n) h = ground arith
in_range-is_int64 (negsuc n) h = ground arith

-- The sign and the cells that both constructors from an int64_t write.
pub int64-IsOperand :
    (v : ℤ)
    → is_int64 v ≡ true
    → IsOperand (record { negative = is_negative v; cells = cells_of (magnitude v) }) v
unfolding is_int64
int64-IsOperand (pos n) h =
    let c = cells_of-value (n + 0) (ground arith) in
    record { cells = c.1; normal = c.2; denotes = ap pos (omega arith) }
int64-IsOperand (negsuc n) h =
    let c = cells_of-value (0 + suc n) (ground arith) in
    record {
      cells = c.1;
      normal = c.2;
      denotes = ap (signed true) c.0 ∙ ap (signed true) {x = 0 + suc n} {y = suc n} (omega arith);
    }

pub dummy-IsOperand : (v : ℤ) → in_range v ≡ true → IsOperand (dummy_int_obj v) v
unfolding dummy_int_obj
dummy-IsOperand v h = int64-IsOperand v (in_range-is_int64 v h)

signed-large : (s : Bool) (n : ℕ) → in_range (signed s n) ≡ false → 0 < n
unfolding in_range
signed-large false zero h = cc
signed-large true zero h = cc
signed-large s (suc n) h = omega arith

IsNormal-IsTrimmed : (cs : List ℕ) → 0 < value cs → IsNormal cs → IsTrimmed cs
IsNormal-IsTrimmed [] p h = h
IsNormal-IsTrimmed (c ∷ []) p h = omega arith
IsNormal-IsTrimmed (c ∷ d ∷ cs) p h = h

-- Outside the range of small integers they make an object in its one form.
pub int64-IsIntObj :
    (v : ℤ)
    → is_int64 v ≡ true
    → in_range v ≡ false
    → IsIntObj (record { negative = is_negative v; cells = cells_of (magnitude v) })
int64-IsIntObj v h out =
    let o = int64-IsOperand v h in
    let large = ap in_range o.denotes ∙ out in
    record {
      cells = o.cells;
      trimmed =
          IsNormal-IsTrimmed (cells_of (magnitude v))
            (signed-large (is_negative v) (value (cells_of (magnitude v))) large) o.normal;
      bounded = omega (arith, (cells_of-value (magnitude v) (magnitude-lt v h)).3);
      large = large;
    }
  where
    magnitude-lt : (u : ℤ) → is_int64 u ≡ true → magnitude u < 2 ^ 64
    magnitude-lt (pos n) e = unfold is_int64 in ground arith
    magnitude-lt (negsuc n) e = unfold is_int64 in ground arith

pub IsInt-IsOperand : (v : IntValue) → IsInt v → IsOperand (operand v) (denote v)
IsInt-IsOperand (smallint v) h = dummy-IsOperand v h
IsInt-IsOperand (int_obj o) h = record {
  cells = h.cells;
  normal = IsTrimmed-IsNormal o.cells h.trimmed;
  denotes = refl;
}
