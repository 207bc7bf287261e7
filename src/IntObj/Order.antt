-- ===== src/IntObj/Order.antt =====
-- Comparison of integers: right where a sign or a small integer decides, or both objects are
-- positive; on two objects the code compares the cells alone.
use Prim.Native.Nat.{compare, Ordering}
use mathlib.Core.Logic.{◌↔◌}
use mathlib.Core.Path.{ap₂}
use zis_lang.Common.{
  ℕ, zero, suc, ◌≡◌, ◌≢◌, refl, sym, ap, ◌∙◌, Bool, true, false, not, List, [], ◌∷◌, arith, length,
  if◌then◌else◌, ◌==◌, ==_iff, Bool-cases, inl, inr,
}
use zis_lang.Common.Int.{ℤ, pos, ltb_ℤ}
use zis_lang.Bigint.Value.{value, IsTrimmed-IsNormal}
use zis_lang.Bigint.Compare.{cmp-value}
use zis_lang.Smallint.{in_range, eqb_ℤ}
use zis_lang.IntObj.{IntObj, IntValue, smallint, int_obj, signed, compare_int, equals, same_cells}
use zis_lang.IntObj.Denote.{denote, denote_obj, IsInt, IsIntObj}

-- The order of two integers.
abbrev pub order : ℤ → ℤ → Ordering
order a b = if ltb_ℤ a b then Ordering.lt else if ltb_ℤ b a then Ordering.gt else Ordering.eq

-- Not two objects, or two positive ones.
abbrev pub IsComparable : IntValue → IntValue → Type 0
IsComparable (smallint l) r = Unit {0}
IsComparable (int_obj l) (smallint r) = Unit {0}
IsComparable (int_obj l) (int_obj r) = (l.negative ≡ false) × (r.negative ≡ false)

small_small :
    (a b : ℤ)
    → (if eqb_ℤ a b then Ordering.eq else if ltb_ℤ a b then Ordering.lt else Ordering.gt)
      ≡ order a b
small_small a b = ground arith

small_obj :
    (a : ℤ) (s : Bool) (n : ℕ)
    → in_range a ≡ true
    → in_range (signed s n) ≡ false
    → (if s then Ordering.gt else Ordering.lt) ≡ order a (signed s n)
unfolding in_range
small_obj a false n h k = ground arith
small_obj a true zero h k = ground arith
small_obj a true (suc n) h k = ground arith

obj_small :
    (a : ℤ) (s : Bool) (n : ℕ)
    → in_range a ≡ true
    → in_range (signed s n) ≡ false
    → (if s then Ordering.lt else Ordering.gt) ≡ order (signed s n) a
unfolding in_range
obj_small a false n h k = ground arith
obj_small a true zero h k = ground arith
obj_small a true (suc n) h k = ground arith

positive : (m n : ℕ) → compare m n ≡ order (pos m) (pos n)
positive m n = ground arith

negative : (m n : ℕ) → compare m n ≡ order (signed true n) (signed true m)
negative zero zero = ground arith
negative zero (suc n) = ground arith
negative (suc m) zero = ground arith
negative (suc m) (suc n) = ground arith

cmp_objects :
    (l r : IntObj)
    → IsIntObj l
    → IsIntObj r
    → compare_int (int_obj l) (int_obj r) ≡ compare (value l.cells) (value r.cells)
unfolding compare_int
cmp_objects l r hl hr =
    cmp-value l.cells r.cells hl.cells hr.cells (IsTrimmed-IsNormal l.cells hl.trimmed)
      (IsTrimmed-IsNormal r.cells hr.trimmed)

-- For two integers in their one form, zis_int_obj_or_smallint_compare gives their order, unless
-- both are objects and one of them is negative.
pub compare_int-order :
    (l r : IntValue)
    → IsInt l
    → IsInt r
    → IsComparable l r
    → compare_int l r ≡ order (denote l) (denote r)
compare_int-order (smallint a) (smallint b) hl hr c = unfold compare_int in small_small a b
compare_int-order (smallint a) (int_obj r) hl hr c =
    unfold compare_int in small_obj a r.negative (value r.cells) hl hr.large
compare_int-order (int_obj l) (smallint b) hl hr c =
    unfold compare_int in obj_small b l.negative (value l.cells) hr hl.large
compare_int-order (int_obj l) (int_obj r) hl hr c =
    cmp_objects l r hl hr
    ∙ positive _ _
    ∙ ap₂ (λ s t. order (signed s (value l.cells)) (signed t (value r.cells))) (sym c.0) (sym c.1)

-- Two negative objects in their one form compare in the reverse of their order.
pub compare_int-reversed :
    (l r : IntObj)
    → IsIntObj l
    → IsIntObj r
    → l.negative ≡ true
    → r.negative ≡ true
    → compare_int (int_obj l) (int_obj r) ≡ order (denote_obj r) (denote_obj l)
compare_int-reversed l r hl hr nl nr =
    cmp_objects l r hl hr
    ∙ negative _ _
    ∙ ap₂ (λ s t. order (signed s (value r.cells)) (signed t (value l.cells))) (sym nr) (sym nl)

same_cells_iff : (us vs : List ℕ) → length us ≡ length vs → (same_cells us vs ≡ true) ↔ (us ≡ vs)
unfolding same_cells
same_cells_iff [] [] e = (λ _. refl, λ _. refl)
same_cells_iff [] (b ∷ vs) e = absurd (omega arith)
same_cells_iff (a ∷ us) [] e = absurd (omega arith)
same_cells_iff (a ∷ us) (b ∷ vs) e = (
  λ h. ground (arith, (same_cells_iff us vs (omega arith)).0),
  λ h. ground (arith, (same_cells_iff us vs (omega arith)).1),
)

-- Two objects are equal to the code exactly if their cells are.
equal_objects : (l r : IntObj) → (equals (int_obj l) (int_obj r) ≡ true) ↔ (l.cells ≡ r.cells)
unfolding equals
equal_objects l r = (
  λ h. elim (Bool-cases (length l.cells == length r.cells)) [
    | inl e ↦ (same_cells_iff l.cells r.cells ((==_iff _ _).0 e)).0 (rw e at h)
    | inr e ↦ absurd (cc (rw e at h))
  ],
  λ e. rw ((==_iff _ _).1 (ap length e)) ((same_cells_iff l.cells r.cells (ap length e)).1 e),
)

signed-ne-not : (s : Bool) (n : ℕ) → in_range (signed s n) ≡ false → signed s n ≢ signed (not s) n
unfolding in_range
signed-ne-not false zero h = λ e. cc
signed-ne-not true zero h = λ e. cc
signed-ne-not false (suc n) h = λ e. cc
signed-ne-not true (suc n) h = λ e. cc

-- zis_int_obj_or_smallint_equals holds an object in its one form equal to its negation, which is
-- another integer.
pub equals-opposite :
    (o : IntObj)
    → IsIntObj o
    → let n = record o { negative = not o.negative } in
      (equals (int_obj o) (int_obj n) ≡ true) × (denote_obj o ≢ denote_obj n)
equals-opposite o h = (
  (equal_objects o (record o { negative = not o.negative })).1 refl,
  signed-ne-not o.negative (value o.cells) h.large,
)
