-- ===== src/IntObj.antt =====
-- src/core/intobj.c, "int object": integers that are small or a sign with a vector of cells.
-- A reallocation that only drops unused cells is not seen: an object is its sign and its used cells.
pub mod Denote
pub mod Shrink
pub mod Arith
pub mod Order
pub mod Parse
pub mod Print
use Prim.Native.Nat.{compare, Ordering, bit_or}
use zis_lang.Common.{
  ℕ, suc, ◌+◌, ◌-◌, ◌*◌, ◌/◌, ◌^◌, Bool, true, false, not, ◌&&◌, List, [], ◌∷◌, Option, none, some,
  leb, ltb, ◌==◌, if◌then◌else◌, length, max,
}
use zis_lang.Common.Int.{ℤ, pos, negsuc, pos_part, neg_part, ◌+ℤ◌, ◌-ℤ◌, ltb_ℤ}
use zis_lang.Bigint
use zis_lang.Bigint.{cell_base, to_cell}
use zis_lang.Smallint.{in_range, try_to_ptr, from_ptr, eqb_ℤ}

-- struct zis_int_obj; the length of `cells` is its cell_count
pub record IntObj : Type 0 where
  pub negative : Bool
  pub cells : List ℕ

-- A `struct zis_object *` to an integer.
pub data IntValue : Type 0 where
  smallint : ℤ → IntValue
  int_obj : IntObj → IntValue

-- `neg ? -v : v`
abbrev pub signed : Bool → ℕ → ℤ
signed false n = pos n
signed true ℕ.zero = pos 0
signed true (suc n) = negsuc n

abbrev pub is_negative : ℤ → Bool
is_negative (pos n) = false
is_negative (negsuc n) = true

-- `val_neg ? (uint64_t)-val : (uint64_t)val`
abbrev pub magnitude : ℤ → ℕ
magnitude v = pos_part v + neg_part v

-- The cells of a uint64_t, one if they suffice.
unfoldable pub cells_of : ℕ → List ℕ
cells_of n =
    if leb n (cell_base - 1) then to_cell n ∷ [] else to_cell n ∷ to_cell (n / cell_base) ∷ []

-- dummy_int_obj_for_smi_init
unfoldable pub dummy_int_obj : ℤ → IntObj
unfolding cells_of
dummy_int_obj val = record { negative = is_negative val; cells = cells_of (magnitude val) }

-- zis_int_obj_or_smallint
pub int_obj_or_smallint : ℤ → IntValue
unfolding cells_of
int_obj_or_smallint val =
    if in_range val
    then smallint val
    else int_obj (record { negative = is_negative val; cells = cells_of (magnitude val) })

-- int_obj_alloc fails above INT_OBJ_CELL_COUNT_MAX cells.
abbrev pub cell_count_max : ℕ
cell_count_max = 65535

-- The loop at the head of int_obj_shrink; no cell is left of a zero.
pub trim : List ℕ → List ℕ
trim [] = []
trim (c ∷ cs) = elim (trim cs) [ [] ↦ if c == 0 then [] else c ∷ [] | d ∷ ds ↦ c ∷ d ∷ ds ]

-- int_obj_shrink behind its loop
pub shrink_trimmed : Bool → List ℕ → IntValue
shrink_trimmed neg [] = smallint (pos 0)
shrink_trimmed neg (c ∷ []) = smallint (signed neg c)
shrink_trimmed neg (c ∷ d ∷ []) =
    let c01 = bit_or (d * 2 ^ 32) c in
    if leb c01 (if neg then 2 ^ 62 else 2 ^ 62 - 1)
    then smallint (signed neg c01)
    else int_obj (record { negative = neg; cells = c ∷ d ∷ [] })
shrink_trimmed neg (c ∷ d ∷ e ∷ cs) = int_obj (record { negative = neg; cells = c ∷ d ∷ e ∷ cs })

-- int_obj_shrink; `none` is an object without cells, which fails its assertion.
pub shrink : IntObj → Option IntValue
unfolding trim shrink_trimmed
shrink x = elim x.cells [ [] ↦ none | c ∷ cs ↦ some (shrink_trimmed x.negative (trim (c ∷ cs))) ]

-- The operand of a slow path: an object as it is, a small integer as a dummy on the stack.
abbrev pub operand : IntValue → IntObj
operand (smallint v) = dummy_int_obj v
operand (int_obj o) = o

eqb : Bool → Bool → Bool
eqb true b = b
eqb false b = not b

-- _int_obj_or_smallint_add_or_sub_slow on its operands; `none` is too large, or has no cells.
pub add_or_sub : IntObj → IntObj → Bool → Option IntValue
unfolding shrink eqb
add_or_sub lhs rhs do_sub =
    let n = max (length lhs.cells) (length rhs.cells) in
    let same = eqb lhs.negative rhs.negative in
    if (if do_sub then not same else same)
    then (if leb (n + 1) cell_count_max
        then shrink
            (record { negative = lhs.negative; cells = Bigint.add lhs.cells rhs.cells (n + 1) })
        else none)
    else (if leb n cell_count_max
        then (let (neg, y) = Bigint.sub lhs.cells rhs.cells n in
            shrink
              (record { negative = if neg then not lhs.negative else lhs.negative; cells = y }))
        else none)

-- zis_smallint_add and zis_smallint_sub on the sum or the difference, as an intptr_t
pub smallint_result : ℤ → IntValue
unfolding int_obj_or_smallint
smallint_result x = elim (try_to_ptr x) [
  | some p ↦ smallint (from_ptr p)
  | none ↦ int_obj_or_smallint x
]

-- zis_int_obj_or_smallint_add
pub add : IntValue → IntValue → Option IntValue
unfolding smallint_result add_or_sub dummy_int_obj
add (smallint l) (smallint r) = some (smallint_result (l +ℤ r))
add (smallint l) (int_obj r) = add_or_sub (dummy_int_obj l) r false
add (int_obj l) r = add_or_sub l (operand r) false

-- zis_int_obj_or_smallint_sub
pub sub : IntValue → IntValue → Option IntValue
unfolding smallint_result add_or_sub dummy_int_obj
sub (smallint l) (smallint r) = some (smallint_result (l -ℤ r))
sub (smallint l) (int_obj r) = add_or_sub (dummy_int_obj l) r true
sub (int_obj l) r = add_or_sub l (operand r) true

-- zis_int_obj_or_smallint_compare
pub compare_int : IntValue → IntValue → Ordering
compare_int (smallint l) (smallint r) =
    if eqb_ℤ l r then Ordering.eq else if ltb_ℤ l r then Ordering.lt else Ordering.gt
compare_int (smallint l) (int_obj r) = if r.negative then Ordering.gt else Ordering.lt
compare_int (int_obj l) (smallint r) = if l.negative then Ordering.lt else Ordering.gt
compare_int (int_obj l) (int_obj r) = Bigint.cmp l.cells r.cells

-- memcmp on vectors of one length
pub same_cells : List ℕ → List ℕ → Bool
same_cells [] vs = true
same_cells (a ∷ us) [] = false
same_cells (a ∷ us) (b ∷ vs) = a == b && same_cells us vs

-- zis_int_obj_or_smallint_equals. Equal pointers to an object have equal cells.
pub equals : IntValue → IntValue → Bool
unfolding same_cells
equals (smallint l) (smallint r) = eqb_ℤ l r
equals (smallint l) (int_obj r) = false
equals (int_obj l) (smallint r) = false
equals (int_obj l) (int_obj r) = length l.cells == length r.cells && same_cells l.cells r.cells
