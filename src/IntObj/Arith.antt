-- ===== src/IntObj/Arith.antt =====
-- Addition and subtraction of integers, small and large.
use zis_lang.Common.{
  ℕ, ◌+◌, ◌<◌, ◌≡◌, refl, sym, ap, ◌∙◌, Bool, true, false, not, List, arith, length, ltb, le→leb,
  if◌then◌else◌, Option, some, none, min, max, ◌≢◌, [], ◌∷◌,
}
use zis_lang.Common.Int.{ℤ, pos, ◌+ℤ◌, ◌-ℤ◌}
use zis_lang.Bigint
use zis_lang.Bigint.Value.{value, IsCells, IsNormal}
use zis_lang.Bigint.AddSub.{add-value, sub-IsDifference}
use zis_lang.Smallint.{in_range, try_to_ptr, from_ptr, to_ptr, is_int64}
use zis_lang.Smallint.Laws.{try_to_ptr_lem, from_ptr-to_ptr}
use zis_lang.IntObj.{
  IntObj, IntValue, smallint, int_obj, signed, operand, shrink, cell_count_max, add_or_sub, add,
  sub, smallint_result, int_obj_or_smallint, eqb,
}
use zis_lang.IntObj.Denote.{
  denote, IsInt, IsOperand, dummy-IsOperand, IsInt-IsOperand, int64-IsOperand, int64-IsIntObj,
}
use zis_lang.IntObj.Shrink.{Gives, Gives-eq, shrink-IsInt}

IsNormal-pos : (cs : List ℕ) → IsNormal cs → 0 < length cs
IsNormal-pos [] h = elim h [ ]
IsNormal-pos (c ∷ cs) h = omega arith

signed_add : (s : Bool) (m n : ℕ) → signed s (m + n) ≡ signed s m +ℤ signed s n
unfolding ◌+ℤ◌
signed_add false m n = ground arith
signed_add true m n = ground arith

-- A distance with the sign of the greater one is the difference.
signed_sub :
    (s : Bool) (m n d : ℕ)
    → d + min m n ≡ max m n
    → signed (if ltb m n then not s else s) d ≡ signed s m -ℤ signed s n
unfolding ◌-ℤ◌
signed_sub false m n d e = ground arith
signed_sub true m n d e = ground arith

signed-not : (s : Bool) (m : ℕ) (v : ℤ) → v +ℤ signed (not s) m ≡ v -ℤ signed s m
unfolding ◌+ℤ◌ ◌-ℤ◌
signed-not false m v = ground arith
signed-not true m v = ground arith

add_case :
    (lhs rhs : IntObj)
    → IsCells lhs.cells
    → IsCells rhs.cells
    → let n = max (length lhs.cells) (length rhs.cells) in
      n < cell_count_max
      → let r =
          shrink
            (record { negative = lhs.negative; cells = Bigint.add lhs.cells rhs.cells (n + 1) }) in
        Gives r (signed lhs.negative (value lhs.cells) +ℤ signed lhs.negative (value rhs.cells))
add_case lhs rhs hl hr lim =
    let n = max (length lhs.cells) (length rhs.cells) in
    let a = add-value lhs.cells rhs.cells (n + 1) hl hr (omega arith) (omega arith) in
    let s =
      shrink-IsInt
        (record { negative = lhs.negative; cells = Bigint.add lhs.cells rhs.cells (n + 1) }) a.1
        (omega (arith, a.2)) (omega (arith, a.2)) in
    Gives-eq _ _ _ (ap (signed lhs.negative) a.0 ∙ signed_add lhs.negative _ _) s

sub_case :
    (lhs rhs : IntObj)
    → IsCells lhs.cells
    → IsCells rhs.cells
    → IsNormal lhs.cells
    → IsNormal rhs.cells
    → let n = max (length lhs.cells) (length rhs.cells) in
      0 < n
      → n < cell_count_max
      → let d = Bigint.sub lhs.cells rhs.cells n in
        let r =
          shrink
            (record { negative = if d.0 then not lhs.negative else lhs.negative; cells = d.1 }) in
        Gives r (signed lhs.negative (value lhs.cells) -ℤ signed lhs.negative (value rhs.cells))
sub_case lhs rhs hl hr tl tr p lim =
    let n = max (length lhs.cells) (length rhs.cells) in
    let d = sub-IsDifference lhs.cells rhs.cells n hl hr tl tr (omega arith) (omega arith) in
    let y = Bigint.sub lhs.cells rhs.cells n in
    let s =
      shrink-IsInt
        (record { negative = if y.0 then not lhs.negative else lhs.negative; cells = y.1 }) d.cells
        (omega (arith, d.same_length)) (omega (arith, d.same_length)) in
    Gives-eq _ _ _
      (ap (λ b. signed (if b then not lhs.negative else lhs.negative) (value y.1)) d.sign
        ∙ signed_sub lhs.negative _ _ _ d.distance)
      s

signed-not_sub : (s : Bool) (m : ℕ) (v : ℤ) → v -ℤ signed (not s) m ≡ v +ℤ signed s m
unfolding ◌+ℤ◌ ◌-ℤ◌
signed-not_sub false m v = ground arith
signed-not_sub true m v = ground arith

module _ (us vs : List ℕ) (hu : IsCells us) (hv : IsCells vs) (nu : IsNormal us) (nv : IsNormal vs)
    (lim : max (length us) (length vs) < cell_count_max)
    (filled : 0 < max (length us) (length vs)) where
  added :
      (s r sub : Bool) (v : ℤ)
      → (if sub then not (eqb s r) else eqb s r) ≡ true
      → signed s (value us) +ℤ signed s (value vs) ≡ v
      → Gives
          (add_or_sub
            (record { negative = s; cells = us })
            (record { negative = r; cells = vs })
            sub)
          v
  unfolding add_or_sub
  added s r sub v test e =
      let a =
        add_case (record { negative = s; cells = us }) (record { negative = s; cells = vs }) hu hv
          lim in
      rw (test, le→leb (max (length us) (length vs) + 1) cell_count_max (omega arith))
        (Gives-eq _ _ _ e a)

  subtracted :
      (s r sub : Bool) (v : ℤ)
      → (if sub then not (eqb s r) else eqb s r) ≡ false
      → signed s (value us) -ℤ signed s (value vs) ≡ v
      → Gives
          (add_or_sub
            (record { negative = s; cells = us })
            (record { negative = r; cells = vs })
            sub)
          v
  unfolding add_or_sub
  subtracted s r sub v test e =
      let a =
        sub_case (record { negative = s; cells = us }) (record { negative = s; cells = vs }) hu hv
          nu nv filled lim in
      rw (test, le→leb (max (length us) (length vs)) cell_count_max (omega arith))
        (Gives-eq _ _ _ e a)

  abbrev outcome : Bool → ℤ → ℤ → ℤ
  outcome sub l r = if sub then l -ℤ r else l +ℤ r

  by_signs :
      (s r sub : Bool)
      → Gives
          (add_or_sub
            (record { negative = s; cells = us })
            (record { negative = r; cells = vs })
            sub)
          (outcome sub (signed s (value us)) (signed r (value vs)))
  unfolding eqb
  by_signs false false false = added false false false _ refl refl
  by_signs true true false = added true true false _ refl refl
  by_signs false true true = added false true true _ refl (sym (signed-not_sub false (value vs) _))
  by_signs true false true = added true false true _ refl (sym (signed-not_sub true (value vs) _))
  by_signs false true false =
      subtracted false true false _ refl (sym (signed-not false (value vs) _))
  by_signs true false false =
      subtracted true false false _ refl (sym (signed-not true (value vs) _))
  by_signs false false true = subtracted false false true _ refl refl
  by_signs true true true = subtracted true true true _ refl refl

add_or_sub-Gives :
    (lhs rhs : IntObj) (l r : ℤ) (sub : Bool)
    → IsOperand lhs l
    → IsOperand rhs r
    → max (length lhs.cells) (length rhs.cells) < cell_count_max
    → Gives (add_or_sub lhs rhs sub) (if sub then l -ℤ r else l +ℤ r)
add_or_sub-Gives lhs rhs l r sub hl hr lim =
    let filled : 0 < max (length lhs.cells) (length rhs.cells) =
      omega (arith, IsNormal-pos lhs.cells hl.normal) in
    Gives-eq (add_or_sub lhs rhs sub) _ _
      (λ i. if sub then hl.denotes i -ℤ hr.denotes i else hl.denotes i +ℤ hr.denotes i)
      (by_signs lhs.cells rhs.cells hl.cells hr.cells hl.normal hr.normal lim filled lhs.negative
        rhs.negative sub)

-- The sum or difference of two small integers, which an int64_t holds.
smallint_result-Gives : (x : ℤ) → is_int64 x ≡ true → Gives (some (smallint_result x)) x
unfolding smallint_result int_obj_or_smallint
smallint_result-Gives x h = by_ptr (try_to_ptr x) (try_to_ptr_lem x h)
  where
    by_ptr :
        (o : Option ℕ)
        → o ≡ (if in_range x then some (to_ptr x) else none)
        → Gives (some (elim o [ some p ↦ smallint (from_ptr p) | none ↦ int_obj_or_smallint x ])) x
    by_ptr none e =
        let large : in_range x ≡ false = ground arith in
        rw large ((int64-IsOperand x h).denotes, int64-IsIntObj x h large)
    by_ptr (some p) e =
        let small : in_range x ≡ true = ground arith in
        let q : p ≡ to_ptr x = ground arith in
        let b = ap from_ptr q ∙ (from_ptr-to_ptr x small).0 in (b, ap in_range b ∙ small)

is_int64-add : (l r : ℤ) → in_range l ≡ true → in_range r ≡ true → is_int64 (l +ℤ r) ≡ true
unfolding in_range is_int64 ◌+ℤ◌
is_int64-add l r hl hr = ground arith

is_int64-sub : (l r : ℤ) → in_range l ≡ true → in_range r ≡ true → is_int64 (l -ℤ r) ≡ true
unfolding in_range is_int64 ◌-ℤ◌
is_int64-sub l r hl hr = ground arith

-- The integers whose cells leave room for one more.
abbrev pub HasRoom : IntValue → Type 0
HasRoom v = length (operand v).cells < cell_count_max

-- A large integer does not meet the small integer 0, whose lone cell fails an assertion of bigint_cmp
-- and bigint_sub.
abbrev pub MeetsNoZero : IntValue → IntValue → Type 0
MeetsNoZero (smallint l) (smallint r) = Unit {0}
MeetsNoZero (smallint l) (int_obj r) = l ≢ pos 0
MeetsNoZero (int_obj l) (smallint r) = r ≢ pos 0
MeetsNoZero (int_obj l) (int_obj r) = Unit {0}

-- For two integers in their one form, each with fewer cells than the greatest cell count, and not a
-- large one and 0, zis_int_obj_or_smallint_add succeeds and gives the sum in its one form, whatever the signs and
-- the representations.
pub add-Gives :
    (l r : IntValue)
    → IsInt l
    → IsInt r
    → HasRoom l
    → HasRoom r
    → MeetsNoZero l r
    → Gives (add l r) (denote l +ℤ denote r)
unfolding add
add-Gives (smallint l) (smallint r) hl hr rl rr z =
    smallint_result-Gives (l +ℤ r) (is_int64-add l r hl hr)
add-Gives (smallint l) (int_obj r) hl hr rl rr z =
    add_or_sub-Gives _ r l _ false (dummy-IsOperand l hl) (IsInt-IsOperand (int_obj r) hr)
      (omega arith)
add-Gives (int_obj l) r hl hr rl rr z =
    add_or_sub-Gives l _ _ _ false (IsInt-IsOperand (int_obj l) hl) (IsInt-IsOperand r hr)
      (omega arith)

-- For two integers in their one form, each with fewer cells than the greatest cell count, and not a
-- large one and 0, zis_int_obj_or_smallint_sub succeeds and gives the difference in its one form, whatever the
-- signs and the representations.
pub sub-Gives :
    (l r : IntValue)
    → IsInt l
    → IsInt r
    → HasRoom l
    → HasRoom r
    → MeetsNoZero l r
    → Gives (sub l r) (denote l -ℤ denote r)
unfolding sub
sub-Gives (smallint l) (smallint r) hl hr rl rr z =
    smallint_result-Gives (l -ℤ r) (is_int64-sub l r hl hr)
sub-Gives (smallint l) (int_obj r) hl hr rl rr z =
    add_or_sub-Gives _ r l _ true (dummy-IsOperand l hl) (IsInt-IsOperand (int_obj r) hr)
      (omega arith)
sub-Gives (int_obj l) r hl hr rl rr z =
    add_or_sub-Gives l _ _ _ true (IsInt-IsOperand (int_obj l) hl) (IsInt-IsOperand r hr)
      (omega arith)
