-- ===== src/IntObj/Shrink.antt =====
-- int_obj_shrink keeps the integer and leaves it in its one form.
use Prim.Native.Nat.{bit_or}
use zis_lang.Common.{
  ℕ, zero, suc, ◌-◌, ◌*◌, ◌^◌, ◌≤◌, ◌<◌, ◌≡◌, refl, ap, ◌∙◌, Bool, true, false, List, [], ◌∷◌,
  arith, length, leb, if◌then◌else◌, ◌==◌, Bool-cases, inl, inr, Option, some, none,
}
use zis_lang.Common.Bits.{bit_or-high_low}
use zis_lang.Bigint.Value.{value, IsCells, IsTrimmed, span-le-value, span-pos}
use zis_lang.Smallint.{in_range}
use zis_lang.Common.Int.{ℤ}
use zis_lang.IntObj.{IntValue, IntObj, signed, trim, shrink, shrink_trimmed, cell_count_max}
use zis_lang.IntObj.Denote.{denote, IsInt}

-- No cell is left, or the last one is not zero.
abbrev IsStripped : List ℕ → Type 0
IsStripped [] = Unit {0}
IsStripped (c ∷ cs) = IsTrimmed (c ∷ cs)

trim-value :
    (cs : List ℕ)
    → IsCells cs
    → (value (trim cs) ≡ value cs)
      × IsCells (trim cs)
      × IsStripped (trim cs)
      × (length (trim cs) ≤ length cs)
unfolding trim
trim-value [] h = (refl, tt, tt, omega arith)
trim-value (c ∷ cs) h = step (trim cs) (trim-value cs h.1)
  where
    step :
        (ds : List ℕ)
        → (value ds ≡ value cs) × IsCells ds × IsStripped ds × (length ds ≤ length cs)
        → let r : List ℕ = elim ds [ [] ↦ if c == 0 then [] else c ∷ [] | d ∷ es ↦ c ∷ d ∷ es ] in
          (value r ≡ value (c ∷ cs)) × IsCells r × IsStripped r × (length r ≤ suc (length cs))
    step [] ih = elim (Bool-cases (c == 0)) [
      | inl e ↦ rw e (ground arith, tt, tt, omega arith)
      | inr e ↦ rw e (omega (arith, ih.0), (h.0, tt), ground arith, omega arith)
    ]
    step (d ∷ es) ih = (omega (arith, ih.0), (h.0, ih.1), ih.2, omega arith)

pub signed-in_range : (neg : Bool) (n : ℕ) → n < 2 ^ 62 → in_range (signed neg n) ≡ true
unfolding in_range
signed-in_range false n h = ground arith
signed-in_range true zero h = ground arith
signed-in_range true (suc n) h = ground arith

signed-out : (neg : Bool) (n : ℕ) → 2 ^ 62 < n → in_range (signed neg n) ≡ false
unfolding in_range
signed-out false n h = ground arith
signed-out true zero h = absurd (omega arith)
signed-out true (suc n) h = ground arith

-- The bound that the code compares two cells with decides the range.
two_cells :
    (neg : Bool) (n : ℕ) → in_range (signed neg n) ≡ leb n (if neg then 2 ^ 62 else 2 ^ 62 - 1)
unfolding in_range
two_cells false n = ground arith
two_cells true zero = ground arith
two_cells true (suc n) = ground arith

shrink_trimmed-IsInt :
    (neg : Bool) (cs : List ℕ)
    → IsCells cs
    → IsStripped cs
    → length cs ≤ cell_count_max
    → (denote (shrink_trimmed neg cs) ≡ signed neg (value cs)) × IsInt (shrink_trimmed neg cs)
unfolding shrink_trimmed
shrink_trimmed-IsInt false [] h s l = (refl, unfold in_range in refl)
shrink_trimmed-IsInt true [] h s l = (refl, unfold in_range in refl)
shrink_trimmed-IsInt neg (c ∷ []) h s l =
    (ap (signed neg) (omega arith), signed-in_range neg c (omega arith))
shrink_trimmed-IsInt neg (c ∷ d ∷ []) h s l =
    let e : bit_or (d * 2 ^ 32) c ≡ value (c ∷ d ∷ []) = bit_or-high_low 32 d c h.0 ∙ omega arith in
    let lim = if neg then 2 ^ 62 else 2 ^ 62 - 1 in
    rw e (elim (Bool-cases (leb (value (c ∷ d ∷ [])) lim)) [
      | inl fits ↦ rw fits (refl, two_cells neg (value (c ∷ d ∷ [])) ∙ fits)
      | inr over ↦ rw over (
        refl,
        record {
          cells = h;
          trimmed = s;
          bounded = l;
          large = two_cells neg (value (c ∷ d ∷ [])) ∙ over;
        },
      )
    ])
shrink_trimmed-IsInt neg (c ∷ d ∷ f ∷ cs) h s l = (
  refl,
  record {
    cells = h;
    trimmed = s;
    bounded = l;
    large =
        signed-out neg _ (omega (arith, span-le-value (c ∷ d ∷ f ∷ cs) s, span-pos (length cs)));
  },
)

-- The result stands for the integer v and has its one form.
abbrev pub Gives : Option IntValue → ℤ → Type 0
Gives none v = ⊥
Gives (some r) v = (denote r ≡ v) × IsInt r

pub Gives-eq : (o : Option IntValue) (u v : ℤ) → u ≡ v → Gives o u → Gives o v
Gives-eq none u v e h = h
Gives-eq (some r) u v e h = (h.0 ∙ e, h.1)

-- On an object of cells, at least one and not more than the greatest cell count, int_obj_shrink keeps the integer,
-- and its result has the one form of that integer: a small integer if it can be one, an object
-- without leading zeros else.
pub shrink-IsInt :
    (x : IntObj)
    → IsCells x.cells
    → 0 < length x.cells
    → length x.cells ≤ cell_count_max
    → Gives (shrink x) (signed x.negative (value x.cells))
unfolding shrink
shrink-IsInt x h p l = shrink_cells x.negative x.cells h p l
  where
    shrink_cells :
        (neg : Bool) (cells : List ℕ)
        → IsCells cells
        → 0 < length cells
        → length cells ≤ cell_count_max
        → Gives (shrink (record { negative = neg; cells = cells })) (signed neg (value cells))
    shrink_cells neg [] h p l = absurd (omega arith)
    shrink_cells neg (c ∷ cs) h p l =
        let t = trim-value (c ∷ cs) h in
        let r = shrink_trimmed-IsInt neg (trim (c ∷ cs)) t.1 t.2 (omega arith) in
        (r.0 ∙ ap (signed neg) t.0, r.1)
