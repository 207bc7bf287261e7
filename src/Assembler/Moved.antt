-- ===== src/Assembler/Moved.antt =====
-- src/core/assembly.c: where the addresses of a function are in the code with its second instructions.
use zis_lang.Common.{
  ℕ, zero, suc, ◌+◌, ◌-◌, ◌^◌, ◌≤◌, ◌<◌, ◌≡◌, refl, ap, ◌∙◌, true, false, ◌&&◌, not, arith, List,
  [], ◌∷◌, get_elem?, set, some, ltb, if◌then◌else◌, Bool-cases, inl, inr,
}
use mathlib.Core.Option.{none-ne-some, some_inj}
use zis_lang.Assembler.{Jump, is_extended, shift_address, shift_jump, jumpinstr_table_shift}
use zis_lang.Assembler.Shift.{shift_address-above, shift_address-below}
use zis_lang.Assembler.Fill.{Alike, no_entry, one_more}

-- The jumps before an address that have got a second instruction
abbrev pub inserted : List Jump → List Jump → ℕ → ℕ
inserted [] fs x = 0
inserted (e ∷ es) [] x = 0
inserted (e ∷ es) (f ∷ fs) x =
    (if ltb e.address x && (not (is_extended e) && is_extended f) then 1 else 0) + inserted es fs x

abbrev pub moved : List Jump → List Jump → ℕ → ℕ
moved es fs x = x + inserted es fs x

pub inserted-le : (es fs : List Jump) (x y : ℕ) → x ≤ y → inserted es fs x ≤ inserted es fs y
inserted-le [] fs x y l = omega arith
inserted-le (e ∷ es) [] x y l = omega arith
inserted-le (e ∷ es) (f ∷ fs) x y l = ground (arith, inserted-le es fs x y l)

-- moved keeps the order
pub moved-lt : (es fs : List Jump) (x y : ℕ) → x < y → moved es fs x < moved es fs y
moved-lt es fs x y l = omega (arith, inserted-le es fs x y (omega arith))

pub inserted-Alike :
    (es : List Jump) (fs gs : List Jump) (x : ℕ) → Alike fs gs → inserted es gs x ≡ inserted es fs x
inserted-Alike [] fs gs x a = refl
inserted-Alike (e ∷ es) [] [] x no_entry = refl
inserted-Alike (e ∷ es) [] (g ∷ gs) x a = elim a [ ]
inserted-Alike (e ∷ es) (f ∷ fs) [] x a = elim a [ ]
inserted-Alike (e ∷ es) (f ∷ fs) (g ∷ gs) x (one_more p w a) =
    rw (w, inserted-Alike es fs gs x a) refl

pub inserted-shift :
    (at : ℕ) (es fs : List Jump) (x : ℕ)
    → inserted es (jumpinstr_table_shift at fs) x ≡ inserted es fs x
unfolding jumpinstr_table_shift shift_jump is_extended
inserted-shift at [] fs x = refl
inserted-shift at (e ∷ es) [] x = refl
inserted-shift at (e ∷ es) (f ∷ fs) x = rw (inserted-shift at es fs x) refl

-- One more second instruction
pub inserted-set :
    (es fs : List Jump) (k x : ℕ) (e f d : Jump)
    → get_elem? es k ≡ some e
    → get_elem? fs k ≡ some f
    → is_extended e ≡ false
    → is_extended f ≡ false
    → is_extended d ≡ true
    → inserted es (set fs k d) x ≡ (if ltb e.address x then 1 else 0) + inserted es fs x
inserted-set [] fs k x e f d q r u v w = absurd (none-ne-some e q)
inserted-set (a ∷ es) [] k x e f d q r u v w = absurd (none-ne-some f r)
inserted-set (a ∷ es) (b ∷ fs) zero x e f d q r u v w =
    let p : a ≡ e = some_inj.0 q in
    let p' : b ≡ f = some_inj.0 r in
    let ea : is_extended a ≡ false = ap is_extended p ∙ u in
    let eb : is_extended b ≡ false = ap is_extended p' ∙ v in rw (← p, ea, eb, w) ground arith
inserted-set (a ∷ es) (b ∷ fs) (suc k) x e f d q r u v w =
    omega (arith, inserted-set es fs k x e f d q r u v w)

-- An address behind the jump that is extended moves up once more, and no other does.
pub shift-moved :
    (es fs : List Jump) (a x : ℕ)
    → moved es fs x < 2 ^ 32 - 1
    → shift_address (moved es fs a + 1) (moved es fs x)
      ≡ x + ((if ltb a x then 1 else 0) + inserted es fs x)
shift-moved es fs a x l = elim (Bool-cases (ltb a x)) [
  | inl w ↦ rw w (
      shift_address-above (moved es fs a + 1) (moved es fs x)
        (let l' : a < x = ground arith in omega (arith, moved-lt es fs a x l')) l
      ∙ omega arith)
  | inr w ↦ rw w (
      shift_address-below (moved es fs a + 1) (moved es fs x)
        (let l' : x ≤ a = ground arith in omega (arith, inserted-le es fs x a l'))
      ∙ omega arith)
]

pub inserted_self : (es : List Jump) (x : ℕ) → inserted es es x ≡ 0
inserted_self [] x = refl
inserted_self (e ∷ es) x = elim (Bool-cases (is_extended e)) [
  | inl w ↦ ground (arith, inserted_self es x)
  | inr w ↦ ground (arith, inserted_self es x)
]
