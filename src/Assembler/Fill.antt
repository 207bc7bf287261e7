-- ===== src/Assembler/Fill.antt =====
-- src/core/assembly.c: one pass of the loop that fills the table of jumps.
use zis_lang.Common.{
  ℕ, zero, suc, ◌+◌, ◌≤◌, ◌≡◌, refl, ap, sym, ◌∙◌, arith, List, [], ◌∷◌, length, get_elem?, set,
  some, if◌then◌else◌,
}
use mathlib.Core.Path.{subst}
use mathlib.Core.Option.{some_inj}
use zis_lang.Assembler.{Jump, is_extended}
use zis_lang.Assembler.Entry.{SamePlace}
use zis_lang.Assembler.Layout.{width, Layout}

-- the same entries but for their instructions
pub data Alike : List Jump → List Jump → Type 0 where
  no_entry : Alike [] []
  one_more :
      {e f : Jump} {es fs : List Jump}
      → SamePlace e f
      → is_extended f ≡ is_extended e
      → Alike es fs
      → Alike (e ∷ es) (f ∷ fs)

pub Alike-refl : (es : List Jump) → Alike es es
Alike-refl [] = no_entry
Alike-refl (e ∷ es) = one_more (refl, refl) refl (Alike-refl es)

pub Alike-trans : {es fs gs : List Jump} → Alike es fs → Alike fs gs → Alike es gs
Alike-trans no_entry q = q
Alike-trans (one_more (a, b) w p) (one_more (c, d) v q) =
    one_more (c ∙ a, d ∙ b) (v ∙ w) (Alike-trans p q)

pub Alike-set :
    (es : List Jump) (i : ℕ) (e f : Jump)
    → get_elem? es i ≡ some e
    → SamePlace e f
    → is_extended f ≡ is_extended e
    → Alike es (set es i f)
Alike-set [] i e f q p w = no_entry
Alike-set (d ∷ es) zero e f q p w =
    subst (λ u. Alike (u ∷ es) (f ∷ es)) (sym (some_inj.0 q)) (one_more p w (Alike-refl es))
Alike-set (d ∷ es) (suc i) e f q p w = one_more (refl, refl) refl (Alike-set es i e f q p w)

pub Alike-Layout :
    {es fs : List Jump} (from len : ℕ) → Alike es fs → Layout from len es → Layout from len fs
unfolding Layout width
Alike-Layout from len no_entry l = l
Alike-Layout from len (one_more (a, b) w p) (l, r) = rw (a, w) (l, Alike-Layout _ len p r)

pub Alike-length : {es fs : List Jump} → Alike es fs → length fs ≡ length es
Alike-length no_entry = refl
Alike-length (one_more a w p) = ap suc (Alike-length p)

-- the jumps that are not extended yet
unfoldable pub pending : List Jump → ℕ
pending [] = 0
pending (e ∷ es) = (if is_extended e then 0 else 1) + pending es

pub Alike-pending : {es fs : List Jump} → Alike es fs → pending fs ≡ pending es
unfolding pending
Alike-pending no_entry = refl
Alike-pending (one_more a w p) = rw (w, Alike-pending p) refl

pub pending-le : (es : List Jump) → pending es ≤ length es
unfolding pending
pending-le [] = omega arith
pending-le (e ∷ es) = ground (arith, pending-le es)
