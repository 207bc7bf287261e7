-- ===== src/Assembler/Layout.antt =====
-- src/core/assembly.c: the entries of the table of jumps do not overlap.
use zis_lang.Common.{
  ℕ, zero, suc, ◌+◌, ◌-◌, ◌^◌, ◌≤◌, ◌<◌, ◌≡◌, refl, ◌∙◌, true, false, arith, List, [], ◌∷◌,
  get_elem?, set, some, if◌then◌else◌,
}
use native.Mathlib.Nat.{suc-add}
use mathlib.Core.Path.{subst}
use mathlib.Core.Option.{none-ne-some, some_inj}
use zis_lang.Assembler.{Jump, shift_address, jumpinstr_table_shift, shift_jump, is_extended}
use zis_lang.Assembler.Shift.{shift_address-above, shift_address-below}

-- the instructions that an entry stands for
unfoldable pub width : Jump → ℕ
unfolding is_extended
width e = if is_extended e then 2 else 1

-- The entries follow each other from an address on without overlap, and end inside a length.
unfoldable pub Layout : ℕ → ℕ → List Jump → Type 0
unfolding width
Layout from len [] = from ≤ len
Layout from len (e ∷ es) = (from ≤ e.address) × Layout (e.address + width e) len es

pub width-pos : (e : Jump) → (1 ≤ width e) × (width e ≤ 2)
unfolding width
width-pos e = ground arith

pub width-extended : (e : Jump) → is_extended e ≡ true → width e ≡ 2
unfolding width
width-extended e w = rw (width, w) refl

pub width-single : (e : Jump) → is_extended e ≡ false → width e ≡ 1
unfolding width
width-single e w = rw (width, w) refl

-- A layout ends behind where it begins.
pub Layout-le : (from len : ℕ) (es : List Jump) → Layout from len es → from ≤ len
unfolding Layout
Layout-le from len [] h = h
Layout-le from len (e ∷ es) (h, r) = omega (arith, Layout-le (e.address + width e) len es r)

-- Each entry stands between the two ends.
pub Layout-get_elem? :
    (from len : ℕ) (es : List Jump) (i : ℕ) (e : Jump)
    → Layout from len es
    → get_elem? es i ≡ some e
    → (from ≤ e.address) × (e.address + width e ≤ len)
unfolding Layout
Layout-get_elem? from len [] i e l h = absurd (none-ne-some e h)
Layout-get_elem? from len (d ∷ es) zero e (h, r) q =
    subst (λ u. (from ≤ u.address) × (u.address + width u ≤ len)) (some_inj.0 q)
      (h, Layout-le (d.address + width d) len es r)
Layout-get_elem? from len (d ∷ es) (suc i) e (h, r) q =
    let (a, b) = Layout-get_elem? (d.address + width d) len es i e r q in (omega (arith, a, h), b)

-- Entries behind the position of an insertion move up by one.
Layout-above :
    (at from len : ℕ) (es : List Jump)
    → at ≤ from
    → len < 2 ^ 32 - 1
    → Layout from len es
    → Layout (suc from) (suc len) (jumpinstr_table_shift at es)
unfolding Layout jumpinstr_table_shift shift_jump width
Layout-above at from len [] h s l = omega arith
Layout-above at from len (e ∷ es) h s (l, r) =
    let u = Layout-le (e.address + width e) len es r in
    rw
      (
        shift_address-above at e.address (omega arith) (omega (arith, u, width-pos e)),
        suc-add e.address (width e),
      )
      (omega arith, Layout-above at (e.address + width e) len es (omega arith) s r)

-- An entry that comes to stand for a second instruction, with one more instruction behind it and
-- the addresses from there on shifted, leaves a layout.
pub Layout-extend :
    (from len : ℕ) (es : List Jump) (i : ℕ) (e f : Jump)
    → len < 2 ^ 32 - 1
    → Layout from len es
    → get_elem? es i ≡ some e
    → f.address ≡ e.address
    → width e ≡ 1
    → width f ≡ 2
    → Layout from (suc len) (jumpinstr_table_shift (e.address + 1) (set es i f))
unfolding Layout jumpinstr_table_shift shift_jump width
Layout-extend from len [] i e f s l q a w1 w2 = absurd (none-ne-some e q)
Layout-extend from len (d ∷ es) zero e f s (l, r) q a w1 w2 =
    let v = some_inj.0 q in
    let at = e.address + 1 in
    let (l2, r2) = subst (λ u. (from ≤ u.address) × Layout (u.address + width u) len es) v (l, r) in
    let moved =
      Layout-above at (e.address + 1) len es (omega arith) s
        (subst (λ n. Layout (e.address + n) len es) w1 r2) in
    let p : shift_address at f.address ≡ e.address =
      shift_address-below at f.address (omega (arith, a)) ∙ a in
    (
      omega (arith, p, l2),
      subst (λ n. Layout n (suc len) (jumpinstr_table_shift at es)) (omega (arith, p, w2)) moved,
    )
Layout-extend from len (d ∷ es) (suc i) e f s (l, r) q a w1 w2 =
    let at = e.address + 1 in
    let b = Layout-get_elem? (d.address + width d) len es i e r q in
    let p : shift_address at d.address ≡ d.address =
      shift_address-below at d.address (omega (arith, b.0)) in
    (
      omega (arith, p, l),
      subst (λ n. Layout n (suc len) (jumpinstr_table_shift at (set es i f))) (omega (arith, p))
          (Layout-extend (d.address + width d) len es i e f s r q a w1 w2),
    )
