-- ===== src/Assembler/Copy.antt =====
-- src/core/assembly.c: copying the instructions of the table of jumps into the buffer.
use zis_lang.Common.{
  ℕ, zero, suc, ◌+◌, ◌<◌, ◌≡◌, ◌≢◌, refl, sym, ◌∙◌, true, Bool-cases, inl, inr, arith, List, [],
  ◌∷◌, length, get_elem?, set, some, if◌then◌else◌, length-set, get_elem?-set_self,
  get_elem?-set_ne,
}
use mathlib.Core.Path.{subst}
use mathlib.Core.Option.{none-ne-some, some_inj}
use zis_lang.Assembler.{Jump, is_extended}
use zis_lang.Assembler.Finish.{copy_jumps}
use zis_lang.Assembler.Layout.{width, Layout, Layout-le, width-pos, width-extended}

-- one turn of the loop
unfoldable copied : Jump → List ℕ → List ℕ
copied e code =
    let first = set code e.address e.instr0 in
    if is_extended e then set first (e.address + 1) e.instr1 else first

length-copied : (e : Jump) (code : List ℕ) → length (copied e code) ≡ length code
unfolding copied
length-copied e code = elim (Bool-cases (is_extended e)) [
  | inl w ↦
      rw (copied, w)
        (length-set (set code e.address e.instr0) (e.address + 1) e.instr1
          ∙ length-set code e.address e.instr0)
  | inr w ↦ rw (copied, w) (length-set code e.address e.instr0)
]

copied_elsewhere :
    (e : Jump) (code : List ℕ) (a : ℕ)
    → e.address ≢ a
    → e.address + 1 ≢ a
    → get_elem? (copied e code) a ≡ get_elem? code a
unfolding copied
copied_elsewhere e code a h k =
    let one = get_elem?-set_ne code e.instr0 h in
    elim (Bool-cases (is_extended e)) [
      | inl w ↦ rw (copied, w) (get_elem?-set_ne (set code e.address e.instr0) e.instr1 k ∙ one)
      | inr w ↦ rw (copied, w) one
    ]

-- The instructions below a layout are left as they are.
copy_below :
    (from len : ℕ) (es : List Jump) (code : List ℕ) (a : ℕ)
    → Layout from len es
    → a < from
    → get_elem? (copy_jumps es code) a ≡ get_elem? code a
unfolding Layout copy_jumps copied
copy_below from len [] code a l h = refl
copy_below from len (e ∷ es) code a (l, r) h =
    copy_below (e.address + width e) len es (copied e code) a r (omega arith)
    ∙ copied_elsewhere e code a (λ q. omega (arith, q)) (λ q. omega (arith, q))

copied_first :
    (e : Jump) (code : List ℕ)
    → e.address < length code
    → get_elem? (copied e code) e.address ≡ some e.instr0
unfolding copied
copied_first e code h =
    let one = get_elem?-set_self code e.address e.instr0 h in
    elim (Bool-cases (is_extended e)) [
      | inl w ↦
          rw (copied, w)
            (get_elem?-set_ne (set code e.address e.instr0) e.instr1 (λ q. omega (arith, q)) ∙ one)
      | inr w ↦ rw (copied, w) one
    ]

copied_second :
    (e : Jump) (code : List ℕ)
    → is_extended e ≡ true
    → e.address + 1 < length code
    → get_elem? (copied e code) (e.address + 1) ≡ some e.instr1
unfolding copied
copied_second e code w h =
    rw (copied, w)
      (get_elem?-set_self (set code e.address e.instr0) (e.address + 1) e.instr1
        (omega (arith, length-set code e.address e.instr0)))

-- the instructions of an entry, at its address
abbrev pub Holds : List ℕ → Jump → Type 0
Holds code e =
    (get_elem? code e.address ≡ some e.instr0)
    × (is_extended e ≡ true → get_elem? code (e.address + 1) ≡ some e.instr1)

-- Every entry of a layout inside the buffer is copied whole.
pub copy_jumps-Holds :
    (from : ℕ) (es : List Jump) (code : List ℕ) (i : ℕ) (e : Jump)
    → Layout from (length code) es
    → get_elem? es i ≡ some e
    → Holds (copy_jumps es code) e
unfolding Layout copy_jumps copied
copy_jumps-Holds from [] code i e l q = absurd (none-ne-some e q)
copy_jumps-Holds from (d ∷ es) code zero e (l, r) q =
    let len = length code in
    let below = copy_below (d.address + width d) len es (copied d code) in
    let end = Layout-le (d.address + width d) len es r in
    subst (λ u. Holds (copy_jumps es (copied d code)) u) (some_inj.0 q)
      (
        below d.address r (omega (arith, width-pos d))
            ∙ copied_first d code (omega (arith, end, width-pos d)),
        λ w.
            below (d.address + 1) r (omega (arith, width-extended d w))
            ∙ copied_second d code w (omega (arith, end, width-extended d w)),
      )
copy_jumps-Holds from (d ∷ es) code (suc i) e (l, r) q =
    copy_jumps-Holds (d.address + width d) es (copied d code) i e
      (subst (λ n. Layout (d.address + width d) n es) (sym (length-copied d code)) r) q
