-- ===== src/Assembler/Build.antt =====
-- src/core/assembly.c: the calls that a function is assembled by, and what holds after them.
use zis_lang.Common.{
  ℕ, zero, suc, ◌+◌, ◌*◌, ◌%◌, ◌^◌, ◌≤◌, ◌<◌, ◌≡◌, refl, sym, inl, inr, ◌⊎◌, arith, List, [], ◌∷◌,
  ◌++◌, length, length-append, length-set,
}
use mathlib.Core.Path.{subst}
use mathlib.Core.Option.{some_inj, none-ne-some}
use zis_lang.Common.Int.{pos}
use zis_lang.Instr.{make_aw, make_asw, make_asbw, make_asbc, extract_opcode, pattern32, u32}
use zis_lang.Instr.Fields.{place_a, place_b, place_c, mask7}
use zis_lang.Opcode
use zis_lang.Assembler.{
  Assembler, Jump, is_extended, uint32_max, create, append, append_jump, append_jump_asw,
  append_jump_asbw, append_jump_asbc, alloc_label, place_label,
}
use zis_lang.Assembler.Layout.{width, Layout}
use zis_lang.Assembler.Pass.{All}
use zis_lang.Assembler.View.{IsEntry, opcode_asw, opcode_asbw}
use zis_lang.Assembler.Extend.{IsSound}
use zis_lang.Assembler.Looped.{Layout-longer}

-- What a code generator makes with the calls of the function assembler: the labels of jumps are
-- allocated before, and so are the labels that are placed.
pub data Built {V : Type 0} : Assembler V → Type 0 where
  created : Built create
  emitted : {s : Assembler V} (w : ℕ) → Built s → Built (append w s)
  jumped :
      {s : Assembler V} (l : ℕ)
      → l < length s.labels
      → Built s
      → Built (append_jump_asw Opcode.jmp l s)
  tested :
      {s : Assembler V} (op l b : ℕ)
      → (op ≡ 0x29) ⊎ (op ≡ 0x2a)
      → l < length s.labels
      → Built s
      → Built (append_jump_asbw op l b s)
  compared :
      {s : Assembler V} (op l b c : ℕ)
      → 0x2b ≤ op
      → op ≤ 0x30
      → l < length s.labels
      → Built s
      → Built (append_jump_asbc op l b c s)
  allocated : {s : Assembler V} (undefined : ℕ) → Built s → Built (alloc_label undefined s).1
  placed : {s : Assembler V} (l : ℕ) → l < length s.labels → Built s → Built (place_label l s).1

-- The entries do not overlap and have labels.
unfoldable pub IsOpen : {V : Type 0} → Assembler V → Type 0
IsOpen s = Layout 0 (length s.instrs) s.jumps × All (IsEntry (length s.labels)) s.jumps

All-append {ℓ} :
    {A : Type ℓ} (P : A → Type 0) (xs : List A) (y : A) → All P xs → P y → All P (xs ++ y ∷ [])
All-append P [] y a p zero x q = subst P (some_inj.0 q) p
All-append P [] y a p (suc i) x q = absurd (none-ne-some x q)
All-append P (z ∷ xs) y a p zero x q = a 0 x q
All-append P (z ∷ xs) y a p (suc i) x q = All-append P xs y (λ j. a (suc j)) p i x q

Layout-append :
    (from len : ℕ) (es : List Jump) (e : Jump)
    → Layout from len es
    → e.address ≡ len
    → width e ≡ 1
    → Layout from (suc len) (es ++ e ∷ [])
unfolding Layout
Layout-append from len [] e l a w = (omega (arith, a), omega (arith, a, w))
Layout-append from len (d ∷ es) e (l, r) a w =
    (l, Layout-append (d.address + width d) len es e r a w)

opcode_asbc : (op b c : ℕ) → op < 128 → extract_opcode (make_asbc op (pos 0) b c) ≡ op
unfolding make_asbc extract_opcode pattern32
opcode_asbc op b c h =
    rw
      (
        place_a op (0 % 2 ^ 32) h,
        place_b (0 % 2 ^ 32 % 512 * 128 + op) b (omega arith),
        place_c (b % 256 * 65536 + (0 % 2 ^ 32 % 512 * 128 + op)) c (omega arith),
        mask7,
      )
      (omega arith)

-- More labels leave entries.
IsEntry-longer : (m n : ℕ) (e : Jump) → m ≤ n → IsEntry m e → IsEntry n e
unfolding IsEntry
IsEntry-longer m n e h (b, c) = (omega arith, c)

create-IsOpen : (V : Type 0) → IsOpen (create {V = V})
unfolding IsOpen Layout create
create-IsOpen V = (omega arith, λ i x q. absurd (none-ne-some x q))

module _ {V : Type 0} where
  append-IsOpen : (w : ℕ) (s : Assembler V) → IsOpen s → IsOpen (append w s)
  unfolding IsOpen append
  append-IsOpen w s (l, a) = (
    subst (λ n. Layout 0 n s.jumps) (sym (omega (arith, length-append s.instrs (w ∷ []))))
        (Layout-longer 0 (length s.instrs) s.jumps l),
    a,
  )

  append_jump-IsOpen :
      (instr l : ℕ) (s : Assembler V)
      → length s.instrs < 2 ^ 32
      → l < length s.labels
      → ((extract_opcode instr ≡ Opcode.jmp)
          ⊎ ((0x29 ≤ extract_opcode instr) × (extract_opcode instr ≤ 0x30)))
      → IsOpen s
      → IsOpen (append_jump instr l s)
  unfolding IsOpen append_jump append IsEntry is_extended width
  append_jump-IsOpen instr l s h k c (y, a) =
      let n = length s.instrs in
      let mark = make_aw Opcode.count (length s.jumps) in
      let e : Jump = record { address = u32 n; label = l; instr0 = instr; instr1 = uint32_max } in
      (
        subst (λ t. Layout 0 t (s.jumps ++ e ∷ []))
            (sym (omega (arith, length-append s.instrs (mark ∷ []))))
            (Layout-append 0 n s.jumps e y (omega arith) refl),
        All-append (IsEntry (length s.labels)) s.jumps e a
            (k, elim c [ inl q ↦ inl (q, refl) | inr r ↦ inr r ]),
      )

  length-append_jump :
      (instr l : ℕ) (s : Assembler V)
      → length (append_jump instr l s).instrs ≡ suc (length s.instrs)
  unfolding append_jump append
  length-append_jump instr l s =
      omega (arith, length-append s.instrs (make_aw Opcode.count (length s.jumps) ∷ []))

  alloc_label-IsOpen : (u : ℕ) (s : Assembler V) → IsOpen s → IsOpen (alloc_label u s).1
  unfolding IsOpen alloc_label
  alloc_label-IsOpen u s (l, a) = (
    l,
    λ i x q.
        IsEntry-longer (length s.labels) (length (s.labels ++ u ∷ [])) x
          (omega (arith, length-append s.labels (u ∷ []))) (a i x q),
  )

  place_label-IsOpen : (id : ℕ) (s : Assembler V) → IsOpen s → IsOpen (place_label id s).1
  unfolding IsOpen place_label
  place_label-IsOpen id s (l, a) = (
    l,
    λ i x q.
        subst (λ n. IsEntry n x) (sym (length-set s.labels id (u32 (length s.instrs)))) (a i x q),
  )

  shorter :
      (instr l : ℕ) (s : Assembler V)
      → length (append_jump instr l s).instrs < 2 ^ 32
      → length s.instrs < 2 ^ 32
  shorter instr l s h = omega (arith, length-append_jump instr l s)

  emitted-shorter :
      (w : ℕ) (s : Assembler V) → length (append w s).instrs < 2 ^ 32 → length s.instrs < 2 ^ 32
  unfolding append
  emitted-shorter w s h = omega (arith, length-append s.instrs (w ∷ []))

  Built-IsOpen : {s : Assembler V} → Built s → length s.instrs < 2 ^ 32 → IsOpen s
  unfolding append_jump_asw append_jump_asbw append_jump_asbc alloc_label place_label
  Built-IsOpen created h = create-IsOpen V
  Built-IsOpen (emitted {s = s} w b) h = append-IsOpen w s (Built-IsOpen b (emitted-shorter w s h))
  Built-IsOpen (jumped {s = s} l k b) h =
      let instr = make_asw Opcode.jmp (pos 0) in
      let short = shorter instr l s h in
      append_jump-IsOpen instr l s short k (inl (opcode_asw Opcode.jmp (pos 0) (omega arith)))
        (Built-IsOpen b short)
  Built-IsOpen (tested {s = s} op l b c k d) h =
      let instr = make_asbw op (pos 0) b in
      let short = shorter instr l s h in
      let o : extract_opcode instr ≡ op = opcode_asbw op (pos 0) b (omega arith) in
      append_jump-IsOpen instr l s short k (inr (omega (arith, o), omega (arith, o)))
        (Built-IsOpen d short)
  Built-IsOpen (compared {s = s} op l b c x y k d) h =
      let instr = make_asbc op (pos 0) b c in
      let short = shorter instr l s h in
      let o : extract_opcode instr ≡ op = opcode_asbc op b c (omega arith) in
      append_jump-IsOpen instr l s short k (inr (omega (arith, o), omega (arith, o)))
        (Built-IsOpen d short)
  Built-IsOpen (allocated {s = s} u b) h = alloc_label-IsOpen u s (Built-IsOpen b h)
  Built-IsOpen (placed {s = s} l k b) h = place_label-IsOpen l s (Built-IsOpen b h)

  -- The entries of a function that was built by the calls, and that is not longer than addresses
  -- reach, are sound once all labels are placed inside it.
  pub Built-IsSound :
      {s : Assembler V}
      → Built s
      → length s.instrs < 2 ^ 32
      → All (λ l. l ≤ length s.instrs) s.labels
      → IsSound s
  unfolding IsOpen IsSound
  Built-IsSound b h p = let (l, a) = Built-IsOpen b h in (l, p, a)
