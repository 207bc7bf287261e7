-- ===== src/Tests/Assembly.antt =====
-- Functions with a jump forward, and with one that is too far for its field.
use zis_lang.Common.{ℕ, zero, suc, ◌+◌, ◌≤◌, ◌≡◌, arith, none, some, List, [], ◌∷◌, length}
use mathlib.Core.Path.{subst}
use mathlib.Core.Option.{some_inj, none-ne-some}
use zis_lang.Instr.{make_aw}
use zis_lang.Assembler.{Assembler, Jump, create, append, append_jump_asbc, alloc_label, place_label}
use zis_lang.Assembler.Finish.{finish}
use zis_lang.Assembler.Pass.{All}
use zis_lang.Assembler.Extend.{IsSound}
use zis_lang.Assembler.Build.{Built, created, emitted, compared, allocated, placed, Built-IsSound}
use zis_lang.Assembler.Finished.{finish_total}

-- JMPLE to a label behind some instructions
abbrev begun : Assembler ℕ
begun = append_jump_asbc 0x2b 0 1 2 (alloc_label 7 create).1

unfoldable emits : ℕ → Assembler ℕ → Assembler ℕ
emits zero s = s
emits (suc n) s = append (make_aw 0 0) (emits n s)

begun-Built : Built begun
unfolding alloc_label create
begun-Built = compared 0x2b 0 1 2 (omega arith) (omega arith) (omega arith) (allocated 7 created)

-- the label placed behind n instructions
abbrev jumping : ℕ → Assembler ℕ
jumping n = (place_label 0 (emits n begun)).1

one_label : (n l : ℕ) → l ≤ n → All (λ x. x ≤ n) (l ∷ [])
one_label n l h zero x q = subst (λ t. t ≤ n) (some_inj.0 q) h
one_label n l h (suc i) x q = absurd (none-ne-some x q)

emits-Built : (n : ℕ) → Built (emits n begun)
unfolding emits append_jump_asbc
emits-Built zero = begun-Built
emits-Built (suc n) = emitted (make_aw 0 0) (emits-Built n)

near_Built : Built (jumping 2)
unfolding place_label emits append append_jump_asbc alloc_label create
near_Built = placed 0 (omega arith) (emits-Built 2)

far_Built : Built (jumping 300)
unfolding place_label emits append append_jump_asbc alloc_label create
far_Built = placed 0 (omega arith) (emits-Built 300)

Built-IsSound_example : IsSound (jumping 2)
unfolding place_label emits append append_jump_asbc alloc_label create
Built-IsSound_example = Built-IsSound near_Built (omega arith) (one_label 3 3 (omega arith))

far_IsSound : IsSound (jumping 300)
unfolding place_label emits append append_jump_asbc alloc_label create
far_IsSound = Built-IsSound far_Built (omega arith) (one_label 301 301 (omega arith))

finish_total_example :
    (code : List ℕ) × (f : Assembler ℕ) × (finish (jumping 300) ≡ some (code, f))
    × (length f.instrs ≤ suc (length (jumping 300).instrs) + length (jumping 300).jumps)
unfolding place_label emits append append_jump_asbc alloc_label create
finish_total_example = finish_total (jumping 300) far_IsSound (omega arith)

-- what the finished code is
abbrev finished : ℕ → List ℕ × Assembler ℕ
finished n = elim (finish (jumping n)) [ none ↦ ([], jumping n) | some r ↦ r ]

abbrev first_jump : ℕ → Jump
first_jump n = elim (finished n).1.jumps [
  | [] ↦ record { address = 0; label = 0; instr0 = 0; instr1 = 0 }
  | e ∷ es ↦ e
]

-- the entry as it was
abbrev placed_jump : ℕ → Jump
placed_jump n = elim (jumping n).jumps [
  | [] ↦ record { address = 0; label = 0; instr0 = 0; instr1 = 0 }
  | e ∷ es ↦ e
]
