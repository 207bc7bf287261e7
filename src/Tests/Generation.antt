-- ===== src/Tests/Generation.antt =====
-- Registers of the code generator: ten in use, but for 2 to 5 and 8.
use zis_lang.Common.{
  ℕ, ◌<◌, ◌≡◌, true, false, none, some, [], ◌∷◌, arith, zero, suc, ◌+◌, ◌≢◌, get_elem?, refl,
}
use mathlib.Core.Path.{subst}
use mathlib.Core.Option.{some_inj, none-ne-some}
use zis_lang.Codegen.Registers.{FreeRegs, Frame, alloc_regs, free_regs}
use zis_lang.Codegen.Registers.Ranges.{IsFrame}
use zis_lang.Codegen.Registers.Alloc.{AllocatesSome, LeavesMore, alloc_regs-Allocates}
use zis_lang.Codegen.Registers.Rest.{alloc_regs-fault}
use zis_lang.Codegen.Registers.Free.{ReleasesSome, free_regs-Releases}
use zis_lang.Codegen.Variables.{
  FrameScope, in_var_scope, sym_set, find_var, scope_find_or_alloc_var,
}
use zis_lang.Codegen.Variables.Scopes.{IsScope, sym_set-cases}
use zis_lang.Codegen.Variables.Lookup.{FindsSome, scope_find_or_alloc_var-Finds}

abbrev used : Frame
used = record {
  reg_touched_max = 12;
  reg_allocated_max = 10;
  free_regs_list = record { start = 2; end = 6 } ∷ record { start = 8; end = 9 } ∷ [];
}

used-IsFrame : IsFrame used
used-IsFrame = record { ranges = omega arith; touched = omega arith }

used-LeavesMore : (n : ℕ) → 0 < n → n < 3 → LeavesMore used n
used-LeavesMore n p l zero x e =
    subst (λ (u : FreeRegs). u.end ≢ u.start + n + 1) (some_inj.0 e) (λ q. omega (arith, q))
used-LeavesMore n p l (suc zero) x e =
    subst (λ (u : FreeRegs). u.end ≢ u.start + n + 1) (some_inj.0 e) (λ q. omega (arith, q))
used-LeavesMore n p l (suc (suc i)) x e = absurd (none-ne-some x e)

alloc_regs-Allocates_example : AllocatesSome used 2 (alloc_regs used 2)
alloc_regs-Allocates_example =
    alloc_regs-Allocates used 2 (omega arith) used-IsFrame (omega arith)
      (used-LeavesMore 2 (omega arith) (omega arith))

used_others :
    (j : ℕ) (y : FreeRegs) → get_elem? used.free_regs_list j ≡ some y → y.end ≢ y.start + 3
used_others zero y e =
    subst (λ (u : FreeRegs). u.end ≢ u.start + 3) (some_inj.0 e) (λ q. omega (arith, q))
used_others (suc zero) y e =
    subst (λ (u : FreeRegs). u.end ≢ u.start + 3) (some_inj.0 e) (λ q. omega (arith, q))
used_others (suc (suc j)) y e = absurd (none-ne-some y e)

alloc_regs-fault_example : alloc_regs used 3 ≡ none
alloc_regs-fault_example =
    alloc_regs-fault used 3 0 (record { start = 2; end = 6 }) (omega arith) used-IsFrame
      (omega arith) used_others refl (omega arith)

free_regs-Releases_example : ReleasesSome used 6 2 (free_regs used 6 2)
free_regs-Releases_example =
    free_regs-Releases used 6 2 (omega arith) used-IsFrame (omega arith) (λ r m. ground arith)

-- The variable 7 in the register 6
abbrev variables : FrameScope
variables = record { var_map = sym_set (λ n. none) 7 6; regs = used }

variables-IsScope : IsScope variables
variables-IsScope = record {
  frame = used-IsFrame;
  held = λ n r e. ground (arith, sym_set-cases (λ n. none) 7 6 n r e);
  apart = λ m n r e e'.
      ground (arith, sym_set-cases (λ n. none) 7 6 m r e, sym_set-cases (λ n. none) 7 6 n r e');
}

scope_find_or_alloc_var-Finds_example :
    let scope = in_var_scope (record { frame = variables; vars = [] }) in
    FindsSome scope 8 (scope_find_or_alloc_var false scope 8)
    × (scope_find_or_alloc_var true scope 8 ≡ some (find_var variables 8, scope))
scope_find_or_alloc_var-Finds_example =
    scope_find_or_alloc_var-Finds (in_var_scope (record { frame = variables; vars = [] })) 8
      variables-IsScope (omega arith) (used-LeavesMore 1 (omega arith) (omega arith))
