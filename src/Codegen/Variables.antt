-- ===== src/Codegen/Variables.antt =====
-- src/core/codegen.c, the variables of frames and blocks. A symbol is a number, and var_map is the
-- function from the symbols to the registers that the map holds. `none` is a register or a variable
-- that is not there.
pub mod Scopes
pub mod Lookup
use zis_lang.Common.{ℕ, Bool, not, ◌&&◌, Option, none, some, List, [], ◌∷◌, ◌==◌, if◌then◌else◌}
use zis_lang.Codegen.Registers.{Frame, alloc_regs}

-- The variables of struct frame_scope
pub record FrameScope : Type 0 where
  pub var_map : ℕ → Option ℕ
  pub regs : Frame

-- struct var_scope, with the frame that it points to; the last of its variables comes first.
pub record VarScope : Type 0 where
  pub frame : FrameScope
  pub vars : List ℕ

-- zis_map_obj_sym_set
abbrev pub sym_set : (ℕ → Option ℕ) → ℕ → ℕ → ℕ → Option ℕ
sym_set map name reg n = if n == name then some reg else map n

-- frame_scope_alloc_var
unfoldable pub alloc_var : FrameScope → ℕ → Option (ℕ × FrameScope)
alloc_var fs name = elim (alloc_regs fs.regs 1) [
  | none ↦ none
  | some (reg, regs) ↦ some (reg, record { var_map = sym_set fs.var_map name reg; regs = regs })
]

-- frame_scope_find_var
unfoldable pub find_var : FrameScope → ℕ → ℕ
find_var fs name = elim (fs.var_map name) [ none ↦ 0 | some reg ↦ reg ]

-- var_scope_alloc_var
unfoldable pub var_scope_alloc_var : VarScope → ℕ → Option (ℕ × VarScope)
unfolding alloc_var
var_scope_alloc_var vs name = elim (alloc_var vs.frame name) [
  | none ↦ none
  | some (reg, fs) ↦ some (reg, record { frame = fs; vars = name ∷ vs.vars })
]

-- scope_stack_last_frame_or_var_scope
pub data Scope : Type 0 where
  in_frame : FrameScope → Scope
  in_var_scope : VarScope → Scope

abbrev pub frame_of : Scope → FrameScope
frame_of (in_frame fs) = fs
frame_of (in_var_scope vs) = vs.frame

-- The allocation of scope_find_or_alloc_var
unfoldable pub scope_alloc_var : Scope → ℕ → Option (ℕ × Scope)
unfolding alloc_var var_scope_alloc_var
scope_alloc_var (in_frame fs) name = elim (alloc_var fs name) [
  | none ↦ none
  | some (reg, fs') ↦ some (reg, in_frame fs')
]
scope_alloc_var (in_var_scope vs) name = elim (var_scope_alloc_var vs name) [
  | none ↦ none
  | some (reg, vs') ↦ some (reg, in_var_scope vs')
]

-- scope_find_or_alloc_var
unfoldable pub scope_find_or_alloc_var : Bool → Scope → ℕ → Option (ℕ × Scope)
unfolding find_var scope_alloc_var
scope_find_or_alloc_var is_toplevel scope name =
    let reg = find_var (frame_of scope) name in
    if reg == 0 && not is_toplevel then scope_alloc_var scope name else some (reg, scope)
