-- ===== src/Codegen/Variables/Lookup.antt =====
-- scope_find_or_alloc_var: the register that a name has from its first use on.
use zis_lang.Common.{
  ℕ, ◌+◌, ◌^◌, ◌<◌, ◌≡◌, refl, ◌∙◌, Bool, true, false, ◌∷◌, Option, none, some, ◌==◌, ◌≢◌, inl, inr,
  arith, Option-cases, Bool-cases,
}
use zis_lang.Codegen.Registers.Alloc.{LeavesMore}
use zis_lang.Codegen.Variables.{
  FrameScope, VarScope, Scope, in_frame, in_var_scope, frame_of, var_scope_alloc_var, find_var,
  scope_alloc_var, scope_find_or_alloc_var,
}
use zis_lang.Codegen.Variables.Scopes.{IsScope, Binds, bound_some, alloc_var-Binds}

-- The register of a name, and the scope afterwards
pub record Finds (scope : Scope) (name reg : ℕ) (scope' : Scope) : Type 0 where
  pub well_formed : IsScope (frame_of scope')
  pub is_reg : 0 < reg
  pub found : find_var (frame_of scope') name ≡ reg
  pub others : (n : ℕ) → n ≢ name → find_var (frame_of scope') n ≡ find_var (frame_of scope) n
  pub again : (t : Bool) → scope_find_or_alloc_var t scope' name ≡ some (reg, scope')

abbrev pub FindsSome : Scope → ℕ → Option (ℕ × Scope) → Type 0
FindsSome scope name none = ⊥
FindsSome scope name (some (reg, scope')) = Finds scope name reg scope'

found_again :
    (scope : Scope) (name reg : ℕ) (t : Bool)
    → 0 < reg
    → find_var (frame_of scope) name ≡ reg
    → scope_find_or_alloc_var t scope name ≡ some (reg, scope)
unfolding scope_find_or_alloc_var
found_again scope name reg t l e =
    let p : (reg == 0) ≡ false = ground arith in rw (scope_find_or_alloc_var, e, p) refl

found_bound : (fs : FrameScope) (name reg : ℕ) → fs.var_map name ≡ some reg → find_var fs name ≡ reg
unfolding find_var
found_bound fs name reg e = rw (find_var, e) refl

found_unbound : (fs : FrameScope) (name : ℕ) → fs.var_map name ≡ none → find_var fs name ≡ 0
unfolding find_var
found_unbound fs name e = rw (find_var, e) refl

find_var-ap :
    (fs fs' : FrameScope) (n : ℕ) → fs'.var_map n ≡ fs.var_map n → find_var fs' n ≡ find_var fs n
unfolding find_var
find_var-ap fs fs' n e = rw (find_var, e) refl

Binds-Finds :
    (scope : Scope) (name reg : ℕ) (scope' : Scope)
    → 0 < reg
    → Binds (frame_of scope) name reg (frame_of scope')
    → Finds scope name reg scope'
Binds-Finds scope name reg scope' l b =
    let e : find_var (frame_of scope') name ≡ reg =
      found_bound (frame_of scope') name reg (b.vars name ∙ ground arith) in
    record {
      well_formed = b.scope;
      is_reg = l;
      found = e;
      others = λ n d. find_var-ap (frame_of scope) (frame_of scope') n (b.vars n ∙ ground arith);
      again = λ t. found_again scope' name reg t l e;
    }

scope_alloc_var-FindsSome :
    (scope : Scope) (name : ℕ)
    → IsScope (frame_of scope)
    → (frame_of scope).regs.reg_allocated_max + 1 < 2 ^ 32
    → LeavesMore (frame_of scope).regs 1
    → (frame_of scope).var_map name ≡ none
    → FindsSome scope name (scope_alloc_var scope name)
unfolding scope_alloc_var var_scope_alloc_var
scope_alloc_var-FindsSome (in_frame fs) name h room apart new =
    let (reg, fs', e, l, b) = bound_some fs name _ (alloc_var-Binds fs name h room apart new) in
    rw (FindsSome, scope_alloc_var, e) (Binds-Finds (in_frame fs) name reg (in_frame fs') l b)
scope_alloc_var-FindsSome (in_var_scope vs) name h room apart new =
    let (reg, fs', e, l, b) =
      bound_some vs.frame name _ (alloc_var-Binds vs.frame name h room apart new) in
    let vs' : VarScope = record { frame = fs'; vars = name ∷ vs.vars } in
    rw (FindsSome, scope_alloc_var, var_scope_alloc_var, e)
      (Binds-Finds (in_var_scope vs) name reg (in_var_scope vs') l b)

known_Finds :
    (scope : Scope) (name reg : ℕ)
    → IsScope (frame_of scope)
    → (frame_of scope).var_map name ≡ some reg
    → Finds scope name reg scope
known_Finds scope name reg h e =
    let l : 0 < reg = ground (arith, h.held name reg e) in
    let f = found_bound (frame_of scope) name reg e in
    record {
      well_formed = h;
      is_reg = l;
      found = f;
      others = λ n d. refl;
      again = λ t. found_again scope name reg t l f;
    }

-- For a scope whose variables have registers of their own, whose free entries have one register or
-- at least three (one of two fails the assertion of frame_scope_alloc_regs), and a register number
-- left below 2 to the 32: in a function, scope_find_or_alloc_var gives a name a register, not 0, of the frame that the
-- scope belongs to, which it has from then on: it is found again, and a second call changes nothing.
-- The other names keep theirs, and the variables still have registers of their own. At the top level
-- it gives what frame_scope_find_var gives, and nothing changes.
pub scope_find_or_alloc_var-Finds :
    (scope : Scope) (name : ℕ)
    → IsScope (frame_of scope)
    → (frame_of scope).regs.reg_allocated_max + 1 < 2 ^ 32
    → LeavesMore (frame_of scope).regs 1
    → FindsSome scope name (scope_find_or_alloc_var false scope name)
      × (scope_find_or_alloc_var true scope name ≡ some (find_var (frame_of scope) name, scope))
unfolding scope_find_or_alloc_var
scope_find_or_alloc_var-Finds scope name h room apart = (
  elim (Option-cases ((frame_of scope).var_map name)) [
    | inl e ↦
        rw (scope_find_or_alloc_var, found_unbound (frame_of scope) name e)
          (scope_alloc_var-FindsSome scope name h room apart e)
    | inr (reg, e) ↦ let k = known_Finds scope name reg h e in rw (k.again false) k
  ],
  (elim (Bool-cases (find_var (frame_of scope) name == 0)) [
    | inl e ↦ rw e refl
    | inr e ↦ rw e refl
  ]),
)
