-- ===== src/Codegen/Variables/Scopes.antt =====
-- The variables of a frame have registers of their own: one variable more.
use zis_lang.Common.{
  ℕ, ◌+◌, ◌^◌, ◌≤◌, ◌<◌, ◌≡◌, refl, sym, ◌∙◌, true, false, ◌||◌, Option, none, some, ◌==◌, ◌⊎◌, ◌≢◌,
  inl, inr, if◌then◌else◌, arith,
}
use zis_lang.Codegen.Registers.{Frame, alloc_regs}
use zis_lang.Codegen.Registers.Ranges.{IsFrame, is_live, among}
use zis_lang.Codegen.Registers.Alloc.{AllocatesSome, LeavesMore, alloc_regs-Allocates}
use zis_lang.Codegen.Variables.{FrameScope, sym_set, alloc_var}

-- Every variable has a register in use, and no two have the same.
pub record IsScope (fs : FrameScope) : Type 0 where
  pub frame : IsFrame fs.regs
  pub held : (n r : ℕ) → fs.var_map n ≡ some r → is_live fs.regs r ≡ true
  pub apart : (m n r : ℕ) → fs.var_map m ≡ some r → fs.var_map n ≡ some r → m ≡ n

-- A name gets a register that was not in use.
pub record Binds (fs : FrameScope) (name reg : ℕ) (fs' : FrameScope) : Type 0 where
  pub scope : IsScope fs'
  pub fresh : is_live fs.regs reg ≡ false
  pub live : (r : ℕ) → is_live fs'.regs r ≡ (is_live fs.regs r || r == reg)
  pub vars : (n : ℕ) → fs'.var_map n ≡ (if n == name then some reg else fs.var_map n)
  pub grown : fs'.regs.reg_allocated_max ≤ fs.regs.reg_allocated_max + 1

abbrev pub BindsSome : FrameScope → ℕ → Option (ℕ × FrameScope) → Type 0
BindsSome fs name none = ⊥
BindsSome fs name (some (reg, fs')) = (0 < reg) × Binds fs name reg fs'

among_one : (reg r : ℕ) → among reg 1 r ≡ (r == reg)
among_one reg r = ground arith

pub sym_set-cases :
    (vars : ℕ → Option ℕ) (name reg n r : ℕ)
    → sym_set vars name reg n ≡ some r
    → ((n ≡ name) × (r ≡ reg)) ⊎ ((n ≢ name) × (vars n ≡ some r))
sym_set-cases vars name reg n r = ground arith

pub alloc_var-Binds :
    (fs : FrameScope) (name : ℕ)
    → IsScope fs
    → fs.regs.reg_allocated_max + 1 < 2 ^ 32
    → LeavesMore fs.regs 1
    → fs.var_map name ≡ none
    → BindsSome fs name (alloc_var fs name)
unfolding alloc_var
alloc_var-Binds fs name h room apart new =
    bound (alloc_regs fs.regs 1) (alloc_regs-Allocates fs.regs 1 (omega arith) h.frame room apart)
  where
    bound :
        (o : Option (ℕ × Frame))
        → AllocatesSome fs.regs 1 o
        → BindsSome fs name (elim o [
          | none ↦ none
          | some (reg, regs) ↦
              some (reg, record { var_map = sym_set fs.var_map name reg; regs = regs })
        ])
    bound none a = a
    bound (some (reg, regs)) a = (
      a.first,
      record {
        scope = record {
          frame = a.frame;
          held = λ n r e. elim (sym_set-cases fs.var_map name reg n r e) [
            | inl (u, v) ↦ ground (arith, a.live r)
            | inr (u, v) ↦ ground (arith, a.live r, h.held n r v)
          ];
          apart = λ m n r e e'. elim (sym_set-cases fs.var_map name reg m r e) [
            | inl (u, v) ↦ (elim (sym_set-cases fs.var_map name reg n r e') [
              | inl (u', v') ↦ u ∙ sym u'
              | inr (u', v') ↦ ground (arith, h.held n r v', a.fresh r)
            ])
            | inr (u, v) ↦ (elim (sym_set-cases fs.var_map name reg n r e') [
              | inl (u', v') ↦ ground (arith, h.held m r v, a.fresh r)
              | inr (u', v') ↦ h.apart m n r v v'
            ])
          ];
        };
        fresh = a.fresh reg (ground arith);
        live = λ r. ground (arith, a.live r, among_one reg r);
        vars = λ n. refl;
        grown = a.grown;
      },
    )

pub bound_some :
    (fs : FrameScope) (name : ℕ) (o : Option (ℕ × FrameScope))
    → BindsSome fs name o
    → (reg : ℕ) × (fs' : FrameScope) × (o ≡ some (reg, fs')) × (0 < reg) × Binds fs name reg fs'
bound_some fs name none b = absurd b
bound_some fs name (some (reg, fs')) b = (reg, fs', refl, b.0, b.1)
