-- ===== src/Assembler.antt =====
-- src/core/assembly.c, the function assembler: instructions, labels and jumps of one function.
-- A growing buffer is the list of what it holds; its capacity and the reallocation are left out. An
-- address is a uint32_t. Objects in the table of constants are of any type.
pub mod Copy
pub mod Entry
pub mod Finish
pub mod Finished
pub mod Fill
pub mod Layout
pub mod Opposite
pub mod Moved
pub mod Extend
pub mod Follow
pub mod Looped
pub mod Offset
pub mod Resolve
pub mod Decode
pub mod Landing
pub mod Build
pub mod Pass
pub mod View
pub mod Shift
use zis_lang.Common.{
  ℕ, zero, suc, ◌+◌, ◌-◌, ◌%◌, ◌^◌, Bool, true, false, not, Option, none, some, List, [], ◌∷◌, ◌++◌,
  map, length, take, drop, set, get_or, get_elem?, ltb, leb, ◌==◌, if◌then◌else◌,
}
use zis_lang.Opcode
use zis_lang.Common.Int.{ℤ, pos, negsuc}
use zis_lang.Instr.{
  u32, make_aw, make_asw, make_abw, make_asbw, make_absw, make_abc, make_asbc, make_abscs,
}

-- struct jumpinstr_table_entry
pub record Jump : Type 0 where
  pub address : ℕ
  pub label : ℕ
  pub instr0 : ℕ
  pub instr1 : ℕ

abbrev pub uint32_max : ℕ
uint32_max = 2 ^ 32 - 1

unfoldable pub is_extended : Jump → Bool
is_extended e = not (e.instr1 == uint32_max)

-- struct zis_func_obj_meta
pub record FuncMeta : Type 0 where
  pub na : ℕ
  pub no : ℕ
  pub nr : ℕ

-- struct zis_assembler, but for the symbols and the list of the parents' assemblers
pub record Assembler {ℓ} (V : Type ℓ) : Type ℓ where
  pub constants : List V
  pub instrs : List ℕ
  pub labels : List ℕ
  pub jumps : List Jump
  pub func_meta : FuncMeta

-- instr_buffer_insert: x is appended, and moved to its position if that is not the end
unfoldable pub instr_buffer_insert : List ℕ → ℕ → ℕ → List ℕ
instr_buffer_insert ib at x = take at ib ++ x ∷ drop at ib

-- one turn of the loops of label_table_shift and jumpinstr_table_shift
unfoldable pub shift_address : ℕ → ℕ → ℕ
shift_address addr_start x = if leb addr_start x then u32 (x + 1) else x

unfoldable pub label_table_shift : ℕ → List ℕ → List ℕ
unfolding shift_address
label_table_shift addr_start lt = map (shift_address addr_start) lt

unfoldable pub shift_jump : ℕ → Jump → Jump
unfolding shift_address
shift_jump addr_start e = record e { address = shift_address addr_start e.address }

unfoldable pub jumpinstr_table_shift : ℕ → List Jump → List Jump
unfolding shift_jump
jumpinstr_table_shift addr_start jt = map (shift_jump addr_start) jt

module _ {ℓ} {V : Type ℓ} where
  -- zis_assembler_create
  unfoldable pub create : Assembler V
  create = record {
    constants = [];
    instrs = [];
    labels = [];
    jumps = [];
    func_meta = record { na = 0; no = 0; nr = 0 };
  }

  -- zis_assembler_alloc_label; the new entry holds what the memory held, undefined before a first
  -- clear
  unfoldable pub alloc_label : ℕ → Assembler V → ℕ × Assembler V
  alloc_label undefined self =
      (length self.labels, record self { labels = self.labels ++ undefined ∷ [] })

  unfoldable pub place_label : ℕ → Assembler V → ℕ × Assembler V
  place_label id self = (id, record self { labels = set self.labels id (u32 (length self.instrs)) })

  unfoldable pub append : ℕ → Assembler V → Assembler V
  append instr self = record self { instrs = self.instrs ++ instr ∷ [] }

  unfoldable pub append_aw : ℕ → ℕ → Assembler V → Assembler V
  unfolding append
  append_aw opcode a self = append (make_aw opcode a) self

  unfoldable pub append_asw : ℕ → ℤ → Assembler V → Assembler V
  unfolding append
  append_asw opcode a self = append (make_asw opcode a) self

  unfoldable pub append_abw : ℕ → ℕ → ℕ → Assembler V → Assembler V
  unfolding append
  append_abw opcode a b self = append (make_abw opcode a b) self

  unfoldable pub append_asbw : ℕ → ℤ → ℕ → Assembler V → Assembler V
  unfolding append
  append_asbw opcode a b self = append (make_asbw opcode a b) self

  unfoldable pub append_absw : ℕ → ℕ → ℤ → Assembler V → Assembler V
  unfolding append
  append_absw opcode a b self = append (make_absw opcode a b) self

  unfoldable pub append_abc : ℕ → ℕ → ℕ → ℕ → Assembler V → Assembler V
  unfolding append
  append_abc opcode a b c self = append (make_abc opcode a b c) self

  unfoldable pub append_asbc : ℕ → ℤ → ℕ → ℕ → Assembler V → Assembler V
  unfolding append
  append_asbc opcode a b c self = append (make_asbc opcode a b c) self

  unfoldable pub append_abscs : ℕ → ℕ → ℤ → ℤ → Assembler V → Assembler V
  unfolding append
  append_abscs opcode a b c self = append (make_abscs opcode a b c) self

  -- jumpinstr_table_add, and the placeholder that refers to the entry
  unfoldable pub append_jump : ℕ → ℕ → Assembler V → Assembler V
  unfolding append
  append_jump instr label self =
      let ji = length self.jumps in
      let entry : Jump = record {
        address = u32 (length self.instrs);
        label = label;
        instr0 = instr;
        instr1 = uint32_max;
      } in
      append (make_aw Opcode.count ji) (record self { jumps = self.jumps ++ entry ∷ [] })

  unfoldable pub append_jump_asw : ℕ → ℕ → Assembler V → Assembler V
  unfolding append_jump
  append_jump_asw opcode label self = append_jump (make_asw opcode (pos 0)) label self

  unfoldable pub append_jump_asbw : ℕ → ℕ → ℕ → Assembler V → Assembler V
  unfolding append_jump
  append_jump_asbw opcode label b self = append_jump (make_asbw opcode (pos 0) b) label self

  unfoldable pub append_jump_asbc : ℕ → ℕ → ℕ → ℕ → Assembler V → Assembler V
  unfolding append_jump
  append_jump_asbc opcode label b c self = append_jump (make_asbc opcode (pos 0) b c) label self

  -- zis_assembler_func_constant
  unfoldable pub func_constant : V → Assembler V → ℕ × Assembler V
  func_constant v self =
      (length self.constants, record self { constants = self.constants ++ v ∷ [] })

  -- zis_assembler_func_meta with numbers to set
  unfoldable pub set_func_meta : FuncMeta → Assembler V → Assembler V
  set_func_meta m self = record self { func_meta = m }

  -- zis_assembler_clear
  unfoldable pub clear : Assembler V → Assembler V
  unfolding create
  clear self = create
