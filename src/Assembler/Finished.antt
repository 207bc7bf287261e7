-- ===== src/Assembler/Finished.antt =====
-- src/core/assembly.c, zis_assembler_finish: the code that it makes.
use zis_lang.Common.{ℕ, suc, ◌+◌, ◌^◌, ◌≤◌, ◌<◌, ◌≡◌, List, length, get_elem?, some}
use zis_lang.Common.Int.{pos}
use zis_lang.Assembler.{Assembler, Jump}
use zis_lang.Assembler.Finish.{copy_jumps, finish}
use zis_lang.Assembler.Copy.{Holds}
use zis_lang.Assembler.Pass.{IsFilled}
use zis_lang.Assembler.View.{IsEntry, View}
use zis_lang.Assembler.Extend.{IsSound}
use zis_lang.Assembler.Moved.{moved}
use zis_lang.Assembler.Decode.{jump_target}
use zis_lang.Assembler.Looped.{IsShort, looped, made}

-- an instruction of the code that leads to an address
abbrev pub Reaches : List ℕ → ℕ → ℕ → Type 0
Reaches code at target = (w : ℕ) × (get_elem? code at ≡ some w) × (jump_target at w ≡ pos target)

module _ {V : Type 0} where
  -- The code of a function whose entries are sound and that is short is made: the loop over the
  -- jumps ends, and no jump is too far. The code takes at most a RETNIL and one instruction for each
  -- jump more than what was appended.
  pub finish_total :
      (s : Assembler V)
      → IsSound s
      → IsShort s
      → (code : List ℕ) × (f : Assembler V) × (finish s ≡ some (code, f))
        × (length f.instrs ≤ suc (length s.instrs) + length s.jumps)
  finish_total s h b =
      let (f, q, (so, le, fi, mv)) = looped s h b in
      (copy_jumps f.jumps f.instrs, f, made s h b, le)

  -- an entry of the finished table: its instructions in the code, and how they were filled
  abbrev IsDone : List ℕ → Assembler V → Jump → Type 0
  IsDone code f e =
      Holds code e
      × IsFilled (IsEntry (length f.labels)) f.labels e
      × (e.address < 2 ^ 24)
      × ((l : ℕ) → get_elem? f.labels e.label ≡ some l → l < 2 ^ 24)

  -- an entry and its label, as they were before the end and as they are in the code
  abbrev Placed : Assembler V → Assembler V → ℕ → ℕ → Type 0
  Placed s f i l =
      (d : Jump)
      → get_elem? s.jumps i ≡ some d
      → get_elem? s.labels d.label ≡ some l
      → (e : Jump) × (get_elem? f.jumps i ≡ some e)
        × (e.address ≡ moved s.jumps f.jumps d.address)
        × (get_elem? f.labels e.label ≡ some (moved s.jumps f.jumps l))

  -- an entry of the table, which is e at the end, whose label was placed at l
  abbrev pub IsJumpTo : Assembler V → Assembler V → ℕ → Jump → Jump → ℕ → Type 0
  IsJumpTo s f i d e l =
      (get_elem? s.jumps i ≡ some d)
      × (get_elem? s.labels d.label ≡ some l)
      × (get_elem? f.jumps i ≡ some e)
