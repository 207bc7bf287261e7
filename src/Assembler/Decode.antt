-- ===== src/Assembler/Decode.antt =====
-- src/core/invoke.c, the jumps: where a filled instruction leads.
use zis_lang.Common.{
  ℕ, ◌+◌, ◌-◌, ◌*◌, ◌%◌, ◌^◌, ◌≤◌, ◌<◌, ◌≡◌, refl, ap, ◌∙◌, false, Bool-cases, inl, inr, ◌⊎◌, arith,
  ◌==◌, ◌||◌, if◌then◌else◌,
}
use mathlib.Core.Path.{subst}
use zis_lang.Common.Int.{ℤ, pos, negsuc, ◌+ℤ◌}
use zis_lang.Instr.{
  signed32, sar, pattern32, make_asw, make_asbw, extract_opcode, extract_asw, extract_asbw,
  extract_asbc,
}
use zis_lang.Instr.Fields.{place_a, place_wide_b, mask9}
use zis_lang.Instr.RoundTrip.{IsSigned, asw-round_trip}
use zis_lang.Opcode
use zis_lang.Assembler.Finish.{jump_offset, outside_i25, outside_i9}
use zis_lang.Assembler.Offset.{jump_offset-sub_ℕ}
use zis_lang.Assembler.View.{opcode_asbw}

-- the address that IP_JUMP_TO is given in JMP, JMPT, JMPF and the jumps that compare
unfoldable pub jump_target : ℕ → ℕ → ℤ
jump_target ip instr =
    let op = extract_opcode instr in
    if op == Opcode.jmp
    then pos ip +ℤ extract_asw instr
    else if op == 0x29 || op == 0x2a
    then pos ip +ℤ (extract_asbw instr).0
    else pos ip +ℤ (extract_asbc instr).0

inside_i25 : (n : ℤ) → outside_i25 n ≡ false → IsSigned (2 ^ 24) n
unfolding outside_i25
inside_i25 (pos n) h = ground arith
inside_i25 (negsuc n) h = ground arith

inside_i9 : (n : ℤ) → outside_i9 n ≡ false → IsSigned 256 n
unfolding outside_i9
inside_i9 (pos n) h = ground arith
inside_i9 (negsuc n) h = ground arith

-- An address and the offset to a label make the label.
pub landing : (l at : ℕ) → l < 2 ^ 31 → at < 2 ^ 31 → pos at +ℤ jump_offset l at ≡ pos l
unfolding ◌+ℤ◌
landing l at h k = rw (jump_offset-sub_ℕ l at h k) (ground arith)

pub landing_past :
    (l at : ℕ) → l < 2 ^ 31 → at < 2 ^ 31 → pos (at + 1) +ℤ jump_offset l at ≡ pos (l + 1)
unfolding ◌+ℤ◌
landing_past l at h k = rw (jump_offset-sub_ℕ l at h k) (ground arith)

pub jmp_target :
    (ip : ℕ) (n : ℤ) → outside_i25 n ≡ false → jump_target ip (make_asw Opcode.jmp n) ≡ pos ip +ℤ n
unfolding jump_target
jmp_target ip n h =
    let (o, a) = asw-round_trip Opcode.jmp n (omega arith) (inside_i25 n h) in rw (o, a) refl

asbc_offset :
    (op : ℕ) (n : ℤ) (b : ℕ) → op < 128 → IsSigned 256 n → (extract_asbc (make_asbw op n b)).0 ≡ n
unfolding make_asbw extract_asbc pattern32
asbc_offset op (pos n) b h s =
    rw (place_a op (n % 2 ^ 32) h, place_wide_b (n % 2 ^ 32 % 512 * 128 + op) b (omega arith))
      (unfold sar signed32 in ground arith)
asbc_offset op (negsuc n) b h s =
    rw
      (
        place_a op (2 ^ 32 - 1 - n % 2 ^ 32) h,
        place_wide_b ((2 ^ 32 - 1 - n % 2 ^ 32) % 512 * 128 + op) b (omega arith),
      )
      (unfold sar signed32 in ground arith)

asbw_offset : (op n b : ℕ) → op < 128 → n < 256 → (extract_asbw (make_asbw op (pos n) b)).0 ≡ pos n
unfolding make_asbw extract_asbw pattern32
asbw_offset op n b h s =
    rw
      (place_a op (n % 2 ^ 32) h, place_wide_b (n % 2 ^ 32 % 512 * 128 + op) b (omega arith), mask9)
      (unfold sar signed32 in ground arith)

flag_offset :
    (op at l b : ℕ)
    → l < 2 ^ 31
    → at < 2 ^ 31
    → outside_i9 (jump_offset l at) ≡ false
    → at ≤ l
    → op < 128
    → (extract_asbw (make_asbw op (jump_offset l at) b)).0 ≡ jump_offset l at
flag_offset op at l b hl ha s c k =
    let e : jump_offset l at ≡ pos (l - at) = jump_offset-sub_ℕ l at hl ha ∙ ground arith in
    rw e (asbw_offset op (l - at) b k (subst (IsSigned 256) e (inside_i9 (jump_offset l at) s)))

-- JMPT and JMPF lose the sign of an offset; the jumps that compare do not.
pub condition_target :
    (op at l b : ℕ)
    → 0x29 ≤ op
    → op ≤ 0x30
    → l < 2 ^ 31
    → at < 2 ^ 31
    → outside_i9 (jump_offset l at) ≡ false
    → (0x2b ≤ op) ⊎ (at ≤ l)
    → jump_target at (make_asbw op (jump_offset l at) b) ≡ pos l
unfolding jump_target
condition_target op at l b h k hl ha s c =
    let no_jmp : (op == Opcode.jmp) ≡ false = ground arith in
    let lands = landing l at hl ha in
    rw (opcode_asbw op (jump_offset l at) b (omega arith), no_jmp)
      (elim (Bool-cases (op == 0x29 || op == 0x2a)) [
        | inl w ↦ rw w (
            ap (λ n. pos at +ℤ n) (flag_offset op at l b hl ha s (ground (arith, w)) (omega arith))
            ∙ lands)
        | inr w ↦ rw w (
            ap (λ n. pos at +ℤ n)
              (asbc_offset op (jump_offset l at) b (omega arith) (inside_i9 (jump_offset l at) s))
            ∙ lands)
      ])
