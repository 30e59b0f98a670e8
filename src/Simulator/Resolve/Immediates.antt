-- ===== src/Simulator/Resolve/Immediates.antt =====
-- The scrambled immediates of branches and jumps, against the offsets that an assembler encodes.
use ece375_project.Base.{ℕ, ◌+◌, ◌*◌, ◌/◌, ◌%◌, ◌^◌, ◌<◌, ◌≡◌, refl, bit_or, arith}
use ece375_project.Word.{shl64, add64, of_ℤ}
use ece375_project.Word.Fields.{bit_or_fields, bit_or_above, bit_or_below, bit_or-zero}
use ece375_project.Utilities.Extract.{extract_bits_lem}
use ece375_project.Utilities.Extend.{signed_at, sext64-eq-signed}
use ece375_project.Simulator.Instruction.{Instruction}
use ece375_project.Simulator.Resolve.{branch_imm, jal_imm, branch_target, jal_target}

-- Four fields of which the last lies between the first and the second.
or_four :
    (k l m a b c d : ℕ)
    → c * 2 < 2 ^ m
    → b * 2 ^ m + c * 2 < 2 ^ l
    → d * 2 ^ l + (b * 2 ^ m + c * 2) < 2 ^ k
    → bit_or (bit_or (bit_or (a * 2 ^ k) (b * 2 ^ m)) (c * 2)) (d * 2 ^ l)
      ≡ a * 2 ^ k + (d * 2 ^ l + (b * 2 ^ m + c * 2))
or_four k l m a b c d hc hb hd = ground (
  arith,
  bit_or_above k a (b * 2 ^ m) (omega arith),
  bit_or_fields k a 0 (b * 2 ^ m) (c * 2) (omega arith) (omega arith),
  bit_or_above m b (c * 2) hc,
  bit_or_fields k a 0 (b * 2 ^ m + c * 2) (d * 2 ^ l) (omega arith) (omega arith),
  bit_or_below l d (b * 2 ^ m + c * 2) hb,
  bit_or-zero a,
)

-- The fields that hold a branch offset of 13 bits.
pub record IsBranch (i : Instruction) (imm : ℕ) : Type 0 where
  pub high : i.funct7 ≡ imm / 2 ^ 12 * 2 ^ 6 + imm / 2 ^ 5 % 2 ^ 6
  pub low : i.rd ≡ imm / 2 % 2 ^ 4 * 2 + imm / 2 ^ 11 % 2
  pub even : imm % 2 ≡ 0
  pub small : imm < 2 ^ 13

module _ (i : Instruction) (imm : ℕ) (h : IsBranch i imm) where
  branch_fields :
      (shl64 (i.funct7 / 2 ^ 6 % 2) 12 ≡ imm / 2 ^ 12 * 2 ^ 12)
      × (shl64 (i.funct7 / 2 ^ 0 % 2 ^ 6) 5 ≡ imm / 2 ^ 5 % 2 ^ 6 * 2 ^ 5)
      × (shl64 (i.rd / 2 ^ 1 % 2 ^ 4) 1 ≡ imm / 2 % 2 ^ 4 * 2)
      × (shl64 (i.rd / 2 ^ 0 % 2) 11 ≡ imm / 2 ^ 11 % 2 * 2 ^ 11)
  branch_fields = (
    omega (arith, h.high, h.small),
    omega (arith, h.high, h.small),
    omega (arith, h.low),
    omega (arith, h.low),
  )

  branch_imm_lem : branch_imm i ≡ imm
  unfolding branch_imm
  branch_imm_lem =
      let (a, b, c, d) = branch_fields in
      rw
        (
          extract_bits_lem i.funct7 6 6,
          extract_bits_lem i.funct7 5 0,
          extract_bits_lem i.rd 4 1,
          extract_bits_lem i.rd 0 0,
          a,
          b,
          c,
          d,
        )
        (omega (
          arith,
          h.small,
          h.even,
          or_four 12 11 5 (imm / 2 ^ 12) (imm / 2 ^ 5 % 2 ^ 6) (imm / 2 % 2 ^ 4) (imm / 2 ^ 11 % 2)
              (omega arith) (omega arith) (omega arith),
        ))

  -- A branch whose fields hold an even offset of 13 bits has as its target its own address plus
  -- the signed offset.
  pub branch_target_lem : branch_target i ≡ add64 i.pc (of_ℤ (signed_at 12 imm))
  unfolding branch_target
  branch_target_lem =
      rw (branch_imm_lem, sext64-eq-signed 12 imm (omega arith) (omega (arith, h.small))) refl

-- Four fields of which the second and the third lie below the last, in the order of a jump.
or_jump :
    (a b c d : ℕ)
    → b < 2 ^ 10
    → c < 2
    → d < 2 ^ 8
    → bit_or (bit_or (bit_or (a * 2 ^ 20) (b * 2)) (c * 2 ^ 11)) (d * 2 ^ 12)
      ≡ a * 2 ^ 20 + (d * 2 ^ 12 + (c * 2 ^ 11 + b * 2))
or_jump a b c d hb hc hd = ground (
  arith,
  bit_or_above 20 a (b * 2) (omega arith),
  bit_or_fields 20 a 0 (b * 2) (c * 2 ^ 11) (omega arith) (omega arith),
  bit_or_below 11 c (b * 2) (omega arith),
  bit_or_fields 20 a 0 (c * 2 ^ 11 + b * 2) (d * 2 ^ 12) (omega arith) (omega arith),
  bit_or_below 12 d (c * 2 ^ 11 + b * 2) (omega arith),
  bit_or-zero a,
)

-- The upper bits of the word that hold a jump offset of 21 bits.
pub record IsJump (i : Instruction) (imm : ℕ) : Type 0 where
  pub upper :
      i.instruction / 2 ^ 12 % 2 ^ 20
      ≡ imm / 2 ^ 20 * 2 ^ 19
        + imm / 2 % 2 ^ 10 * 2 ^ 9
        + imm / 2 ^ 11 % 2 * 2 ^ 8
        + imm / 2 ^ 12 % 2 ^ 8
  pub even : imm % 2 ≡ 0
  pub small : imm < 2 ^ 21

module _ (i : Instruction) (imm : ℕ) (h : IsJump i imm) where
  abbrev word : ℕ
  word = i.instruction / 2 ^ 12 % 2 ^ 20

  jump_fields :
      (shl64 (word / 2 ^ 19 % 2) 20 ≡ imm / 2 ^ 20 * 2 ^ 20)
      × (shl64 (word / 2 ^ 9 % 2 ^ 10) 1 ≡ imm / 2 % 2 ^ 10 * 2)
      × (shl64 (word / 2 ^ 8 % 2) 11 ≡ imm / 2 ^ 11 % 2 * 2 ^ 11)
      × (shl64 (word / 2 ^ 0 % 2 ^ 8) 12 ≡ imm / 2 ^ 12 % 2 ^ 8 * 2 ^ 12)
  jump_fields = (
    omega (arith, h.upper, h.small),
    omega (arith, h.upper, h.small),
    omega (arith, h.upper, h.small),
    omega (arith, h.upper, h.small),
  )

  jal_imm_lem : jal_imm i ≡ imm
  unfolding jal_imm
  jal_imm_lem =
      let (a, b, c, d) = jump_fields in
      rw
        (
          extract_bits_lem i.instruction 31 12,
          extract_bits_lem word 19 19,
          extract_bits_lem word 18 9,
          extract_bits_lem word 8 8,
          extract_bits_lem word 7 0,
          a,
          b,
          c,
          d,
        )
        (omega (
          arith,
          h.small,
          h.even,
          or_jump (imm / 2 ^ 20) (imm / 2 % 2 ^ 10) (imm / 2 ^ 11 % 2) (imm / 2 ^ 12 % 2 ^ 8)
              (omega arith) (omega arith) (omega arith),
        ))

  -- A jump whose word holds an even offset of 21 bits has as its target its own address plus the
  -- signed offset.
  pub jal_target_lem : jal_target i ≡ add64 i.pc (of_ℤ (signed_at 20 imm))
  unfolding jal_target
  jal_target_lem =
      rw (jal_imm_lem, sext64-eq-signed 20 imm (omega arith) (omega (arith, h.small))) refl
