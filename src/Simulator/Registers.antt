-- ===== src/Simulator/Registers.antt =====
-- The registers by name, the first member of the union in src/simulator.h, and
-- `dumpRegisterState` of src/RegisterInfo.h.
use Prim.Native.String.{String}
use ece375_project.Base.{ℕ, Bool, List, [], ◌∷◌, if◌then◌else◌, get_or}
use ece375_project.Utilities.Codes.{Status}

pub record RegisterInfo : Type 0 where
  pub zero_register : ℕ
  pub ra : ℕ
  pub sp : ℕ
  pub gp : ℕ
  pub tp : ℕ
  pub t0 : ℕ
  pub t1 : ℕ
  pub t2 : ℕ
  pub s0 : ℕ
  pub s1 : ℕ
  pub a0 : ℕ
  pub a1 : ℕ
  pub a2 : ℕ
  pub a3 : ℕ
  pub a4 : ℕ
  pub a5 : ℕ
  pub a6 : ℕ
  pub a7 : ℕ
  pub s2 : ℕ
  pub s3 : ℕ
  pub s4 : ℕ
  pub s5 : ℕ
  pub s6 : ℕ
  pub s7 : ℕ
  pub s8 : ℕ
  pub s9 : ℕ
  pub s10 : ℕ
  pub s11 : ℕ
  pub t3 : ℕ
  pub t4 : ℕ
  pub t5 : ℕ
  pub t6 : ℕ

-- The other member of the union holds the same words, by number.
unfoldable pub register_info : List ℕ → RegisterInfo
register_info registers = record {
  zero_register = get_or registers 0 0;
  ra = get_or registers 1 0;
  sp = get_or registers 2 0;
  gp = get_or registers 3 0;
  tp = get_or registers 4 0;
  t0 = get_or registers 5 0;
  t1 = get_or registers 6 0;
  t2 = get_or registers 7 0;
  s0 = get_or registers 8 0;
  s1 = get_or registers 9 0;
  a0 = get_or registers 10 0;
  a1 = get_or registers 11 0;
  a2 = get_or registers 12 0;
  a3 = get_or registers 13 0;
  a4 = get_or registers 14 0;
  a5 = get_or registers 15 0;
  a6 = get_or registers 16 0;
  a7 = get_or registers 17 0;
  s2 = get_or registers 18 0;
  s3 = get_or registers 19 0;
  s4 = get_or registers 20 0;
  s5 = get_or registers 21 0;
  s6 = get_or registers 22 0;
  s7 = get_or registers 23 0;
  s8 = get_or registers 24 0;
  s9 = get_or registers 25 0;
  s10 = get_or registers 26 0;
  s11 = get_or registers 27 0;
  t3 = get_or registers 28 0;
  t4 = get_or registers 29 0;
  t5 = get_or registers 30 0;
  t6 = get_or registers 31 0;
}

-- A line of text, or `$`, a name, ` = 0x` and a value in at least eight digits.
pub data DumpLine : Type 0 where
  heading : String → DumpLine
  register : String → ℕ → DumpLine

unfoldable pub dump_register_state : Bool → RegisterInfo → Status × List DumpLine
dump_register_state opened reg =
    if opened
    then (
      Status.success,
      DumpLine.heading "---------------------"
          ∷ DumpLine.heading "Begin Register Values"
          ∷ DumpLine.heading "---------------------"
          ∷ DumpLine.register "ra" reg.ra
          ∷ DumpLine.register "sp" reg.sp
          ∷ DumpLine.register "gp" reg.gp
          ∷ DumpLine.register "tp" reg.tp
          ∷ DumpLine.heading ""
          ∷ DumpLine.register "t0" reg.t0
          ∷ DumpLine.register "t1" reg.t1
          ∷ DumpLine.register "t2" reg.t2
          ∷ DumpLine.heading ""
          ∷ DumpLine.register "s0" reg.s0
          ∷ DumpLine.register "s1" reg.s1
          ∷ DumpLine.heading ""
          ∷ DumpLine.register "a0" reg.a0
          ∷ DumpLine.register "a1" reg.a1
          ∷ DumpLine.register "a2" reg.a2
          ∷ DumpLine.register "a3" reg.a3
          ∷ DumpLine.register "a4" reg.a4
          ∷ DumpLine.register "a5" reg.a5
          ∷ DumpLine.register "a6" reg.a6
          ∷ DumpLine.register "a7" reg.a7
          ∷ DumpLine.heading ""
          ∷ DumpLine.register "s2" reg.s2
          ∷ DumpLine.register "s3" reg.s3
          ∷ DumpLine.register "s4" reg.s4
          ∷ DumpLine.register "s5" reg.s5
          ∷ DumpLine.register "s6" reg.s6
          ∷ DumpLine.register "s7" reg.s7
          ∷ DumpLine.register "s8" reg.s8
          ∷ DumpLine.register "s9" reg.s9
          ∷ DumpLine.register "s10" reg.s10
          ∷ DumpLine.register "s11" reg.s11
          ∷ DumpLine.heading ""
          ∷ DumpLine.register "t3" reg.t3
          ∷ DumpLine.register "t4" reg.t4
          ∷ DumpLine.register "t5" reg.t5
          ∷ DumpLine.register "t6" reg.t6
          ∷ DumpLine.heading "---------------------"
          ∷ DumpLine.heading "End Register Values"
          ∷ DumpLine.heading "---------------------"
          ∷ [],
    )
    else (Status.error, [])
