-- ===== src/Tests/Registers.antt =====
-- What the registers are dumped as.
use ece375_project.Base.{◌≡◌, refl, true, false, List, ℕ, [], ◌∷◌}
use ece375_project.Utilities.Codes.{Status}
use ece375_project.Simulator.Registers.{register_info, DumpLine, dump_register_state}

abbrev numbered : List ℕ
numbered =
    100 ∷ 101 ∷ 102 ∷ 103 ∷ 104 ∷ 105 ∷ 106 ∷ 107 ∷ 108 ∷ 109 ∷ 110 ∷ 111 ∷ 112 ∷ 113 ∷ 114 ∷ 115
    ∷ 116 ∷ 117 ∷ 118 ∷ 119 ∷ 120 ∷ 121 ∷ 122 ∷ 123 ∷ 124 ∷ 125 ∷ 126 ∷ 127 ∷ 128 ∷ 129 ∷ 130 ∷ 131
    ∷ []

-- Every register but the first, under its name and in the order of the ABI's groups.
numbered_dump : dump_register_state true (register_info numbered) ≡ (
  Status.success,
  DumpLine.heading "---------------------"
      ∷ DumpLine.heading "Begin Register Values"
      ∷ DumpLine.heading "---------------------"
      ∷ DumpLine.register "ra" 101
      ∷ DumpLine.register "sp" 102
      ∷ DumpLine.register "gp" 103
      ∷ DumpLine.register "tp" 104
      ∷ DumpLine.heading ""
      ∷ DumpLine.register "t0" 105
      ∷ DumpLine.register "t1" 106
      ∷ DumpLine.register "t2" 107
      ∷ DumpLine.heading ""
      ∷ DumpLine.register "s0" 108
      ∷ DumpLine.register "s1" 109
      ∷ DumpLine.heading ""
      ∷ DumpLine.register "a0" 110
      ∷ DumpLine.register "a1" 111
      ∷ DumpLine.register "a2" 112
      ∷ DumpLine.register "a3" 113
      ∷ DumpLine.register "a4" 114
      ∷ DumpLine.register "a5" 115
      ∷ DumpLine.register "a6" 116
      ∷ DumpLine.register "a7" 117
      ∷ DumpLine.heading ""
      ∷ DumpLine.register "s2" 118
      ∷ DumpLine.register "s3" 119
      ∷ DumpLine.register "s4" 120
      ∷ DumpLine.register "s5" 121
      ∷ DumpLine.register "s6" 122
      ∷ DumpLine.register "s7" 123
      ∷ DumpLine.register "s8" 124
      ∷ DumpLine.register "s9" 125
      ∷ DumpLine.register "s10" 126
      ∷ DumpLine.register "s11" 127
      ∷ DumpLine.heading ""
      ∷ DumpLine.register "t3" 128
      ∷ DumpLine.register "t4" 129
      ∷ DumpLine.register "t5" 130
      ∷ DumpLine.register "t6" 131
      ∷ DumpLine.heading "---------------------"
      ∷ DumpLine.heading "End Register Values"
      ∷ DumpLine.heading "---------------------"
      ∷ [],
)
unfolding dump_register_state register_info
numbered_dump = refl

unopened_registers : dump_register_state false (register_info numbered) ≡ (Status.error, [])
unfolding dump_register_state
unopened_registers = refl
