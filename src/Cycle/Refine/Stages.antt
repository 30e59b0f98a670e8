-- ===== src/Cycle/Refine/Stages.antt =====
-- The stages WB, MEM and EX of a cycle as effects on registers and memory.
use ece375_project.Base.{◌+◌, false, ◌≡◌, refl, arith, Bool-cases, inl, inr}
use ece375_project.Word.{u64}
use ece375_project.Utilities.Codes.{StageStatus}
use ece375_project.Simulator.Instruction.{Instruction}
use ece375_project.Simulator.Access.{sim_mem_access}
use ece375_project.Simulator.Machine.{Simulator, sim_mem, sim_wb}
use ece375_project.Cycle.Forward.{load_use, forward_store}
use ece375_project.Cycle.Forward.Commits.{commit}
use ece375_project.Cycle.Step.{Core, marked, step_wb, step_mem}

pub sim_wb-commit :
    (s : Simulator) (i : Instruction)
    → sim_wb s i ≡ (record s { registers = commit i s.registers }, i)
unfolding sim_wb
sim_wb-commit s i = elim (Bool-cases i.writes_rd) [ inl on ↦ rw on refl | inr off ↦ rw off refl ]

pub sim_mem-access :
    (s : Simulator) (i : Instruction)
    → sim_mem s i
      ≡ (record s { memory = (sim_mem_access i s.memory).1 }, (sim_mem_access i s.memory).0)
unfolding sim_mem sim_mem_access
sim_mem-access s i = elim (Bool-cases i.reads_mem) [
  | inl l ↦ rw l refl
  | inr nl ↦ elim (Bool-cases i.writes_mem) [ inl w ↦ rw (nl, w) refl | inr nw ↦ rw (nl, nw) refl ]
]

-- The load-to-store forwarding finds nothing to forward if no load is followed by a user of it.
pub forward_store_idle :
    (mem ex : Instruction)
    → load_use ex mem ≡ false
    → forward_store (record mem { status = StageStatus.normal }) ex ≡ ex
unfolding load_use forward_store
forward_store_idle mem ex h = ground arith

-- WB and MEM of a cycle.
abbrev pub late : Core → Core
late c = step_mem (step_wb (record c { cycle_count = u64 (c.cycle_count + 1) }))

module _ (c : Core) (apart : load_use c.ex_inst c.mem_inst ≡ false) where
  pub late-eq : late c ≡ record c {
    cycle_count = u64 (c.cycle_count + 1);
    sim = record c.sim {
      registers = commit c.mem_inst c.sim.registers;
      memory = (sim_mem_access c.ex_inst c.sim.memory).1;
    };
    wb_inst = record c.mem_inst { status = StageStatus.normal };
    mem_inst = marked (sim_mem_access c.ex_inst c.sim.memory).0;
  }
  unfolding step_mem step_wb
  late-eq =
      rw
        (
          sim_wb-commit c.sim c.mem_inst,
          forward_store_idle c.mem_inst c.ex_inst apart,
          sim_mem-access _ c.ex_inst,
        )
        refl
