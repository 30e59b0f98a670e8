-- ===== src/Cycle/Refine/Halts.antt =====
-- How a halt leaves the pipeline.
use ece375_project.Base.{ℕ, suc, ◌≤◌, Bool, true, false, ◌≡◌, refl, ap, ◌∙◌, arith, if_both}
use ece375_project.Utilities.Codes.{Status}
use ece375_project.Simulator.Instruction.{Instruction}
use ece375_project.Simulator.Access.{sim_mem_access}
use ece375_project.Simulator.Machine.{Simulator, sim_id, sim_ex}
use ece375_project.Cycle.Forward.{load_use, forward_operands, must_wait}
use ece375_project.Cycle.Forward.Commits.{commit}
use ece375_project.Cycle.Step.{
  Core, marked, must_stall, resolve_branch, step_wb, step_mem, step_ex, step_if, advance,
  step_id_if, step,
}
use ece375_project.Cycle.Step.Roles.{roles, roles-ex, roles-marked, roles-forward_operands}
use ece375_project.Cycle.Step.Stalls.{mem_moves}
use ece375_project.Cycle.Step.Effects.{step-halt_iff}
use ece375_project.Cycle.Run.Loops.{cycles, cycles_halts, cycles_go_on}
use ece375_project.Cycle.Refine.{Arch, arch}
use ece375_project.Cycle.Refine.Stages.{late, late-eq}
use ece375_project.Cycle.Refine.Fetched.{arch-id}

-- ID and IF leave the later stages, the registers and the memory alone.
record Keeps (c c' : Core) : Type 0 where
  machine : arch c'.sim ≡ arch c.sim
  ex : c'.ex_inst ≡ c.ex_inst
  mem : c'.mem_inst ≡ c.mem_inst

advance-Keeps : (c : Core) (i : Instruction) → Keeps c (advance c i)
unfolding advance step_if
advance-Keeps c i =
    if_both (Keeps c) _ (record { machine = refl; ex = refl; mem = refl })
      (record { machine = refl; ex = refl; mem = refl })

step_id_if-Keeps : (stall : Bool) (c : Core) → Keeps c (step_id_if stall c)
unfolding step_id_if
step_id_if-Keeps true c = record { machine = refl; ex = refl; mem = refl }
step_id_if-Keeps false c =
    let c1 = record c { sim = (sim_id c.sim c.if_inst).0 } in
    let same = arch-id c.sim c.if_inst in
    if_both (Keeps c) (must_wait (sim_id c.sim c.if_inst).1 c.ex_inst c.mem_inst)
      (record { machine = same; ex = refl; mem = refl })
      (let k = advance-Keeps c1 (marked (resolve_branch c1 (sim_id c.sim c.if_inst).1)) in
        record { machine = k.machine ∙ same; ex = k.ex; mem = k.mem })

step_ex-Keeps :
    (stall : Bool) (c : Core)
    → (arch (step_ex stall c).sim ≡ arch c.sim) × ((step_ex stall c).mem_inst ≡ c.mem_inst)
unfolding step_ex
step_ex-Keeps true c = (refl, refl)
step_ex-Keeps false c = (refl, refl)

entering_ex : (c : Core) → roles (step_ex false c).ex_inst ≡ roles c.id_inst
unfolding step_ex
entering_ex c =
    let fed = forward_operands c.mem_inst c.wb_inst c.done_inst c.id_inst in
    roles-marked (sim_ex fed)
    ∙ roles-ex fed
    ∙ roles-forward_operands c.mem_inst c.wb_inst c.done_inst c.id_inst

-- What is in MEM and in EX after a cycle.
pub step-mem_roles : (c : Core) → roles (step c).0.mem_inst ≡ roles c.ex_inst
unfolding step
step-mem_roles c =
    let stall = must_stall c in
    ap roles
      ((step_id_if-Keeps stall (step_ex stall (late c))).mem ∙ (step_ex-Keeps stall (late c)).1)
    ∙ (mem_moves c).0

pub step-ex_roles : (c : Core) → must_stall c ≡ false → roles (step c).0.ex_inst ≡ roles c.id_inst
unfolding step
step-ex_roles c go = rw go (
    ap roles (step_id_if-Keeps false (step_ex false (late c))).ex
    ∙ entering_ex (late c)
    ∙ (unfold step_mem step_wb in refl))

-- What a cycle does to the registers and the memory.
pub arch-step :
    (c : Core)
    → load_use c.ex_inst c.mem_inst ≡ false
    → arch (step c).0.sim ≡ record {
      registers = commit c.mem_inst c.sim.registers;
      memory = (sim_mem_access c.ex_inst c.sim.memory).1;
    }
unfolding step
arch-step c apart =
    let stall = must_stall c in
    (step_id_if-Keeps stall (step_ex stall (late c))).machine
    ∙ (step_ex-Keeps stall (late c)).0
    ∙ ap (λ (c : Core). arch c.sim) (late-eq c apart)

-- Within some cycles, the pipeline reports a halt and leaves these registers and this memory.
pub record Ends (limit : ℕ) (c : Core) (a : Arch) : Type 0 where
  pub taken : ℕ
  pub within : taken ≤ limit
  pub core : Core
  pub halts : cycles taken c ≡ (Status.halt, core)
  pub machine : arch core.sim ≡ a

pub Ends-later :
    (limit : ℕ) (c : Core) (a : Arch)
    → c.mem_inst.is_halt ≡ false
    → Ends limit (step c).0 a
    → Ends (suc limit) c a
Ends-later limit c a off e = record {
  taken = suc e.taken;
  within = omega (arith, e.within);
  core = e.core;
  halts =
      cycles_go_on e.taken c (λ h. absurd (ground (arith, (step-halt_iff c).0 h, off))) ∙ e.halts;
  machine = e.machine;
}

-- An instruction that leaves registers and memory as they are.
pub record IsIdle (i : Instruction) : Type 0 where
  pub no_load : i.reads_mem ≡ false
  pub no_store : i.writes_mem ≡ false
  pub no_write : i.writes_rd ≡ false

pub IsIdle-roles : (i j : Instruction) → roles j ≡ roles i → IsIdle i → IsIdle j
IsIdle-roles i j e d = ground (arith, d)

idle_arch :
    (mem ex : Instruction) (s : Simulator)
    → IsIdle mem
    → ex.writes_mem ≡ false
    → let a : Arch = record {
      registers = commit mem s.registers;
      memory = (sim_mem_access ex s.memory).1;
    } in
      a ≡ arch s
unfolding sim_mem_access
idle_arch mem ex s i w = ground (arith, i.no_write)

-- A halt in MEM.
pub mem-Ends :
    (c : Core)
    → c.mem_inst.is_halt ≡ true
    → IsIdle c.mem_inst
    → c.ex_inst.writes_mem ≡ false
    → Ends 1 c (arch c.sim)
mem-Ends c halt idle w = record {
  taken = 1;
  within = omega arith;
  core = (step c).0;
  halts = cycles_halts 0 c ((step-halt_iff c).1 halt);
  machine =
      arch-step c (unfold load_use in ground (arith, idle.no_load))
      ∙ idle_arch c.mem_inst c.ex_inst c.sim idle w;
}
