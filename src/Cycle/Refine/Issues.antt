-- ===== src/Cycle/Refine/Issues.antt =====
-- What ID hands on, against the functional simulator.
use ece375_project.Base.{
  Bool, ◌≢◌, ℕ, ◌<◌, true, false, ◌≡◌, refl, ap, ◌∙◌, sym, arith, ◌⊎◌, inl, inr, not, ◌==◌,
}
use ece375_project.Word.{add64}
use ece375_project.Utilities.Codes.{StageStatus}
use ece375_project.MemoryStore.{MemoryStore}
use ece375_project.Simulator.Instruction.{Instruction}
use ece375_project.Simulator.Decode.{sim_decode}
use ece375_project.Simulator.Decode.Flags.{IsDecoded}
use ece375_project.Simulator.Machine.{Simulator, sim_fetch, sim_if, sim_id}
use ece375_project.Funct.{Funct, run_one}
use ece375_project.Cycle.Forward.{nop, resolves_in_id, must_wait}
use ece375_project.Cycle.Step.{Core, advance}
use ece375_project.Cycle.Step.Roles.{roles, roles-id}
use ece375_project.Cycle.Refine.{arch, execute}
use ece375_project.Cycle.Refine.Fetched.{next_pc-instruction}
use ece375_project.Cycle.Refine.Issue.{
  issued, roles-issued, sim_decode-IsKnown, issued-IsKnown, issued-IsFresh, execute-issued,
  execute-run_one, decoded_nop-IsKnown, execute-decoded_nop, nop_passes, IsBubble,
  decoded_nop-IsBubble,
}
use ece375_project.Cycle.Refine.Tracking.{IsKnown, IsFresh, next_pc-resolve_branch}
use ece375_project.Cycle.Refine.Steps.{IsTracking, IsReady, IsRegular, backed}
use ece375_project.Cycle.Refine.Rank.{rank, rank_bubble}
use ece375_project.Cycle.Refine.Fronts.{
  IsNext, IsNext-IsFront, IsNext-far, IsNext-near, advanced, sim_id-sim, sim_if-IsRaw, resolvable,
}

next_pc-run_one : (f : Funct) → (sim_id f.sim (sim_if f.sim f.pc)).1.next_pc ≡ (run_one f).0.pc
unfolding run_one
next_pc-run_one f = sym (next_pc-instruction f.sim f.pc)

module _ (code : ℕ → Type 0) (text : MemoryStore) where
  -- The core once the cycle is over.
  abbrev pub ended : Core → Core
  ended c = record c { done_inst = c.wb_inst }

  -- A cycle that takes no instruction of the program, and one that takes one.
  pub record IsWaiting (held : Bool) (before : ℕ) (c' : Core) (f : Funct) : Type 0 where
    pub follows : IsTracking code text c' f
    pub sooner : rank c'.if_inst c'.id_inst c'.ex_inst < before
    pub bubble : held ≡ false → IsBubble c'.id_inst

  pub record IsIssuing (c' : Core) (f : Funct) : Type 0 where
    pub follows : IsTracking code text c' (run_one f).0
    pub taken : roles c'.id_inst ≡ roles (sim_decode (sim_if f.sim f.pc))
    pub jumps : (run_one f).0.pc ≢ add64 f.pc 4 → c'.if_inst ≡ nop StageStatus.bubble

  numbered :
      (s : Simulator) (n : ℕ) (mem ex wb done : Instruction) (f : Funct)
      → IsReady code text s mem ex wb done f
      → IsReady code text (record s { din = n }) mem ex wb done f
  numbered s n mem ex wb done f r = record {
    moved = r.moved;
    before = r.before;
    written = r.written;
    sized = r.sized;
    apart = r.apart;
    held = r.held;
    kept = r.kept;
    kept_ex = r.kept_ex;
  }

  module _ (c : Core) (f : Funct)
      (r : IsReady code text c.sim c.mem_inst c.ex_inst c.wb_inst c.done_inst f) where
    abbrev pub s1 : Simulator
    s1 = (sim_id c.sim c.if_inst).0

    pub IsReady-id : IsReady code text s1 c.mem_inst c.ex_inst c.wb_inst c.done_inst f
    IsReady-id = rw (sim_id-sim c.sim c.if_inst) (numbered c.sim _ _ _ _ _ f r)

    -- ID and IF, once the instruction to hand on and the next PC are known.
    passed :
        (i : Instruction) (f' : Funct) (Q : Core → Type 0)
        → IsRegular code text f'
        → IsKnown i
        → IsFresh c.sim.registers i
        → execute i (arch f.sim) ≡ arch f'.sim
        → ((i.next_pc ≡ f'.pc) × (c.pc ≡ add64 c.if_inst.pc 4))
          ⊎ ((i.next_pc ≡ add64 c.if_inst.pc 4) × (c.pc ≡ f'.pc))
        → ((pc : ℕ) (fetched : Instruction)
            → IsNext (not (i.next_pc == add64 c.if_inst.pc 4)) fetched pc f'
            → Q (ended (record c { sim = s1; id_inst = i; if_inst = fetched; pc = pc })))
        → (let c' = ended (advance (record c { sim = s1 }) i) in IsTracking code text c' f' × Q c')
    unfolding sim_if
    passed i f' Q reg k fr e n q =
        advanced (record c { sim = s1 }) i f' n
          (IsReady-id.kept f'.pc reg.inside ∙ sym (reg.keeps f'.pc reg.inside))
          (λ (c' : Core). IsTracking code text (ended c') f' × Q (ended c'))
          (λ pc fetched next. (
            (record {
              back =
                  backed code text s1 c.mem_inst c.ex_inst c.wb_inst c.done_inst i f f' IsReady-id k
                    (rw (sim_id-sim c.sim c.if_inst) fr) e;
              front = IsNext-IsFront _ fetched pc f' next;
            }),
            q pc fetched next,
          ))

    -- A word of the program goes from ID to EX, and the functional simulator takes it too.
    pub issues_word :
        (c.if_inst ≡ sim_if f.sim f.pc) × (c.pc ≡ add64 f.pc 4)
        → IsRegular code text f
        → IsRegular code text (run_one f).0
        → must_wait (sim_id c.sim c.if_inst).1 c.ex_inst c.mem_inst ≡ false
        → IsIssuing
            (ended
              (advance (record c { sim = s1 }) (issued (record c { sim = s1 }) c.sim c.if_inst)))
            f
    issues_word (word, at) reg reg' go =
        let c1 = record c { sim = s1 } in
        let i = issued c1 c.sim c.if_inst in
        let known : IsKnown (sim_decode c.if_inst) =
          rw word (sim_decode-IsKnown (sim_if f.sim f.pc) (sim_if-IsRaw f.sim f.pc)) in
        let legal' : resolves_in_id (sim_decode c.if_inst) ≡ true
            → (sim_decode c.if_inst).is_legal ≡ true =
          rw word reg.legal in
        let legal : resolves_in_id (sim_id c.sim c.if_inst).1 ≡ true
            → (sim_id c.sim c.if_inst).1.is_legal ≡ true =
          unfold resolves_in_id in ground (arith, legal', roles-id c.sim c.if_inst) in
        let next : i.next_pc ≡ (run_one f).0.pc =
          next_pc-resolve_branch c1 c.sim f.sim c.if_inst known.classed
            (λ on. resolvable code text c f r c.sim c.if_inst refl known go on (legal on))
          ∙ rw word (next_pc-run_one f) in
        let here : add64 c.if_inst.pc 4 ≡ add64 f.pc 4 =
          rw word (unfold sim_if sim_fetch in refl) in
        let Q = λ (c' : Core).
          (roles c'.id_inst ≡ roles (sim_decode (sim_if f.sim f.pc)))
          × ((run_one f).0.pc ≢ add64 f.pc 4 → c'.if_inst ≡ nop StageStatus.bubble) in
        let p =
          passed i (run_one f).0 Q reg' (issued-IsKnown c1 c.sim c.if_inst known)
            (issued-IsFresh c1 c.sim c.if_inst known)
            (execute-issued c1 c.sim c.if_inst (arch f.sim) known ∙ rw word (execute-run_one f))
            (inl (next, at ∙ sym here))
            (λ pc fetched n. (
              roles-issued c1 c.sim c.if_inst ∙ ap (λ (x : Instruction). roles (sim_decode x)) word,
              (λ far.
                  IsNext-far i.next_pc (add64 c.if_inst.pc 4) fetched pc (run_one f).0
                    (λ e. far (sym next ∙ e ∙ here)) n),
            )) in
        record { follows = p.0; taken = p.1.0; jumps = p.1.1 }

    -- A bubble goes from ID to EX.
    pub issues_bubble :
        (st : StageStatus) (id ex : Instruction)
        → c.if_inst ≡ nop st
        → c.pc ≡ f.pc
        → IsRegular code text f
        → IsDecoded id
        → roles c.ex_inst ≡ roles id
        → IsWaiting false
            (rank c.if_inst id ex)
            (ended
              (advance (record c { sim = s1 }) (issued (record c { sim = s1 }) c.sim c.if_inst)))
            f
    issues_bubble st id ex word at reg d moved =
        let c1 = record c { sim = s1 } in
        let i = issued c1 c.sim c.if_inst in
        let known : IsKnown (sim_decode c.if_inst) = rw word (decoded_nop-IsKnown st) in
        let idle =
          decoded_nop-IsBubble st i (
            roles-issued c1 c.sim c.if_inst
            ∙ ap (λ (x : Instruction). roles (sim_decode x)) word) in
        let no_branch : ¬ (resolves_in_id (sim_id c.sim c.if_inst).1 ≡ true) =
          rw (word, (nop_passes c.sim st).0) (λ h. absurd (ground arith)) in
        let next : i.next_pc ≡ add64 c.if_inst.pc 4 =
          next_pc-resolve_branch c1 c.sim c.sim c.if_inst known.classed
            (λ on. absurd (no_branch on))
          ∙ rw word (nop_passes c.sim st).1 in
        let Q = λ (c' : Core).
          (rank c'.if_inst c'.id_inst c'.ex_inst < rank c.if_inst id ex) × IsBubble c'.id_inst in
        let p =
          passed i f Q reg (issued-IsKnown c1 c.sim c.if_inst known)
            (issued-IsFresh c1 c.sim c.if_inst known)
            (execute-issued c1 c.sim c.if_inst (arch f.sim) known
              ∙ rw word (execute-decoded_nop st (arch f.sim)))
            (inr (next, at))
            (λ pc fetched n. (
              rank_bubble c.if_inst fetched id i ex c.ex_inst (rw word (unfold nop in refl))
                  (IsNext-near i.next_pc (add64 c.if_inst.pc 4) fetched pc f next n) d moved
                  (idle.nop, idle.first, idle.second),
              idle,
            )) in
        record { follows = p.0; sooner = p.1.0; bubble = λ h. p.1.1 }
