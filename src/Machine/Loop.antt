-- ===== src/Machine/Loop.antt =====
-- reference/shen-gc/zincvm.c: the loop of `vm_exec_env`.
use fx_ui.Base.{ℕ, zero, suc, ◌+◌, ◌^◌, Option, none, some, List, [], ◌∷◌, leb, if◌then◌else◌}
use fx_ui.Base.Int.{pos}
use fx_ui.Value.{Value, Values, Instr, Code, Opcode, instr}
use fx_ui.Machine.State.{Frame, State, Host, Halt, Outcome, running, done, instr_at, resume}
use fx_ui.Machine.Ops.{
  load, op_prim, op_pushmark, op_grab, op_return, op_access, op_global, op_let, op_endlet, op_jmp,
  op_jmpf, op_cur,
}
use fx_ui.Machine.Calls.{op_apply, op_appterm}

-- `instr_count` is an `int`: the increment that would give this number is undefined.
abbrev pub int_end : ℕ
int_end = 2 ^ 31

module _ {W : Type 0} where
  -- The switch.
  unfoldable pub dispatch : Host W → Instr → State W → Outcome W
  dispatch h (instr Opcode.num_op operand code target) s = load operand s
  dispatch h (instr Opcode.str_op operand code target) s = load operand s
  dispatch h (instr Opcode.sym_op operand code target) s = load operand s
  dispatch h (instr Opcode.bool_op operand code target) s = load operand s
  dispatch h (instr Opcode.prim_op operand code target) s = op_prim h operand s
  dispatch h (instr Opcode.pushmark operand code target) s = op_pushmark s
  dispatch h (instr Opcode.grab operand code target) s = op_grab s
  dispatch h (instr Opcode.apply operand code target) s = op_apply h s
  dispatch h (instr Opcode.return operand code target) s = op_return s
  dispatch h (instr Opcode.access operand code target) s = op_access operand target s
  dispatch h (instr Opcode.global operand code target) s = op_global h operand s
  dispatch h (instr Opcode.let_op operand code target) s = op_let s
  dispatch h (instr Opcode.endlet operand code target) s = op_endlet s
  dispatch h (instr Opcode.jmp operand code target) s = op_jmp target s
  dispatch h (instr Opcode.jmpf operand code target) s = op_jmpf target s
  dispatch h (instr Opcode.cur operand code target) s = op_cur code s
  dispatch h (instr Opcode.appterm operand code target) s = op_appterm h s
  dispatch h (instr Opcode.unknown operand code target) s = done Halt.stuck s.acc s.world

  -- Past the end of its code a body goes back to the caller and pushes nothing.
  abbrev pub fall_off : State W → List Frame → Outcome W
  fall_off s [] = done Halt.fell_off s.acc s.world
  fall_off s (f ∷ fs) = running (resume s f fs f.stack)

  abbrev pub fetched : Host W → State W → Option Instr → Outcome W
  fetched h s none = fall_off s s.frames
  fetched h s (some i) = dispatch h i s

  -- One round of the loop, after the test of the instruction count.
  unfoldable pub execute : Host W → State W → Outcome W
  execute h s = fetched h s (instr_at s.code s.pc)

  abbrev pub next : (State W → Option (Outcome W)) → Outcome W → Option (Outcome W)
  next rest (running s) = rest s
  next rest out = some out

  -- The loop, with `fuel` rounds: `none` is a run that has not ended by then. `count` is
  -- `instr_count` before the round, and its overflow is undefined.
  unfoldable pub run : Host W → ℕ → ℕ → ℕ → State W → Option (Outcome W)
  run h limit zero count s = none
  run h limit (suc fuel) count s =
      let rest = next (run h limit fuel (count + 1)) (execute h s) in
      if leb int_end (count + 1)
      then some Outcome.exited
      else if leb limit (count + 1)
      then some (done Halt.limit_hit s.acc s.world)
      else rest

  -- The state in which `vm_exec_env` enters the loop.
  unfoldable pub start : Code → Values → W → State W
  start code env w = record {
    code = code;
    pc = pos 0;
    env = env;
    stack = [];
    acc = Value.nil;
    frames = [];
    world = w;
  }

  unfoldable pub vm_exec_env : Host W → ℕ → ℕ → Code → Values → W → Option (Outcome W)
  vm_exec_env h limit fuel code env w = run h limit fuel 0 (start code env w)
