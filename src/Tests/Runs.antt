-- ===== src/Tests/Runs.antt =====
-- Runs of the machine.
use fx_ui.Base.{ℕ, ◌^◌, ◌≡◌, ◌↔◌, refl, false, none, some, List, [], ◌∷◌, arith}
use fx_ui.Base.Int.{pos}
use fx_ui.Value.{Value, empty, entry, Code, Opcode, instr, no_operand, stop, step}
use fx_ui.Table.DefunTable.{DefunTable}
use fx_ui.Machine.State.{
  Frame, State, Host, Halt, Outcome, PrimResult, running, done, max_frames, next_pc, lookup_env,
  is_mark,
}
use fx_ui.Machine.Ops.{op_access, op_return, op_pushmark}
use fx_ui.Machine.Calls.{collect, args, max_args}
use fx_ui.Machine.Loop.{execute, dispatch, start, vm_exec_env}
use fx_ui.Machine.Bounds.{Reach, here, further, FramesFit, Reach-FramesFit}
use fx_ui.Machine.Bounds.Rounds.{IsFinal, vm_exec_env_total, vm_exec_env-limit}
use fx_ui.Machine.Collect.{Splits, collect_iff}
use fx_ui.Machine.Locality.{under, Agrees, execute-Agrees}
use fx_ui.Machine.Locality.Calling.{returns, goes_on, op_apply_lem}

abbrev no_globals : DefunTable
no_globals = record {
  runtime = false;
  bootstrap = [];
  slots = [];
  table_size = 0;
  buckets = 0;
  displacement = [];
  table_cap = 0;
  table_used = 0;
  marks = [];
}

-- No primitive is known; the world is a number.
abbrev host : Host ℕ
host = record {
  exec_primitive = λ name acc stack w. PrimResult.refused acc w;
  prim_names = [];
  globals = λ w. no_globals;
  catching = none;
}

abbrev seven : Value
seven = Value.number (pos 7)

-- `a[1:n]0 v`: the body of the identity.
abbrev identity : Code
identity =
    step (instr Opcode.access no_operand stop (pos 0))
      (step (instr Opcode.return no_operand stop (pos 0)) stop)

abbrev apply_only : Code
apply_only = step (instr Opcode.apply no_operand stop (pos 0)) stop

-- The identity on 7, above a mark and a value below.
abbrev arguments : List Value
arguments = seven ∷ Value.mark ∷ Value.nil ∷ []

abbrev applying : State ℕ
applying = record {
  code = apply_only;
  pc = pos 0;
  env = empty;
  stack = Value.lambda identity empty ∷ arguments;
  acc = Value.nil;
  frames = [];
  world = 0;
}

op_apply_lem_example :
    Reach host applying
      (record applying { pc = pos 1; stack = seven ∷ Value.nil ∷ []; acc = seven; world = 0 })
unfolding execute dispatch collect is_mark op_access op_return lookup_env next_pc
    fx_ui.Machine.State.to_int fx_ui.Machine.State.signed_32
op_apply_lem_example =
    op_apply_lem host 1 applying no_operand stop (pos 0) identity empty (entry seven empty)
      arguments (Value.nil ∷ []) Value.mark seven 0 refl refl refl
      (goes_on refl (omega arith) (returns refl (omega arith))) (omega arith)

vm_exec_env_total_example :
    (o : Outcome ℕ) × (vm_exec_env host 1000 1000 identity empty 0 ≡ some o) × IsFinal o
vm_exec_env_total_example = vm_exec_env_total host 1000 identity empty 0 (omega arith) (omega arith)

vm_exec_env-limit_example :
    vm_exec_env host (2 ^ 31) 100 identity empty 0
    ≡ vm_exec_env host 5000000000 100 identity empty 0
vm_exec_env-limit_example =
    vm_exec_env-limit host (2 ^ 31) 5000000000 100 identity empty 0 (omega arith) (omega arith)

abbrev pushing : State ℕ
pushing = start (step (instr Opcode.pushmark no_operand stop (pos 0)) stop) empty 0

abbrev pushed : State ℕ
pushed = record pushing { stack = Value.mark ∷ []; pc = pos 1 }

Reach-FramesFit_example : FramesFit pushed
unfolding execute dispatch op_pushmark next_pc start
Reach-FramesFit_example =
    Reach-FramesFit host {s = pushing} {t = pushed} (further here refl) (omega arith)

abbrev bottom : Frame
bottom = record { code = stop; pc = pos 0; env = empty; stack = [] }

execute-Agrees_example :
    Agrees bottom [] (execute host pushing) (execute host (under bottom [] pushing))
unfolding start
execute-Agrees_example = execute-Agrees host bottom [] pushing (omega arith)

collect_iff_example :
    (collect max_args arguments ≡ args (entry seven empty) (Value.mark ∷ Value.nil ∷ []))
    ↔ Splits max_args arguments (entry seven empty) (Value.mark ∷ Value.nil ∷ [])
collect_iff_example =
    collect_iff max_args arguments (entry seven empty) (Value.mark ∷ Value.nil ∷ [])
