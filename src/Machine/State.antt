-- ===== src/Machine/State.antt =====
-- reference/shen-gc/zincvm.c: the state of `vm_exec_env`, its value stack and its environment.
--
-- A value stack is a list with its top first, an environment an array with its newest entry last.
-- Capacities, roots and the write barrier are the collector's and do not show in the values.
use fx_ui.Base.{
  ℕ, zero, suc, ◌+◌, ◌-◌, ◌%◌, ◌^◌, Bool, true, false, Option, none, some, List, [], ◌∷◌, ltb,
  if◌then◌else◌,
}
use fx_ui.Base.Bytes.{Bytes}
use fx_ui.Base.Int.{ℤ, pos, negsuc}
use fx_ui.Value.{Value, Values, empty, entry, Instr, Code, no_operand, size, fetch, append, code_at}
use fx_ui.Table.DefunTable.{DefunTable}

-- `CallFrame`
pub record Frame : Type 0 where
  pub code : Code
  pub pc : ℤ
  pub env : Values
  pub stack : List Value

-- `world` is the state outside the loop, which the primitives read and write.
pub record State (W : Type 0) : Type 0 where
  pub code : Code
  pub pc : ℤ
  pub env : Values
  pub stack : List Value
  pub acc : Value
  pub frames : List Frame
  pub world : W

-- How a call of `exec_primitive` ends: with 0 and the new `*acc` and stack, with -1, by `vm_throw`
-- with a message, or not at all: `exit`, `abort`, or behaviour that C leaves undefined.
pub data PrimResult (W : Type 0) : Type 0 where
  primed : Value → List Value → W → PrimResult W
  refused : Value → W → PrimResult W
  raised : Bytes → W → PrimResult W
  died : PrimResult W

-- What the loop uses of the rest of the program: the primitives, their names and the defun table,
-- and whether a catch frame is in place, and if so its `in_trap_error`.
pub record Host (W : Type 0) : Type 0 where
  pub exec_primitive : Bytes → Value → List Value → W → PrimResult W
  pub prim_names : List Bytes
  pub globals : W → DefunTable
  pub catching : Option Bool

-- Why the loop was left with `acc` as the result: a return from the outermost frame, the end of its
-- code, the instruction limit, the frame limit, or an error printed on stderr.
pub data Halt : Type 0 where
  returned fell_off limit_hit too_deep stuck : Halt

-- `uncaught` is `vm_throw` with no catch frame, which aborts; `exited` is an exit of the program or
-- behaviour that C leaves undefined.
pub data Outcome (W : Type 0) : Type 0 where
  running : State W → Outcome W
  done : Halt → Value → W → Outcome W
  thrown : Bytes → W → Outcome W
  uncaught : Bytes → Outcome W
  exited : Outcome W

-- The conversion of a `long` to `int`: the low 32 bits in two's complement.
unfoldable pub signed_32 : ℕ → ℤ
signed_32 n = if ltb n (2 ^ 31) then pos n else negsuc (2 ^ 32 - 1 - n)

unfoldable pub to_int : ℤ → ℤ
unfolding signed_32
to_int (pos n) = signed_32 (n % 2 ^ 32)
to_int (negsuc n) = signed_32 (2 ^ 32 - 1 - n % 2 ^ 32)

unfoldable pub next_pc : ℤ → ℤ
next_pc (pos n) = pos (n + 1)
next_pc (negsuc zero) = pos 0
next_pc (negsuc (suc n)) = negsuc n

-- The instruction at `pc`; `none` is `pc < 0 || pc >= cur_len`.
abbrev pub instr_at : Code → ℤ → Option Instr
instr_at c (pos n) = code_at c n
instr_at c (negsuc n) = none

abbrev pub or_zero : Option Value → Value
or_zero none = no_operand
or_zero (some v) = v

-- `env[env_len - 1 - n]`, and the number 0 out of range.
unfoldable pub lookup_env : ℤ → Values → Value
lookup_env (negsuc n) env = no_operand
lookup_env (pos n) env =
    if ltb n (size env) then or_zero (fetch env (size env - 1 - n)) else no_operand

unfoldable pub env_push : Values → Value → Values
env_push env v = append env (entry v empty)

-- `env_len--`
unfoldable pub env_pop : Values → Values
env_pop empty = empty
env_pop (entry v empty) = empty
env_pop (entry v (entry w vs)) = entry v (env_pop (entry w vs))

-- The top of the stack, or `acc` when the stack is empty, and the stack below it.
abbrev pub pop_or_acc : List Value → Value → Value × List Value
pop_or_acc [] acc = (acc, [])
pop_or_acc (v ∷ vs) acc = (v, vs)

unfoldable pub is_mark : Value → Bool
is_mark Value.mark = true
is_mark v = false

-- `if (stack.len > 0 && va_peek(&stack).tag == VAL_MARK) va_pop(&stack);`
unfoldable pub drop_mark : List Value → List Value
unfolding is_mark
drop_mark [] = []
drop_mark (v ∷ vs) = if is_mark v then vs else v ∷ vs

abbrev pub max_frames : ℕ
max_frames = 65536

abbrev pub symbol_name : Value → Bytes
symbol_name (Value.symbol s) = s
symbol_name v = []

-- `vm_throw`
abbrev pub throw : {W : Type 0} → Option Bool → Bytes → W → Outcome W
throw none msg w = Outcome.uncaught msg
throw (some trap) msg w = Outcome.thrown msg w

-- An error that is thrown inside the body of a `trap-error`, and printed elsewhere.
abbrev pub throw_in_trap : {W : Type 0} → Option Bool → Bytes → Value → W → Outcome W
throw_in_trap (some true) msg acc w = Outcome.thrown msg w
throw_in_trap _ msg acc w = Outcome.done Halt.stuck acc w

-- The caller's frame is taken up again; `stack` is the caller's with what is pushed on it.
abbrev pub resume : {W : Type 0} → State W → Frame → List Frame → List Value → State W
resume s f fs stack = record s { code = f.code; pc = f.pc; env = f.env; stack = stack; frames = fs }
