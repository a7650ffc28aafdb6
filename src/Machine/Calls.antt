-- ===== src/Machine/Calls.antt =====
-- reference/shen-gc/zincvm.c: `OP_APPLY` and `OP_APPTERM` of `vm_exec_env`.
use fx_ui.Base.{ℕ, zero, suc, List, [], ◌∷◌, leb, if◌then◌else◌, length}
use fx_ui.Base.Bytes.{Bytes, codes}
use fx_ui.Base.Int.{pos}
use fx_ui.Value.{Value, Values, empty, entry, Code, append}
use fx_ui.Machine.State.{
  State, Host, Halt, Outcome, running, done, next_pc, is_mark, drop_mark, max_frames, throw,
  throw_in_trap,
}
use fx_ui.Machine.Ops.{after_prim}

-- The arguments above the mark, the one popped first in front, and the stack from the mark on.
pub data Collected : Type 0 where
  args : Values → List Value → Collected
  too_many : Collected

abbrev pub one_more : Value → Collected → Collected
one_more v (args vs rest) = args (entry v vs) rest
one_more v too_many = too_many

-- `while (stack.len > 0 && va_peek(&stack).tag != VAL_MARK) …`, with the places left in `argbuf[64]`.
unfoldable pub collect : ℕ → List Value → Collected
collect room [] = args empty []
collect zero (v ∷ vs) = if is_mark v then args empty (v ∷ vs) else too_many
collect (suc room) (v ∷ vs) =
    let more = one_more v (collect room vs) in if is_mark v then args empty (v ∷ vs) else more

abbrev pub max_args : ℕ
max_args = 64

module _ {W : Type 0} where
  -- The body of the closure starts on an empty stack, in its environment and the arguments.
  abbrev pub enter : State W → Code → Values → Values → List Value → State W
  enter s code env vs rest = record s {
    code = code;
    pc = pos 0;
    env = append env vs;
    stack = [];
    frames = record { code = s.code; pc = next_pc s.pc; env = s.env; stack = rest } ∷ s.frames;
  }

  -- A missing mark, or no frame left, leaves the loop with the function in `acc`.
  abbrev pub apply_args : Host W → State W → Code → Values → Collected → Outcome W
  apply_args h s code env too_many = throw h.catching (codes "runtime: too many args (>64)") s.world
  apply_args h s code env (args vs []) = done Halt.stuck s.acc s.world
  apply_args h s code env (args vs (m ∷ rest)) =
      if leb max_frames (length s.frames)
      then done Halt.too_deep s.acc s.world
      else running (enter s code env vs rest)

  -- A primitive takes its arguments from the stack, under a mark if there is one.
  abbrev pub call_prim : Host W → Bytes → State W → Outcome W
  call_prim h name s = after_prim h s (h.exec_primitive name s.acc (drop_mark s.stack) s.world)

  -- With the function in `acc` and its arguments on the stack.
  unfoldable pub apply_to : Host W → Value → State W → Outcome W
  apply_to h (Value.lambda code env) s = apply_args h s code env (collect max_args s.stack)
  apply_to h (Value.prim name) s = call_prim h name s
  apply_to h f s = throw_in_trap h.catching (codes "apply non-callable") s.acc s.world

  -- `if (stack.len > 0) acc = va_pop(&stack);`
  abbrev pub take_function : List Value → State W → State W
  take_function [] s = s
  take_function (f ∷ rest) s = record s { acc = f; stack = rest }

  unfoldable pub op_apply : Host W → State W → Outcome W
  op_apply h s = let s' = take_function s.stack s in apply_to h s'.acc s'

  -- A tail call keeps the frames and what is below the mark; with no argument it is an error.
  abbrev pub appterm_args : Host W → State W → Code → Values → Collected → Outcome W
  appterm_args h s code env too_many =
      throw h.catching (codes "runtime: appterm too many args (>64)") s.world
  appterm_args h s code env (args vs []) = done Halt.stuck s.acc s.world
  appterm_args h s code env (args empty (m ∷ rest)) = done Halt.stuck s.acc s.world
  appterm_args h s code env (args (entry v vs) (m ∷ rest)) =
      running (record s { code = code; pc = pos 0; env = append env (entry v vs); stack = rest })

  unfoldable pub appterm_to : Host W → Value → State W → Outcome W
  appterm_to h (Value.lambda code env) s = appterm_args h s code env (collect max_args s.stack)
  appterm_to h (Value.prim name) s = call_prim h name s
  appterm_to h f s = throw_in_trap h.catching (codes "appterm non-lambda") s.acc s.world

  unfoldable pub op_appterm : Host W → State W → Outcome W
  op_appterm h s = let s' = take_function s.stack s in appterm_to h s'.acc s'
