-- ===== src/Machine/Ops.antt =====
-- reference/shen-gc/zincvm.c: the cases of the switch in `vm_exec_env`, all but the two calls.
use fx_ui.Base.{Bool, true, false, ◌&&◌, not, List, [], ◌∷◌, ◌++◌, if◌then◌else◌, take}
use fx_ui.Base.Bytes.{Bytes, codes}
use fx_ui.Base.Int.{ℤ}
use fx_ui.Value.{Value, Code}
use fx_ui.Table.DefunTable.{defun_get, defun_is_defined}
use fx_ui.Machine.State.{
  Frame, State, PrimResult, primed, refused, raised, died, Host, Halt, Outcome, running, done,
  exited, to_int, next_pc, lookup_env, env_push, env_pop, pop_or_acc, is_mark, symbol_name, throw,
  resume,
}

abbrev pub is_empty : Bytes → Bool
is_empty [] = true
is_empty (c ∷ cs) = false

-- The index is the operand, or `jmp_target` where the operand is no number.
abbrev pub access_index : Value → ℤ → ℤ
access_index (Value.number n) target = to_int n
access_index v target = target

-- `snprintf` into 256 bytes cuts the message.
abbrev pub not_found : Bytes → Bytes
not_found name = take 255 (codes "global not found: " ++ name)

-- Only the boolean false takes the jump.
abbrev pub is_false : Value → Bool
is_false (Value.boolean b) = not b
is_false v = false

module _ {W : Type 0} where
  -- `acc = v; va_push(&stack, acc); pc++`
  abbrev pub load : Value → State W → Outcome W
  load v s = running (record s { acc = v; stack = v ∷ s.stack; pc = next_pc s.pc })

  -- What follows a call of `exec_primitive`: its result is pushed; an error leaves the loop.
  abbrev pub after_prim : Host W → State W → PrimResult W → Outcome W
  after_prim h s (primed v stack w) =
      running (record s { acc = v; stack = v ∷ stack; world = w; pc = next_pc s.pc })
  after_prim h s (refused v w) = done Halt.stuck v w
  after_prim h s (raised msg w) = throw h.catching msg w
  after_prim h s died = exited

  unfoldable pub op_prim : Host W → Value → State W → Outcome W
  op_prim h operand s =
      after_prim h s (h.exec_primitive (symbol_name operand) s.acc s.stack s.world)

  unfoldable pub op_pushmark : State W → Outcome W
  op_pushmark s = running (record s { stack = Value.mark ∷ s.stack; pc = next_pc s.pc })

  -- A grab at a mark returns to the caller.
  abbrev pub grab_return : State W → List Frame → Outcome W
  grab_return s [] = done Halt.returned s.acc s.world
  grab_return s (f ∷ fs) = running (resume s f fs (s.acc ∷ f.stack))

  abbrev pub grab_top : State W → List Value → Outcome W
  grab_top s [] = running (record s { pc = next_pc s.pc })
  grab_top s (v ∷ vs) =
      if is_mark v
      then grab_return s s.frames
      else running (record s { stack = vs; env = env_push s.env v; pc = next_pc s.pc })

  unfoldable pub op_grab : State W → Outcome W
  op_grab s = grab_top s s.stack

  abbrev pub return_to : State W → List Frame → Outcome W
  return_to s [] = done Halt.returned s.acc s.world
  return_to s (f ∷ fs) = running (resume s f fs (s.acc ∷ f.stack))

  unfoldable pub op_return : State W → Outcome W
  op_return s = return_to s s.frames

  unfoldable pub op_access : Value → ℤ → State W → Outcome W
  op_access operand target s = load (lookup_env (access_index operand target) s.env) s

  -- By the test that the name is missing.
  abbrev pub load_global : Host W → Bytes → State W → Bool → Outcome W
  load_global h name s true = throw h.catching (not_found name) s.world
  load_global h name s false = load (defun_get h.prim_names name (h.globals s.world)) s

  unfoldable pub op_global : Host W → Value → State W → Outcome W
  op_global h operand s =
      let name = symbol_name operand in
      load_global h name s
        (not (is_empty name) && not (defun_is_defined h.prim_names name (h.globals s.world)))

  unfoldable pub op_let : State W → Outcome W
  op_let s =
      let (v, rest) = pop_or_acc s.stack s.acc in
      running (record s { stack = rest; env = env_push s.env v; pc = next_pc s.pc })

  unfoldable pub op_endlet : State W → Outcome W
  op_endlet s = running (record s { env = env_pop s.env; pc = next_pc s.pc })

  unfoldable pub op_jmp : ℤ → State W → Outcome W
  op_jmp target s = running (record s { pc = target })

  unfoldable pub op_jmpf : ℤ → State W → Outcome W
  op_jmpf target s =
      let (v, rest) = pop_or_acc s.stack s.acc in
      running (record s { stack = rest; pc = if is_false v then target else next_pc s.pc })

  unfoldable pub op_cur : Code → State W → Outcome W
  op_cur code s = load (Value.lambda code s.env) s
