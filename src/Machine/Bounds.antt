-- ===== src/Machine/Bounds.antt =====
-- reference/shen-gc/zincvm.c: the bounds of `vm_exec_env`, on its frames and on its rounds.
pub mod Rounds
use fx_ui.Base.{
  ℕ, zero, suc, ◌+◌, ◌≤◌, ◌≡◌, refl, sym, true, false, Bool, Option, none, some, List, [], ◌∷◌,
  arith, leb, if◌then◌else◌, length, Bool-cases, inl, inr,
}
use fx_ui.Base.Bytes.{Bytes}
use fx_ui.Value.{Value, Values, empty, entry, Instr, Code, Opcode, instr}
use fx_ui.Machine.State.{
  Frame, State, Host, Halt, Outcome, PrimResult, primed, refused, raised, died, running, done,
  instr_at, max_frames, is_mark, drop_mark, throw, throw_in_trap, symbol_name,
}
use fx_ui.Machine.Ops.{
  after_prim, op_prim, op_pushmark, op_grab, grab_top, grab_return, op_return, return_to, op_access,
  op_global, load_global, op_let, op_endlet, op_jmp, op_jmpf, op_cur,
}
use fx_ui.Machine.Calls.{
  args, too_many, Collected, collect, apply_args, call_prim, op_apply, apply_to, appterm_args,
  op_appterm, appterm_to, take_function,
}
use fx_ui.Machine.Loop.{dispatch, fall_off, fetched, execute}

-- What holds of the state, if the loop goes on.
abbrev pub After : {W : Type 0} → (State W → Type 0) → Outcome W → Type 0
After P (Outcome.running s) = P s
After P _ = Unit

-- The frames fit `frame_stack`.
abbrev pub FramesFit : {W : Type 0} → State W → Type 0
FramesFit s = length s.frames ≤ max_frames

module _ {W : Type 0} (h : Host W) where
  throw-fits : (c : Option Bool) (msg : Bytes) (w : W) → After FramesFit (throw c msg w)
  throw-fits none msg w = tt
  throw-fits (some b) msg w = tt

  throw_in_trap-fits :
      (c : Option Bool) (msg : Bytes) (v : Value) (w : W)
      → After FramesFit (throw_in_trap c msg v w)
  throw_in_trap-fits none msg v w = tt
  throw_in_trap-fits (some true) msg v w = tt
  throw_in_trap-fits (some false) msg v w = tt

  after_prim-fits :
      (s : State W) (r : PrimResult W) → FramesFit s → After FramesFit (after_prim h s r)
  after_prim-fits s (primed v st w) f = f
  after_prim-fits s (refused v w) f = tt
  after_prim-fits s (raised msg w) f = throw-fits h.catching msg w
  after_prim-fits s died f = tt

  return_to-fits :
      (s : State W) (fs : List Frame) → length fs ≤ max_frames → After FramesFit (return_to s fs)
  return_to-fits s [] f = tt
  return_to-fits s (g ∷ fs) f = omega arith

  grab_top-fits : (s : State W) (st : List Value) → FramesFit s → After FramesFit (grab_top s st)
  grab_top-fits s [] f = f
  grab_top-fits s (v ∷ vs) f = elim (Bool-cases (is_mark v)) [
    | inl e ↦ rw e (return_to-fits s s.frames f)
    | inr e ↦ rw e f
  ]

  apply_args-fits :
      (s : State W) (c : Code) (env : Values) (a : Collected)
      → FramesFit s
      → After FramesFit (apply_args h s c env a)
  apply_args-fits s c env too_many f = throw-fits h.catching _ s.world
  apply_args-fits s c env (args vs []) f = tt
  apply_args-fits s c env (args vs (m ∷ rest)) f =
      elim (Bool-cases (leb max_frames (length s.frames))) [
        | inl e ↦ rw e tt
        | inr e ↦ rw e (ground arith)
      ]

  apply_to-fits : (v : Value) (s : State W) → FramesFit s → After FramesFit (apply_to h v s)
  unfolding apply_to
  apply_to-fits (Value.lambda c env) s f = apply_args-fits s c env (collect 64 s.stack) f
  apply_to-fits (Value.prim name) s f =
      after_prim-fits s (h.exec_primitive name s.acc (drop_mark s.stack) s.world) f
  apply_to-fits v s f = throw_in_trap-fits h.catching _ s.acc s.world

  appterm_args-fits :
      (s : State W) (c : Code) (env : Values) (a : Collected)
      → FramesFit s
      → After FramesFit (appterm_args h s c env a)
  appterm_args-fits s c env too_many f = throw-fits h.catching _ s.world
  appterm_args-fits s c env (args vs []) f = tt
  appterm_args-fits s c env (args empty (m ∷ rest)) f = tt
  appterm_args-fits s c env (args (entry v vs) (m ∷ rest)) f = f

  appterm_to-fits : (v : Value) (s : State W) → FramesFit s → After FramesFit (appterm_to h v s)
  unfolding appterm_to
  appterm_to-fits (Value.lambda c env) s f = appterm_args-fits s c env (collect 64 s.stack) f
  appterm_to-fits (Value.prim name) s f =
      after_prim-fits s (h.exec_primitive name s.acc (drop_mark s.stack) s.world) f
  appterm_to-fits v s f = throw_in_trap-fits h.catching _ s.acc s.world

  take_function-fits :
      (st : List Value) (s : State W) → FramesFit s → FramesFit (take_function st s)
  take_function-fits [] s f = f
  take_function-fits (v ∷ vs) s f = f

  load_global-fits :
      (name : Bytes) (s : State W) (b : Bool)
      → FramesFit s
      → After FramesFit (load_global h name s b)
  load_global-fits name s true f = throw-fits h.catching _ s.world
  load_global-fits name s false f = f

  op_global-fits : (v : Value) (s : State W) → FramesFit s → After FramesFit (op_global h v s)
  unfolding op_global
  op_global-fits v s f = load_global-fits (symbol_name v) s _ f

  dispatch-fits : (i : Instr) (s : State W) → FramesFit s → After FramesFit (dispatch h i s)
  unfolding dispatch op_prim op_pushmark op_grab op_return op_access op_let op_endlet op_jmp op_jmpf
      op_cur op_apply op_appterm
  dispatch-fits (instr Opcode.prim_op v c t) s f = after_prim-fits s _ f
  dispatch-fits (instr Opcode.grab v c t) s f = grab_top-fits s s.stack f
  dispatch-fits (instr Opcode.apply v c t) s f =
      let s' = take_function s.stack s in apply_to-fits s'.acc s' (take_function-fits s.stack s f)
  dispatch-fits (instr Opcode.return v c t) s f = return_to-fits s s.frames f
  dispatch-fits (instr Opcode.global v c t) s f = op_global-fits v s f
  dispatch-fits (instr Opcode.appterm v c t) s f =
      let s' = take_function s.stack s in appterm_to-fits s'.acc s' (take_function-fits s.stack s f)
  dispatch-fits (instr Opcode.unknown v c t) s f = tt
  dispatch-fits (instr _ v c t) s f = f

  fall_off-fits :
      (s : State W) (fs : List Frame) → length fs ≤ max_frames → After FramesFit (fall_off s fs)
  fall_off-fits s [] f = tt
  fall_off-fits s (g ∷ fs) f = omega arith

  fetched-fits : (s : State W) (i : Option Instr) → FramesFit s → After FramesFit (fetched h s i)
  fetched-fits s none f = fall_off-fits s s.frames f
  fetched-fits s (some i) f = dispatch-fits i s f

  execute-fits : (s : State W) → FramesFit s → After FramesFit (execute h s)
  unfolding execute
  execute-fits s f = fetched-fits s (instr_at s.code s.pc) f

  -- One round of the loop.
  abbrev pub Step : State W → State W → Type 0
  Step s t = execute h s ≡ running t

  -- Any number of rounds.
  pub data Reach (s : State W) : State W → Type 0 where
    here : Reach s s
    further : {t u : State W} → Reach s t → Step t u → Reach s u

  Step-FramesFit : (s t : State W) → Step s t → FramesFit s → FramesFit t
  Step-FramesFit s t e f = let a = execute-fits s f in rw e at a

  -- Whatever the code does, frames that fit the 65536 of `frame_stack` keep fitting.
  pub Reach-FramesFit : {s t : State W} → Reach s t → FramesFit s → FramesFit t
  Reach-FramesFit here f = f
  Reach-FramesFit (further {t} {u} r e) f = Step-FramesFit t u e (Reach-FramesFit r f)
