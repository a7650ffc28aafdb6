-- ===== src/Machine/Locality.antt =====
-- reference/shen-gc/zincvm.c: a body runs on top of any frames as it does alone, and its return
-- takes up the frame below. `under f fs` is a state with the frame `f` and then `fs` at the bottom.
pub mod Calling
use fx_ui.Base.{
  ℕ, zero, suc, ◌+◌, ◌≤◌, ◌<◌, ◌≡◌, refl, sym, true, false, Bool, Option, none, some, List, [], ◌∷◌,
  ◌++◌, arith, leb, if◌then◌else◌, length, length-append, Bool-cases, inl, inr,
}
use fx_ui.Base.Bytes.{Bytes}
use fx_ui.Value.{Value, Values, empty, entry, Instr, Code, Opcode, instr}
use fx_ui.Machine.State.{
  Frame, State, Host, Halt, Outcome, PrimResult, primed, refused, raised, died, running, done,
  instr_at, max_frames, is_mark, drop_mark, throw, throw_in_trap, symbol_name,
}
use fx_ui.Machine.Ops.{
  after_prim, op_prim, op_pushmark, op_grab, grab_top, op_return, return_to, op_access, op_global,
  load_global, op_let, op_endlet, op_jmp, op_jmpf, op_cur,
}
use fx_ui.Machine.Calls.{
  args, too_many, Collected, collect, apply_args, op_apply, apply_to, appterm_args, op_appterm,
  appterm_to, take_function,
}
use fx_ui.Machine.Loop.{dispatch, fall_off, fetched, execute}

abbrev pub under : {W : Type 0} → Frame → List Frame → State W → State W
under f fs s = record s { frames = s.frames ++ f ∷ fs }

-- The caller's state after a return: the result is pushed on its stack and stands in `acc`.
abbrev pub resumed : {W : Type 0} → Frame → List Frame → List Value → Value → W → State W
resumed f fs stack v w = record {
  code = f.code;
  pc = f.pc;
  env = f.env;
  stack = stack;
  acc = v;
  frames = fs;
  world = w;
}

-- What a round over the frames does, by what it does alone: it goes on alike, and where it would
-- leave the loop at the outermost frame it takes up the frame below; every other end is the same.
abbrev pub Agrees : {W : Type 0} → Frame → List Frame → Outcome W → Outcome W → Type 0
Agrees f fs (Outcome.running s) o = o ≡ running (under f fs s)
Agrees f fs (Outcome.done Halt.returned v w) o = o ≡ running (resumed f fs (v ∷ f.stack) v w)
Agrees f fs (Outcome.done Halt.fell_off v w) o = o ≡ running (resumed f fs f.stack v w)
Agrees f fs out o = o ≡ out

module _ {W : Type 0} (h : Host W) (f : Frame) (fs : List Frame) where
  throw-Agrees :
      (c : Option Bool) (msg : Bytes) (w : W) → Agrees f fs (throw c msg w) (throw c msg w)
  throw-Agrees none msg w = refl
  throw-Agrees (some b) msg w = refl

  throw_in_trap-Agrees :
      (c : Option Bool) (msg : Bytes) (v : Value) (w : W)
      → Agrees f fs (throw_in_trap c msg v w) (throw_in_trap c msg v w)
  throw_in_trap-Agrees none msg v w = refl
  throw_in_trap-Agrees (some true) msg v w = refl
  throw_in_trap-Agrees (some false) msg v w = refl

  after_prim-Agrees :
      (s : State W) (r : PrimResult W)
      → Agrees f fs (after_prim h s r) (after_prim h (under f fs s) r)
  after_prim-Agrees s (primed v st w) = refl
  after_prim-Agrees s (refused v w) = refl
  after_prim-Agrees s (raised msg w) = throw-Agrees h.catching msg w
  after_prim-Agrees s died = refl

  return_to-Agrees :
      (s : State W) (gs : List Frame)
      → Agrees f fs (return_to s gs) (return_to (under f fs s) (gs ++ f ∷ fs))
  return_to-Agrees s [] = refl
  return_to-Agrees s (g ∷ gs) = refl

  grab_top-Agrees :
      (s : State W) (st : List Value) → Agrees f fs (grab_top s st) (grab_top (under f fs s) st)
  grab_top-Agrees s [] = refl
  grab_top-Agrees s (v ∷ vs) = elim (Bool-cases (is_mark v)) [
    | inl e ↦ rw e (return_to-Agrees s s.frames)
    | inr e ↦ rw e refl
  ]

  load_global-Agrees :
      (name : Bytes) (s : State W) (b : Bool)
      → Agrees f fs (load_global h name s b) (load_global h name (under f fs s) b)
  load_global-Agrees name s true = throw-Agrees h.catching _ s.world
  load_global-Agrees name s false = refl

  appterm_args-Agrees :
      (s : State W) (c : Code) (env : Values) (a : Collected)
      → Agrees f fs (appterm_args h s c env a) (appterm_args h (under f fs s) c env a)
  appterm_args-Agrees s c env too_many = throw-Agrees h.catching _ s.world
  appterm_args-Agrees s c env (args vs []) = refl
  appterm_args-Agrees s c env (args empty (m ∷ rest)) = refl
  appterm_args-Agrees s c env (args (entry v vs) (m ∷ rest)) = refl

  appterm_to-Agrees :
      (v : Value) (s : State W) → Agrees f fs (appterm_to h v s) (appterm_to h v (under f fs s))
  unfolding appterm_to
  appterm_to-Agrees (Value.lambda c env) s = appterm_args-Agrees s c env (collect 64 s.stack)
  appterm_to-Agrees (Value.prim name) s =
      after_prim-Agrees s (h.exec_primitive name s.acc (drop_mark s.stack) s.world)
  appterm_to-Agrees v s = throw_in_trap-Agrees h.catching _ s.acc s.world

  apply_args-Agrees :
      (s : State W) (c : Code) (env : Values) (a : Collected)
      → length s.frames + suc (length fs) < max_frames
      → Agrees f fs (apply_args h s c env a) (apply_args h (under f fs s) c env a)
  apply_args-Agrees s c env too_many room = throw-Agrees h.catching _ s.world
  apply_args-Agrees s c env (args vs []) room = refl
  apply_args-Agrees s c env (args vs (m ∷ rest)) room =
      let n = length-append s.frames (f ∷ fs) in
      let fits : leb max_frames (length s.frames) ≡ false = ground arith in
      let fits' : leb max_frames (length (s.frames ++ f ∷ fs)) ≡ false = ground (arith, n) in
      rw (fits, fits') refl

  apply_to-Agrees :
      (v : Value) (s : State W)
      → length s.frames + suc (length fs) < max_frames
      → Agrees f fs (apply_to h v s) (apply_to h v (under f fs s))
  unfolding apply_to
  apply_to-Agrees (Value.lambda c env) s room = apply_args-Agrees s c env (collect 64 s.stack) room
  apply_to-Agrees (Value.prim name) s room =
      after_prim-Agrees s (h.exec_primitive name s.acc (drop_mark s.stack) s.world)
  apply_to-Agrees v s room = throw_in_trap-Agrees h.catching _ s.acc s.world

  op_apply-Agrees :
      (s : State W) (st : List Value)
      → length s.frames + suc (length fs) < max_frames
      → Agrees f fs
          (apply_to h (take_function st s).acc (take_function st s))
          (apply_to h (take_function st (under f fs s)).acc (take_function st (under f fs s)))
  op_apply-Agrees s [] room = apply_to-Agrees s.acc s room
  op_apply-Agrees s (v ∷ vs) room = apply_to-Agrees v (record s { acc = v; stack = vs }) room

  op_appterm-Agrees :
      (s : State W) (st : List Value)
      → Agrees f fs
          (appterm_to h (take_function st s).acc (take_function st s))
          (appterm_to h (take_function st (under f fs s)).acc (take_function st (under f fs s)))
  op_appterm-Agrees s [] = appterm_to-Agrees s.acc s
  op_appterm-Agrees s (v ∷ vs) = appterm_to-Agrees v (record s { acc = v; stack = vs })

  dispatch-Agrees :
      (i : Instr) (s : State W)
      → length s.frames + suc (length fs) < max_frames
      → Agrees f fs (dispatch h i s) (dispatch h i (under f fs s))
  unfolding dispatch op_prim op_pushmark op_grab op_return op_access op_let op_endlet op_jmp op_jmpf
      op_cur op_apply op_appterm op_global
  dispatch-Agrees (instr Opcode.prim_op v c t) s room = after_prim-Agrees s _
  dispatch-Agrees (instr Opcode.grab v c t) s room = grab_top-Agrees s s.stack
  dispatch-Agrees (instr Opcode.apply v c t) s room = op_apply-Agrees s s.stack room
  dispatch-Agrees (instr Opcode.return v c t) s room = return_to-Agrees s s.frames
  dispatch-Agrees (instr Opcode.global v c t) s room = load_global-Agrees (symbol_name v) s _
  dispatch-Agrees (instr Opcode.appterm v c t) s room = op_appterm-Agrees s s.stack
  dispatch-Agrees (instr Opcode.unknown v c t) s room = refl
  dispatch-Agrees (instr _ v c t) s room = refl

  fall_off-Agrees :
      (s : State W) (gs : List Frame)
      → Agrees f fs (fall_off s gs) (fall_off (under f fs s) (gs ++ f ∷ fs))
  fall_off-Agrees s [] = refl
  fall_off-Agrees s (g ∷ gs) = refl

  fetched-Agrees :
      (s : State W) (i : Option Instr)
      → length s.frames + suc (length fs) < max_frames
      → Agrees f fs (fetched h s i) (fetched h (under f fs s) i)
  fetched-Agrees s none room = fall_off-Agrees s s.frames
  fetched-Agrees s (some i) room = dispatch-Agrees i s room

  -- One round over the frame `f` and those below agrees with the same round alone, if a frame more
  -- still fits: it goes on to the same state over these frames, takes up the frame `f` where the
  -- round alone returns or falls off at its outermost frame, and ends alike in every other case.
  pub execute-Agrees :
      (s : State W)
      → length s.frames + suc (length fs) < max_frames
      → Agrees f fs (execute h s) (execute h (under f fs s))
  unfolding execute
  execute-Agrees s room = fetched-Agrees s (instr_at s.code s.pc) room
