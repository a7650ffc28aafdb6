-- ===== src/Machine/Locality/Calling.antt =====
-- reference/shen-gc/zincvm.c: `OP_APPLY` of a closure whose body returns, as one big step.
use fx_ui.Base.{ℕ, suc, ◌+◌, ◌≤◌, ◌<◌, ◌≡◌, some, List, [], ◌∷◌, arith, leb, length, false}
use fx_ui.Base.Int.{ℤ, pos}
use fx_ui.Value.{Value, Values, Code, Opcode, instr, append}
use fx_ui.Machine.State.{Frame, State, Host, Halt, running, done, instr_at, next_pc, max_frames}
use fx_ui.Machine.Calls.{args, collect, max_args, op_apply, apply_to}
use fx_ui.Machine.Loop.{execute, dispatch}
use fx_ui.Machine.Bounds.{Step, Reach, here, further}
use fx_ui.Machine.Locality.{under, resumed, execute-Agrees}

module _ {W : Type 0} (h : Host W) where
  -- The loop, started in a state, returns `v` from its outermost frame, with fewer than `room`
  -- frames at every round.
  pub data Evaluates (room : ℕ) : State W → Value → W → Type 0 where
    returns :
        {s : State W} {v : Value} {w : W}
        → execute h s ≡ done Halt.returned v w
        → length s.frames < room
        → Evaluates room s v w
    goes_on :
        {s t : State W} {v : Value} {w : W}
        → execute h s ≡ running t
        → length s.frames < room
        → Evaluates room t v w
        → Evaluates room s v w

  first : (s : State W) {t u : State W} → Step h s t → Reach h t u → Reach h s u
  first s e here = further here e
  first s e (further r e') = further (first s e r) e'

  -- Over other frames the same rounds are made, and the last takes up the frame below.
  pub under_Evaluates :
      (room : ℕ) (f : Frame) (fs : List Frame) {s : State W} {v : Value} {w : W}
      → Evaluates room s v w
      → room + suc (length fs) ≤ max_frames
      → Reach h (under f fs s) (resumed f fs (v ∷ f.stack) v w)
  under_Evaluates room f fs {s} (returns e lt) fits =
      let a = execute-Agrees h f fs s (omega arith) in first (under f fs s) (rw e at a) here
  under_Evaluates room f fs {s} (goes_on e lt ev) fits =
      let a = execute-Agrees h f fs s (omega arith) in
      first (under f fs s) (rw e at a) (under_Evaluates room f fs ev fits)

  -- The body of a closure that is applied to `vs`, on its own.
  abbrev pub body : State W → Code → Values → Values → State W
  body s code env vs = record {
    code = code;
    pc = pos 0;
    env = append env vs;
    stack = [];
    acc = Value.lambda code env;
    frames = [];
    world = s.world;
  }

  -- The caller's frame while the body runs.
  abbrev pub caller : State W → List Value → Frame
  caller s rest = record { code = s.code; pc = next_pc s.pc; env = s.env; stack = rest }

  op_apply-lambda :
      (s : State W) (code : Code) (env vs : Values) (st rest : List Value) (m : Value)
      → s.stack ≡ Value.lambda code env ∷ st
      → collect max_args st ≡ args vs (m ∷ rest)
      → length s.frames < max_frames
      → op_apply h s ≡ running (under (caller s rest) s.frames (body s code env vs))
  unfolding op_apply apply_to
  op_apply-lambda s code env vs st rest m e c room =
      let fits : leb max_frames (length s.frames) ≡ false = ground arith in simp (e, c, fits)

  -- A closure on top of at most 64 arguments and a mark, whose body alone returns `v`, within as
  -- many frames as are left: the application reaches the next instruction with `v` pushed on the
  -- stack below the mark, and with the code, the environment and the frames as they were.
  pub op_apply_lem :
      (room : ℕ) (s : State W) (o : Value) (c : Code) (t : ℤ) (code : Code) (env vs : Values)
      (st rest : List Value) (m v : Value) (w : W)
      → instr_at s.code s.pc ≡ some (instr Opcode.apply o c t)
      → s.stack ≡ Value.lambda code env ∷ st
      → collect max_args st ≡ args vs (m ∷ rest)
      → Evaluates room (body s code env vs) v w
      → room + suc (length s.frames) ≤ max_frames
      → Reach h s (record s { pc = next_pc s.pc; stack = v ∷ rest; acc = v; world = w })
  unfolding execute dispatch
  op_apply_lem room s o c t code env vs st rest m v w i e a ev fits =
      first s (simp i (op_apply-lambda s code env vs st rest m e a (omega arith)))
        (under_Evaluates room (caller s rest) s.frames ev fits)
