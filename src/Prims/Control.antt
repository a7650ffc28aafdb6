-- ===== src/Prims/Control.antt =====
-- reference/shen-gc/zincvm.c: the primitives `simple-error`, `trap-error` and `eval-kl`, which throw
-- errors, catch them, and run closures on a machine of their own.
--
-- `Exec` is such a run: `vm_exec_env` under a catch frame, whose `in_trap_error` is the first
-- argument. A run that ends uncaught, or not at all, ends the program.
pub mod Laws
use fx_ui.Base.{ℕ, Bool, true, false, ◌&&◌, Option, none, some, List, [], ◌∷◌, if◌then◌else◌, take}
use fx_ui.Base.Bytes.{Bytes, codes, byte_eq}
use fx_ui.Value.{Value, Values, Code}
use fx_ui.Value.Marshal.{marshal_to_tagged, demarshal_from_tagged}
use fx_ui.Table.DefunTable.{defun_get}
use fx_ui.Machine.State.{PrimResult, Outcome, running, done, thrown, uncaught, exited, env_push}
use fx_ui.Parse.Reader.{until_nul}
use fx_ui.Prims.Runtime.{Runtime, Prim}

abbrev pub Exec : Type 0 → Type 0
Exec E = Option Bool → Code → Values → Runtime E → Option (Outcome (Runtime E))

-- `char msg[256]`
abbrev pub error_message : Value → Bytes
error_message (Value.string s) = take 255 (until_nul s)
error_message v = codes "simple-error called"

-- The error of the reader at the end of its input, which leaves the REPL by `longjmp`.
abbrev pub is_empty_stream : Value → Bool
is_empty_stream (Value.string s) = byte_eq s (codes "error: empty stream")
is_empty_stream v = false

-- One phase of `eval-kl`: a global function applied to a value. `missing` is no closure.
pub data Phase (E : Type 0) : Type 0 where
  phase_done : Value → Runtime E → Phase E
  missing : Runtime E → Phase E
  phase_thrown : Bytes → Runtime E → Phase E
  phase_died : Phase E

module _ {E : Type 0} where
  unfoldable pub prim_simple_error : Prim E
  prim_simple_error w (a ∷ st) =
      if w.repl_mode && is_empty_stream a
      then PrimResult.died
      else PrimResult.raised (error_message a) w
  prim_simple_error w [] = PrimResult.died

  -- A run under the enclosing catch frame.
  abbrev pub plain_result : List Value → Option (Outcome (Runtime E)) → PrimResult (Runtime E)
  plain_result st none = PrimResult.died
  plain_result st (some (running s)) = PrimResult.died
  plain_result st (some (done halt v w)) = PrimResult.primed v st w
  plain_result st (some (thrown msg w)) = PrimResult.raised msg w
  plain_result st (some (uncaught msg)) = PrimResult.died
  plain_result st (some exited) = PrimResult.died

  -- The handler gets the error as its last argument.
  abbrev pub run_handler :
      Exec E → Option Bool → Value → Bytes → List Value → Runtime E → PrimResult (Runtime E)
  run_handler exec catching (Value.lambda code env) msg st w =
      plain_result st (exec catching code (env_push env (Value.error msg)) w)
  run_handler exec catching v msg st w = PrimResult.died

  -- A run under the frame of the `trap-error`.
  abbrev pub body_result :
      Exec E
      → Option Bool
      → Value
      → List Value
      → Option (Outcome (Runtime E))
      → PrimResult (Runtime E)
  body_result exec catching handler st none = PrimResult.died
  body_result exec catching handler st (some (running s)) = PrimResult.died
  body_result exec catching handler st (some (done halt v w)) = PrimResult.primed v st w
  body_result exec catching handler st (some (thrown msg w)) =
      run_handler exec catching handler msg st w
  body_result exec catching handler st (some (uncaught msg)) = PrimResult.died
  body_result exec catching handler st (some exited) = PrimResult.died

  -- The body gets the empty list as its last argument; a body that is no closure is the result.
  abbrev pub run_body :
      Exec E → Option Bool → Value → Value → List Value → Runtime E → PrimResult (Runtime E)
  run_body exec catching (Value.lambda code env) handler st w =
      body_result exec catching handler st (exec (some true) code (env_push env Value.nil) w)
  run_body exec catching body handler st w = PrimResult.primed body st w

  unfoldable pub prim_trap_error : Exec E → Option Bool → Prim E
  prim_trap_error exec catching w (body ∷ handler ∷ st) = run_body exec catching body handler st w
  prim_trap_error exec catching w _ = PrimResult.died

  abbrev pub phase_result : Option (Outcome (Runtime E)) → Phase E
  phase_result none = phase_died
  phase_result (some (running s)) = phase_died
  phase_result (some (done halt v w)) = phase_done v w
  phase_result (some (thrown msg w)) = phase_thrown msg w
  phase_result (some (uncaught msg)) = phase_died
  phase_result (some exited) = phase_died

  abbrev pub apply_global : Exec E → Value → Value → Runtime E → Phase E
  apply_global exec (Value.lambda code env) arg w =
      phase_result (exec (some false) code (env_push env arg) w)
  apply_global exec v arg w = missing w

  abbrev pub then_phase : Phase E → (Value → Runtime E → Phase E) → Phase E
  then_phase (phase_done v w) next = next v w
  then_phase (missing w) next = missing w
  then_phase (phase_thrown msg w) next = phase_thrown msg w
  then_phase phase_died next = phase_died

  unfoldable pub phase : Exec E → List Bytes → Bytes → Value → Runtime E → Phase E
  phase exec prims name arg w = apply_global exec (defun_get prims name w.defuns) arg w

  abbrev pub demarshalled : List Value → Runtime E → Option Value → PrimResult (Runtime E)
  demarshalled st w none = PrimResult.died
  demarshalled st w (some v) = PrimResult.primed v st w

  -- An error comes back as a value, and the form itself where a phase is missing.
  abbrev pub eval_result : Value → List Value → Phase E → PrimResult (Runtime E)
  eval_result a st (phase_done v w) = demarshalled st w (demarshal_from_tagged v)
  eval_result a st (missing w) = PrimResult.primed a st w
  eval_result a st (phase_thrown msg w) = PrimResult.primed (Value.error msg) st w
  eval_result a st phase_died = PrimResult.died

  unfoldable pub prim_eval_kl : Exec E → List Bytes → Prim E
  prim_eval_kl exec prims w (a ∷ st) = eval_result a st (
      then_phase
        (then_phase (phase exec prims (codes "extract-kl") (marshal_to_tagged a) w)
          (phase exec prims (codes "kl->zinc")))
        (phase exec prims (codes "toplevel-interp")))
  prim_eval_kl exec prims w [] = PrimResult.died
