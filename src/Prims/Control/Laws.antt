-- ===== src/Prims/Control/Laws.antt =====
-- reference/shen-gc/zincvm.c: which errors `trap-error` and `eval-kl` let through.
use fx_ui.Base.{
  ◌≡◌, ◌≢◌, ◌↔◌, refl, sym, ◌∙◌, ap, Bool, true, false, Option, none, some, List, [], ◌∷◌,
}
use fx_ui.Base.Bytes.{Bytes, codes}
use fx_ui.Value.{Value, Values, Code}
use fx_ui.Machine.State.{
  Outcome, Halt, running, done, thrown, uncaught, exited, env_push, primed, raised,
}
use fx_ui.Table.DefunTable.{defun_get}
use fx_ui.Value.Marshal.{marshal_to_tagged}
use fx_ui.Prims.Runtime.{Runtime, Prim}
use fx_ui.Prims.Control.{
  Exec, plain_result, body_result, prim_trap_error, Phase, phase_done, missing, phase_thrown,
  phase_died, then_phase, phase, eval_result, demarshalled, prim_eval_kl,
}

module _ {E : Type 0} (exec : Exec E) where
  -- A value comes out of the handler by an error alone.
  plain_raised :
      (st : List Value) (o : Option (Outcome (Runtime E))) (msg : Bytes) (w : Runtime E)
      → plain_result st o ≡ raised msg w
      → o ≡ some (thrown msg w)
  plain_raised st none msg w h = cc
  plain_raised st (some (running s)) msg w h = cc
  plain_raised st (some (done halt v u)) msg w h = cc
  plain_raised st (some (thrown m u)) msg w h = cc
  plain_raised st (some (uncaught m)) msg w h = cc
  plain_raised st (some exited) msg w h = cc

  -- The body threw `m` in the state `u`, and then the handler threw the error.
  abbrev pub BothThrew :
      Option Bool → Code → Values → Code → Values → Runtime E → Bytes → Runtime E → Type 0
  BothThrew catching bc be hc he w msg w' =
      (m : Bytes) × (u : Runtime E) × (exec (some true) bc (env_push be Value.nil) w
        ≡ some (thrown m u))
      × (exec catching hc (env_push he (Value.error m)) u ≡ some (thrown msg w'))

  body_raised :
      (catching : Option Bool) (hc : Code) (he : Values) (st : List Value)
      (o : Option (Outcome (Runtime E))) (msg : Bytes) (w' : Runtime E)
      → body_result exec catching (Value.lambda hc he) st o ≡ raised msg w'
      → (m : Bytes) × (u : Runtime E) × (o ≡ some (thrown m u))
        × (exec catching hc (env_push he (Value.error m)) u ≡ some (thrown msg w'))
  body_raised catching hc he st none msg w' h = cc
  body_raised catching hc he st (some (running s)) msg w' h = cc
  body_raised catching hc he st (some (done halt v u)) msg w' h = cc
  body_raised catching hc he st (some (thrown m u)) msg w' h =
      (m, u, refl, plain_raised st (exec catching hc (env_push he (Value.error m)) u) msg w' h)
  body_raised catching hc he st (some (uncaught m)) msg w' h = cc
  body_raised catching hc he st (some exited) msg w' h = cc

  -- `trap-error` lets no error of its body through: it throws exactly when the body throws and the
  -- handler, which is given that error, throws in turn, and then it throws the handler's error to the
  -- enclosing catch frame.
  pub prim_trap_error_iff :
      (catching : Option Bool) (bc hc : Code) (be he : Values) (st : List Value) (w w' : Runtime E)
      (msg : Bytes)
      → (prim_trap_error exec catching w (Value.lambda bc be ∷ Value.lambda hc he ∷ st)
          ≡ raised msg w')
        ↔ BothThrew catching bc be hc he w msg w'
  unfolding prim_trap_error
  prim_trap_error_iff catching bc hc be he st w w' msg = (
    λ h. body_raised catching hc he st (exec (some true) bc (env_push be Value.nil) w) msg w' h,
    λ (m, u, a, b). rw (a, b) refl,
  )

  demarshalled_not :
      (st : List Value) (w u : Runtime E) (o : Option Value) (msg : Bytes)
      → demarshalled st w o ≢ raised msg u
  demarshalled_not st w u none msg h = cc
  demarshalled_not st w u (some v) msg h = cc

  eval_result_not :
      (a : Value) (st : List Value) (p : Phase E) (msg : Bytes) (u : Runtime E)
      → eval_result a st p ≢ raised msg u
  eval_result_not a st (phase_done v w) msg u h = demarshalled_not st w u _ msg h
  eval_result_not a st (missing w) msg u h = cc
  eval_result_not a st (phase_thrown m w) msg u h = cc
  eval_result_not a st phase_died msg u h = cc

  -- The global functions of the list are applied in turn, each to the value of the one before and
  -- first to the argument, and one of them throws `msg` in the world `u`.
  pub data Throws (prims : List Bytes) (msg : Bytes) (u : Runtime E)
      : List Bytes → Value → Runtime E → Type 0 where
    throws :
        (name : Bytes) (names : List Bytes) (arg : Value) (w : Runtime E) (code : Code)
        (env : Values)
        → defun_get prims name w.defuns ≡ Value.lambda code env
        → exec (some false) code (env_push env arg) w ≡ some (thrown msg u)
        → Throws prims msg u (name ∷ names) arg w
    passes :
        (name : Bytes) (names : List Bytes) (arg v : Value) (w w' : Runtime E) (halt : Halt)
        (code : Code) (env : Values)
        → defun_get prims name w.defuns ≡ Value.lambda code env
        → exec (some false) code (env_push env arg) w ≡ some (done halt v w')
        → Throws prims msg u names v w'
        → Throws prims msg u (name ∷ names) arg w

  -- The phases one after the other, from the first on.
  abbrev phases : List Bytes → List Bytes → Value → Runtime E → Phase E
  phases prims [] v w = phase_done v w
  phases prims (n ∷ ns) v w = then_phase (phase exec prims n v w) (phases prims ns)

  phases-Throws :
      (prims : List Bytes) (msg : Bytes) (u : Runtime E) (names : List Bytes) (arg : Value)
      (w : Runtime E)
      → Throws prims msg u names arg w
      → phases prims names arg w ≡ phase_thrown msg u
  unfolding phase
  phases-Throws prims msg u _ _ _ (throws name names arg w code env a b) = rw (a, b) refl
  phases-Throws prims msg u _ _ _ (passes name names arg v w w' halt code env a b t) =
      rw (a, b) (phases-Throws prims msg u names v w' t)

  then_phase_done : (p : Phase E) → then_phase p (λ v w. phase_done v w) ≡ p
  then_phase_done (phase_done v w) = refl
  then_phase_done (missing w) = refl
  then_phase_done (phase_thrown m w) = refl
  then_phase_done phase_died = refl

  last_phase :
      (p : Phase E) (g : Value → Runtime E → Phase E)
      → then_phase p (λ v w. then_phase (g v w) (λ x y. phase_done x y)) ≡ then_phase p g
  last_phase (phase_done v w) g = then_phase_done (g v w)
  last_phase (missing w) g = refl
  last_phase (phase_thrown m w) g = refl
  last_phase phase_died g = refl

  three_phases :
      (p : Phase E) (f g : Value → Runtime E → Phase E)
      → then_phase p (λ v w. then_phase (f v w) (λ x y. then_phase (g x y) (λ c d. phase_done c d)))
        ≡ then_phase (then_phase p f) g
  three_phases (phase_done v w) f g = last_phase (f v w) g
  three_phases (missing w) f g = refl
  three_phases (phase_thrown m w) f g = refl
  three_phases phase_died f g = refl

  -- Where one of the phases extract-kl, kl->zinc and toplevel-interp throws, after those before it
  -- came to an end, `eval-kl` throws nothing and answers the error of that phase as a value, in the
  -- world that the phase left.
  pub prim_eval_kl-thrown :
      (prims : List Bytes) (w : Runtime E) (a : Value) (st : List Value) (msg : Bytes)
      (u : Runtime E)
      → Throws prims msg u
          (codes "extract-kl" ∷ codes "kl->zinc" ∷ codes "toplevel-interp" ∷ [])
          (marshal_to_tagged a)
          w
      → prim_eval_kl exec prims w (a ∷ st) ≡ primed (Value.error msg) st u
  unfolding prim_eval_kl
  prim_eval_kl-thrown prims w a st msg u t =
      let names = codes "extract-kl" ∷ codes "kl->zinc" ∷ codes "toplevel-interp" ∷ [] in
      ap (eval_result a st) (
        sym (
          three_phases (phase exec prims (codes "extract-kl") (marshal_to_tagged a) w)
            (phase exec prims (codes "kl->zinc")) (phase exec prims (codes "toplevel-interp")))
        ∙ phases-Throws prims msg u names (marshal_to_tagged a) w t)

  -- `eval-kl` throws no error, whatever its phases do.
  prim_eval_kl-not_raised :
      (prims : List Bytes) (w : Runtime E) (st : List Value) (msg : Bytes) (u : Runtime E)
      → prim_eval_kl exec prims w st ≢ raised msg u
  unfolding prim_eval_kl
  prim_eval_kl-not_raised prims w [] msg u h = cc
  prim_eval_kl-not_raised prims w (a ∷ st) msg u h = eval_result_not a st _ msg u h
