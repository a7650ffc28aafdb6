-- ===== src/Plan/Run/Lists.antt =====
-- reference/shen-gc/zincvm.c: `run_program` on and-lists and or-lists, and the code of a pipeline.
use fx_ui.Base.{
  ℕ, ◌+◌, ◌≡◌, refl, ◌∙◌, Bool, true, false, not, List, [], ◌∷◌, ◌==◌, arith, if◌then◌else◌,
  Bool-cases, inl, inr,
}
use fx_ui.Base.Int.{ℤ, pos, negsuc}
use fx_ui.Value.Equal.{long_eq}
use fx_ui.Plan.Decode.{RProg, no_chains, chain, RPipe, ChainOp}
use fx_ui.Plan.Run.{Kernel, Run, run_pipeline, skips, then_chains, run_chains, run_program}

-- The program of pipelines that one operator joins.
abbrev pub joined : ChainOp → List RPipe → RProg
joined op [] = no_chains
joined op (pipe ∷ pipes) = chain op pipe (joined op pipes)

abbrev pub joined_after : RPipe → ChainOp → List RPipe → RProg
joined_after first op pipes = chain ChainOp.rop_seq first (joined op pipes)

-- The code of an and-list or an or-list: of the first pipeline that decides it, or of the last one.
abbrev pub decided : ChainOp → ℕ → Bool
decided ChainOp.rop_seq code = false
decided ChainOp.rop_and code = not (code == 0)
decided ChainOp.rop_or code = code == 0

abbrev pub list_code : ChainOp → ℕ → List ℕ → ℕ
list_code op code [] = code
list_code op code (c ∷ cs) = if decided op code then code else list_code op c cs

-- The pipelines have these codes, from pipeline `i` on.
abbrev pub Codes : (ℕ → Kernel) → Bool → ℕ → List RPipe → List ℕ → Type 0
Codes kernel in_child i [] [] = Unit
Codes kernel in_child i (p ∷ ps) (c ∷ cs) =
    ((run_pipeline (kernel i) p in_child).0 ≡ pos c) × Codes kernel in_child (i + 1) ps cs
Codes kernel in_child i _ _ = ⊥

then_chains-pos :
    (r : Run) (rest : ℤ → Run) (c : ℕ) → r.0 ≡ pos c → (then_chains r rest).0 ≡ (rest (pos c)).0
then_chains-pos (pos n, trace) rest c e = rw e refl
then_chains-pos (negsuc n, trace) rest c e = cc

skips-decided : (op : ChainOp) (code : ℕ) → skips false op (pos code) ≡ decided op code
unfolding long_eq
skips-decided ChainOp.rop_seq code = refl
skips-decided ChainOp.rop_and code = refl
skips-decided ChainOp.rop_or code = refl

module _ (kernel : ℕ → Kernel) (in_child : Bool) (op : ChainOp) where
  run_chains-decided :
      (i code : ℕ) (ps : List RPipe)
      → (i == 0) ≡ false
      → decided op code ≡ true
      → (run_chains kernel in_child i (joined op ps) (pos code)).0 ≡ pos code
  unfolding run_chains
  run_chains-decided i code [] later e = refl
  run_chains-decided i code (p ∷ ps) later e =
      let next : (i + 1 == 0) ≡ false = ground arith in
      rw (later, skips-decided op code, e) (run_chains-decided (i + 1) code ps next e)

  run_chains-joined :
      (i code : ℕ) (ps : List RPipe) (cs : List ℕ)
      → (i == 0) ≡ false
      → Codes kernel in_child i ps cs
      → (run_chains kernel in_child i (joined op ps) (pos code)).0 ≡ pos (list_code op code cs)
  unfolding run_chains
  run_chains-joined i code [] [] later h = refl
  run_chains-joined i code [] (c ∷ cs) later h = elim h [ ]
  run_chains-joined i code (p ∷ ps) [] later h = elim h [ ]
  run_chains-joined i code (p ∷ ps) (c ∷ cs) later h =
      let next : (i + 1 == 0) ≡ false = ground arith in
      elim (Bool-cases (decided op code)) [
        | inl e ↦ rw (later, skips-decided op code, e) (run_chains-decided (i + 1) code ps next e)
        | inr e ↦
            rw (later, skips-decided op code, e)
              (then_chains-pos (run_pipeline (kernel i) p in_child)
                  (run_chains kernel in_child (i + 1) (joined op ps)) c h.0
                ∙ run_chains-joined (i + 1) c ps cs next h.1)
      ]

-- Pipelines joined by one operator, whose runs give these codes: the program gives the code of the
-- first one that decides the list, not 0 under `&&` and 0 under `||`, or else of the last one.
pub run_program-joined :
    (kernel : ℕ → Kernel) (in_child : Bool) (op : ChainOp) (first : RPipe) (ps : List RPipe) (c : ℕ)
    (cs : List ℕ)
    → Codes kernel in_child 0 (first ∷ ps) (c ∷ cs)
    → (run_program kernel in_child (joined_after first op ps)).0 ≡ pos (list_code op c cs)
unfolding run_program run_chains
run_program-joined kernel in_child op first ps c cs h =
    then_chains-pos (run_pipeline (kernel 0) first in_child)
      (run_chains kernel in_child 1 (joined op ps)) c h.0
    ∙ run_chains-joined kernel in_child op 1 c ps cs refl h.1
