-- ===== src/Plan/Decode/Laws.antt =====
-- reference/shen-gc/zincvm.c: what `plan_decode` lets through fits.
use fx_ui.Base.{
  ℕ, zero, suc, ◌≤◌, ◌≡◌, ◌≢◌, refl, ap, Option, some, List, [], ◌∷◌, arith, leb, ◌==◌, length,
  ◌>>=◌, guard, Holds, bind-Holds, bind_with, Holds-weaken, guard-true,
}
use fx_ui.Base.Bytes.{Bytes}
use fx_ui.Value.{Value}
use fx_ui.Plan.Tagged.{
  Probe, malformed, ended, node, tdl_is_empty, tdl_pop, tdl_collect, tdl_len, tdl_elem, td_string,
  td_symbol,
}
use fx_ui.Plan.Decode.{
  RProg, RPipe, Sub, ChainOp, no_chains, decode_all, decode_redir, stdin_count, decode_sub,
  decode_cmd, decode_cmds, some_cmds, decode_pipeline, decode_chain, decode_chains, chain_op,
  decode_program, plan_decode, plan_max_depth,
}
use fx_ui.Plan.Decode.Fits.{
  NoNul, Legal, cmd_count, chain_count, CmdsFit, CmdFits, SubFits, ChainsFit, PipeFits, ProgFits,
}
use fx_ui.Plan.Decode.Redirs.{td_string-NoNul, collect-length, decode_all-Holds, decode_redir-Legal}

-- `ProgFits` with one level less, and nothing at the last level.
abbrev Below : ℕ → RProg → Type 0
Below zero p = ⊥
Below (suc room) p = ProgFits room p

abbrev Full : RProg → Type 0
Full p = p ≢ no_chains

collect-node :
    (room : ℕ) (v : Value) → tdl_is_empty v ≡ node → Holds (λ els. els ≢ []) (tdl_collect room v)
unfolding tdl_collect
collect-node zero v e = rw e tt
collect-node (suc room) v e = rw e (
    bind-Holds _ (tdl_pop v) _
      λ popped _. bind-Holds _ (tdl_collect room popped.1) _ λ more _ n. cc)

decode_chains-Full :
    (program : Value → Option RProg) (vs : List Value)
    → vs ≢ []
    → Holds Full (decode_chains program vs)
decode_chains-Full program [] n = absurd (n refl)
decode_chains-Full program (v ∷ vs) n =
    bind-Holds Full (decode_chain program v) _
      λ c _. bind-Holds Full (decode_chains program vs) _ λ p _ empty. cc

decode_program-Full :
    (levels : ℕ) (v : Value) → tdl_is_empty v ≡ node → Holds Full (decode_program levels v)
unfolding decode_program
decode_program-Full zero v e = tt
decode_program-Full (suc levels) v e =
    bind_with _ Full (tdl_collect 256 v) _ (collect-node 256 v e)
      λ els n. decode_chains-Full (decode_program levels) els n

module _ (room : ℕ) (program : Value → Option RProg)
    (ih : (v : Value) → Holds (Below room) (program v))
    (full : (v : Value) → tdl_is_empty v ≡ node → Holds Full (program v)) where
  SubFits-nested : (r : ℕ) (p : RProg) → Below r p → Full p → SubFits r [] (Sub.nested p)
  SubFits-nested zero p h f = h
  SubFits-nested (suc r) p h f = (refl, f, h.0, h.1)

  decode_sub-SubFits :
      (p : Probe) (argv : List Bytes) (v : Value)
      → tdl_is_empty v ≡ p
      → Holds (SubFits room argv) (decode_sub program p argv v)
  decode_sub-SubFits malformed argv v e = tt
  decode_sub-SubFits ended [] v e = tt
  decode_sub-SubFits ended (a ∷ rest) v e = λ empty. cc
  decode_sub-SubFits node [] v e = bind-Holds (SubFits room []) (program v) _ λ p found.
      let below = ih v in
      let some_chain = full v e in
      SubFits-nested room p (rw found at below) (rw found at some_chain)
  decode_sub-SubFits node (a ∷ rest) v e = tt

  decode_cmd-CmdFits : (v : Value) → Holds (CmdFits room) (decode_cmd program v)
  unfolding decode_cmd
  decode_cmd-CmdFits v =
      let P = CmdFits room in
      bind-Holds P (tdl_len v) _ λ len _. bind-Holds P (guard (len == 3)) _ λ _ _.
        bind-Holds P (tdl_elem v 0) _ λ argvv _. bind-Holds P (tdl_elem v 1) _ λ redirsv _.
          bind-Holds P (tdl_elem v 2) _ λ subv _.
            bind_with _ P (tdl_collect 256 argvv) _ (collect-length 256 argvv) λ words few.
              bind_with _ P (decode_all td_string words) _
                (decode_all-Holds NoNul td_string words td_string-NoNul)
                λ argv strings.
                  bind_with _ P (tdl_collect 64 redirsv) _ (collect-length 64 redirsv) λ els short.
                    bind_with _ P (decode_all decode_redir els) _
                      (decode_all-Holds Legal decode_redir els decode_redir-Legal)
                      λ redirs legal.
                        bind_with _ P (decode_sub program (tdl_is_empty subv) argv subv) _
                          (decode_sub-SubFits (tdl_is_empty subv) argv subv refl)
                          λ sub subs. bind-Holds P (guard (leb (stdin_count redirs) 1)) _ λ u g.
                            let test = guard-true (leb (stdin_count redirs) 1) u g in
                            (
                              strings.0,
                              rw strings.1 few,
                              legal.0,
                              rw legal.1 short,
                              ground arith,
                              subs,
                            )

  decode_cmds-CmdsFit :
      (vs : List Value)
      → Holds (λ p. CmdsFit room p × (cmd_count p ≡ length vs)) (decode_cmds program vs)
  decode_cmds-CmdsFit [] = (tt, refl)
  decode_cmds-CmdsFit (v ∷ vs) =
      bind_with (CmdFits room) _ (decode_cmd program v) _ (decode_cmd-CmdFits v) λ c fit.
        bind_with _ _ (decode_cmds program vs) _ (decode_cmds-CmdsFit vs)
          λ p more. ((fit, more.0), ap suc more.1)

  some_cmds-PipeFits :
      (vs : List Value) → length vs ≤ 64 → Holds (PipeFits room) (some_cmds program vs)
  some_cmds-PipeFits [] h = tt
  some_cmds-PipeFits (v ∷ vs) h =
      bind_with (CmdFits room) _ (decode_cmd program v) _ (decode_cmd-CmdFits v) λ c fit.
        bind_with _ _ (decode_cmds program vs) _ (decode_cmds-CmdsFit vs)
          λ p more. let count = more.1 in (omega arith, fit, more.0)

  decode_chain-PipeFits : (v : Value) → Holds (λ c. PipeFits room c.1) (decode_chain program v)
  unfolding decode_chain decode_pipeline
  decode_chain-PipeFits v =
      let P = λ (c : ChainOp × RPipe). PipeFits room c.1 in
      bind-Holds P (tdl_len v) _ λ len _. bind-Holds P (guard (len == 2)) _ λ _ _.
        bind-Holds P (tdl_elem v 0) _ λ opv _. bind-Holds P (tdl_elem v 1) _ λ pipev _.
          bind-Holds P (td_symbol opv) _ λ name _. bind-Holds P (chain_op name) _ λ op _.
            bind_with (PipeFits room) P (tdl_collect 64 pipev >>= some_cmds program) _
              (bind_with _ (PipeFits room) (tdl_collect 64 pipev) _ (collect-length 64 pipev)
                some_cmds-PipeFits)
              λ pipe h. h

  decode_chains-ChainsFit :
      (vs : List Value)
      → Holds (λ p. ChainsFit room p × (chain_count p ≡ length vs)) (decode_chains program vs)
  decode_chains-ChainsFit [] = (tt, refl)
  decode_chains-ChainsFit (v ∷ vs) =
      bind_with (λ c. PipeFits room c.1) _ (decode_chain program v) _ (decode_chain-PipeFits v)
        λ c fit.
          bind_with _ _ (decode_chains program vs) _ (decode_chains-ChainsFit vs)
            λ p more. ((fit, more.0), ap suc more.1)

  program-ProgFits :
      (v : Value) → Holds (ProgFits room) (tdl_collect 256 v >>= decode_chains program)
  program-ProgFits v =
      bind_with _ (ProgFits room) (tdl_collect 256 v) _ (collect-length 256 v) λ els few.
        Holds-weaken _ (ProgFits room) (decode_chains program els) (decode_chains-ChainsFit els)
          λ p h. let count = h.1 in (omega (arith, few, count), h.0)

decode_program-Below : (levels : ℕ) (v : Value) → Holds (Below levels) (decode_program levels v)
unfolding decode_program
decode_program-Below zero v = tt
decode_program-Below (suc levels) v =
    program-ProgFits levels (decode_program levels) (decode_program-Below levels)
      (decode_program-Full levels) v

-- A plan that is decoded keeps to the limits on chains, commands, arguments, redirections and depth;
-- each pipeline has a command, and each subshell a chain; a command has arguments or is a subshell, never both; every
-- redirection is on a descriptor of its operator, its target in the field of the operator; at most
-- one takes standard input; and no string holds a NUL.
pub plan_decode-ProgFits :
    (v : Value) (p : RProg) → plan_decode v ≡ some p → ProgFits plan_max_depth p
unfolding plan_decode
plan_decode-ProgFits v p e = let fits = decode_program-Below (suc plan_max_depth) v in rw e at fits
