-- ===== src/Plan/Decode/Fits.antt =====
-- reference/shen-gc/zincvm.c: what a plan promises to the code that runs it.
use fx_ui.Base.{ℕ, zero, suc, ◌≤◌, ◌≡◌, ◌≢◌, ◌⊎◌, List, [], length, All}
use fx_ui.Base.Bytes.{Bytes}
use fx_ui.Base.Int.{ℤ, pos}
use fx_ui.Plan.Decode.{
  RedirKind, RRedir, RProg, RPipe, RCmd, Sub, no_chains, chain, no_cmds, stage, cmd, plain, nested,
  plan_max_chains, plan_max_cmds, plan_max_args, plan_max_redirs, with_target, with_dup,
  stdin_count,
}

-- A C string: no NUL in it.
abbrev pub NoNul : Bytes → Type 0
NoNul s = All (λ c. c ≢ 0) s

abbrev pub IsOutput : ℤ → Type 0
IsOutput fd = (fd ≡ pos 1) ⊎ (fd ≡ pos 2)

abbrev pub TakesStdin : RedirKind → Type 0
TakesStdin RedirKind.rr_in = Unit
TakesStdin RedirKind.rr_hdoc = Unit
TakesStdin RedirKind.rr_hstr = Unit
TakesStdin _ = ⊥

abbrev pub TakesOutput : RedirKind → Type 0
TakesOutput RedirKind.rr_out = Unit
TakesOutput RedirKind.rr_append = Unit
TakesOutput _ = ⊥

-- The descriptor goes with the operator, and the target is in the field of the operator.
pub data Legal (r : RRedir) : Type 0 where
  from_stdin :
      (kind : RedirKind) (s : Bytes)
      → TakesStdin kind
      → NoNul s
      → r ≡ with_target kind (pos 0) s
      → Legal r
  to_output :
      (kind : RedirKind) (fd : ℤ) (s : Bytes)
      → TakesOutput kind
      → IsOutput fd
      → NoNul s
      → r ≡ with_target kind fd s
      → Legal r
  to_dup : (fd dup_fd : ℤ) → IsOutput fd → IsOutput dup_fd → r ≡ with_dup fd dup_fd → Legal r

abbrev pub cmd_count : RPipe → ℕ
cmd_count no_cmds = 0
cmd_count (stage c p) = suc (cmd_count p)

abbrev pub chain_count : RProg → ℕ
chain_count no_chains = 0
chain_count (chain op pipe p) = suc (chain_count p)

-- With `room` levels of subshells left.
abbrev mutual
  pub ChainsFit : ℕ → RProg → Type 0
  ChainsFit room no_chains = Unit
  ChainsFit room (chain op pipe p) = PipeFits room pipe × ChainsFit room p

  pub PipeFits : ℕ → RPipe → Type 0
  PipeFits room no_cmds = ⊥
  PipeFits room (stage c p) = (suc (cmd_count p) ≤ plan_max_cmds) × CmdFits room c × CmdsFit room p

  pub CmdsFit : ℕ → RPipe → Type 0
  CmdsFit room no_cmds = Unit
  CmdsFit room (stage c p) = CmdFits room c × CmdsFit room p

  pub CmdFits : ℕ → RCmd → Type 0
  CmdFits room (cmd argv redirs sub) =
      All NoNul argv
      × (length argv ≤ plan_max_args)
      × All Legal redirs
      × (length redirs ≤ plan_max_redirs)
      × (stdin_count redirs ≤ 1)
      × SubFits room argv sub

  pub SubFits : ℕ → List Bytes → Sub → Type 0
  SubFits room argv plain = argv ≢ []
  SubFits zero argv (nested p) = ⊥
  SubFits (suc room) argv (nested p) =
      (argv ≡ []) × (p ≢ no_chains) × (chain_count p ≤ plan_max_chains) × ChainsFit room p

abbrev pub ProgFits : ℕ → RProg → Type 0
ProgFits room p = (chain_count p ≤ plan_max_chains) × ChainsFit room p
