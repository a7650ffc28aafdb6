-- ===== src/Plan/Decode/RoundTrip.antt =====
-- reference/shen-gc/zincvm.c: `plan_decode` reads the tagged tree of a plan back.
use fx_ui.Base.{
  ℕ, zero, suc, ◌≡◌, ◌≢◌, refl, ap, true, Option, some, List, [], ◌∷◌, map, arith, leb, length,
  ◌>>=◌,
}
use fx_ui.Base.Bytes.{Bytes, byte_eq}
use fx_ui.Value.{Value}
use fx_ui.Plan.Tagged.{tdl_is_empty, tdl_pop, tdl_collect, tdl_len, tdl_elem, td_string, td_symbol}
use fx_ui.Plan.Decode.{
  RRedir, RProg, no_chains, chain, RPipe, no_cmds, stage, RCmd, cmd, plain, nested, ChainOp,
  decode_redir, stdin_count, decode_cmd, decode_cmds, decode_pipeline, decode_chain, decode_chains,
  decode_program, plan_decode, plan_max_chains, plan_max_depth,
}
use fx_ui.Plan.Decode.Fits.{
  NoNul, Legal, cmd_count, chain_count, CmdsFit, CmdFits, SubFits, ChainsFit, PipeFits, ProgFits,
}
use fx_ui.Plan.Decode.Encode.{
  tagged_list, symbol_atom, op_name, string_atom, encode_redir, encode_chains, encode_cmds,
  encode_cmd, encode_plan,
}
use fx_ui.Plan.Decode.ReadBack.{
  tdl_collect-tagged_list, decode_all-map, td_string-string_atom, decode_redir-encode_redir,
}

length-encode_cmds : (p : RPipe) → length (encode_cmds p) ≡ cmd_count p
length-encode_cmds no_cmds = refl
length-encode_cmds (stage c p) = ap suc (length-encode_cmds p)

length-encode_chains : (p : RProg) → length (encode_chains p) ≡ chain_count p
length-encode_chains no_chains = refl
length-encode_chains (chain op pipe p) = ap suc (length-encode_chains p)

length-map : {A : Type 0} (f : A → Value) (xs : List A) → length (map f xs) ≡ length xs
length-map f [] = refl
length-map f (x ∷ xs) = ap suc (length-map f xs)

decode_cmd-plain :
    (program : Value → Option RProg) (room : ℕ) (argv : List Bytes) (redirs : List RRedir)
    → CmdFits room (cmd argv redirs plain)
    → decode_cmd program (encode_cmd (cmd argv redirs plain)) ≡ some (cmd argv redirs plain)
unfolding decode_cmd tdl_len tdl_elem byte_eq tdl_is_empty tdl_pop
decode_cmd-plain program room [] redirs h = absurd (h.5 refl)
decode_cmd-plain program room (a ∷ argv) redirs h =
    let few = h.1 in
    let short = h.3 in
    let single = h.4 in
    let once : leb (stdin_count redirs) 1 ≡ true = ground arith in
    let words = length-map string_atom (a ∷ argv) in
    let els = length-map encode_redir redirs in
    rw
      (
        tdl_collect-tagged_list 256 (map string_atom (a ∷ argv)) (omega (arith, few, words)),
        decode_all-map NoNul td_string string_atom (a ∷ argv) td_string-string_atom h.0,
        tdl_collect-tagged_list 64 (map encode_redir redirs) (omega (arith, short, els)),
        decode_all-map Legal decode_redir encode_redir redirs decode_redir-encode_redir h.2,
        once,
      )
      refl

SubFits-parts :
    (room : ℕ) (argv : List Bytes) (p : RProg)
    → SubFits room argv (nested p)
    → (argv ≡ []) × (p ≢ no_chains)
SubFits-parts zero argv p h = elim h [ ]
SubFits-parts (suc room) argv p h = (h.0, h.1)

module _ (room : ℕ) (program : Value → Option RProg)
    (ih : (p : RProg) → SubFits room [] (nested p) → program (encode_plan p) ≡ some p) where
  decode_cmd-nested :
      (argv : List Bytes) (redirs : List RRedir) (p : RProg)
      → p ≢ no_chains
      → CmdFits room (cmd argv redirs (nested p))
      → argv ≡ []
      → decode_cmd program (encode_cmd (cmd argv redirs (nested p)))
        ≡ some (cmd argv redirs (nested p))
  unfolding decode_cmd tdl_len tdl_elem byte_eq tdl_is_empty tdl_pop
  decode_cmd-nested argv redirs no_chains some_chain h none_left = absurd (some_chain refl)
  decode_cmd-nested (a ∷ argv) redirs (chain op pipe p) some_chain h none_left = cc
  decode_cmd-nested [] redirs (chain op pipe p) some_chain h none_left =
      let short = h.3 in
      let single = h.4 in
      let once : leb (stdin_count redirs) 1 ≡ true = ground arith in
      let els = length-map encode_redir redirs in
      rw
        (
          tdl_collect-tagged_list 256 [] (omega arith),
          tdl_collect-tagged_list 64 (map encode_redir redirs) (omega (arith, short, els)),
          decode_all-map Legal decode_redir encode_redir redirs decode_redir-encode_redir h.2,
          ih (chain op pipe p) h.5,
          once,
        )
        refl

  decode_cmd-encode_cmd : (c : RCmd) → CmdFits room c → decode_cmd program (encode_cmd c) ≡ some c
  decode_cmd-encode_cmd (cmd argv redirs plain) h = decode_cmd-plain program room argv redirs h
  decode_cmd-encode_cmd (cmd argv redirs (nested p)) h =
      let sub = SubFits-parts room argv p h.5 in decode_cmd-nested argv redirs p sub.1 h sub.0

  decode_cmds-encode_cmds :
      (p : RPipe) → CmdsFit room p → decode_cmds program (encode_cmds p) ≡ some p
  decode_cmds-encode_cmds no_cmds h = refl
  decode_cmds-encode_cmds (stage c p) h =
      rw (decode_cmd-encode_cmd c h.0, decode_cmds-encode_cmds p h.1) refl

  decode_pipeline-encode_cmds :
      (p : RPipe) → PipeFits room p → decode_pipeline program (tagged_list (encode_cmds p)) ≡ some p
  unfolding decode_pipeline
  decode_pipeline-encode_cmds no_cmds h = elim h [ ]
  decode_pipeline-encode_cmds (stage c p) h =
      let few = h.0 in
      let all = length-encode_cmds (stage c p) in
      rw
        (
          tdl_collect-tagged_list 64 (encode_cmds (stage c p)) (omega (arith, few, all)),
          decode_cmd-encode_cmd c h.1,
          decode_cmds-encode_cmds p h.2,
        )
        refl

  decode_chain-seq :
      (op : ChainOp) (pipe : RPipe)
      → PipeFits room pipe
      → decode_chain program
          (tagged_list (symbol_atom (op_name op) ∷ tagged_list (encode_cmds pipe) ∷ []))
        ≡ some (op, pipe)
  unfolding decode_chain tdl_len tdl_elem td_symbol byte_eq tdl_is_empty tdl_pop
  decode_chain-seq ChainOp.rop_seq pipe h = rw (decode_pipeline-encode_cmds pipe h) refl
  decode_chain-seq ChainOp.rop_and pipe h = rw (decode_pipeline-encode_cmds pipe h) refl
  decode_chain-seq ChainOp.rop_or pipe h = rw (decode_pipeline-encode_cmds pipe h) refl

  decode_chains-encode_chains :
      (p : RProg) → ChainsFit room p → decode_chains program (encode_chains p) ≡ some p
  decode_chains-encode_chains no_chains h = refl
  decode_chains-encode_chains (chain op pipe p) h =
      rw (decode_chain-seq op pipe h.0, decode_chains-encode_chains p h.1) refl

program_lem :
    (room : ℕ) (program : Value → Option RProg)
    → ((p : RProg) → SubFits room [] (nested p) → program (encode_plan p) ≡ some p)
    → (p : RProg) → ProgFits room p
    → tdl_collect plan_max_chains (encode_plan p) >>= decode_chains program ≡ some p
program_lem room program ih p h =
    let few = h.0 in
    let all = length-encode_chains p in
    rw
      (
        tdl_collect-tagged_list 256 (encode_chains p) (omega (arith, few, all)),
        decode_chains-encode_chains room program ih p h.1,
      )
      refl

decode_program-encode_plan :
    (room : ℕ) (p : RProg) → ProgFits room p → decode_program (suc room) (encode_plan p) ≡ some p
unfolding decode_program
decode_program-encode_plan zero p h = program_lem zero (decode_program zero) (λ q s. elim s [ ]) p h
decode_program-encode_plan (suc room) p h =
    program_lem (suc room) (decode_program (suc room))
      (λ q s. decode_program-encode_plan room q (s.2, s.3)) p h

-- Every plan that fits is decoded from its tagged tree.
pub plan_decode-encode_plan :
    (p : RProg) → ProgFits plan_max_depth p → plan_decode (encode_plan p) ≡ some p
unfolding plan_decode
plan_decode-encode_plan p h = decode_program-encode_plan plan_max_depth p h
