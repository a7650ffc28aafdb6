-- ===== src/Tests/Plans.antt =====
-- Runs of the plan decoder and of `run_program`.
use fx_ui.Base.{ℕ, ◌+◌, ◌*◌, ◌≡◌, refl, true, false, some, [], ◌∷◌}
use fx_ui.Base.Bytes.{codes, byte_eq}
use fx_ui.Base.Int.{pos}
use fx_ui.Value.Equal.{long_eq}
use fx_ui.Machine.State.{to_int}
use fx_ui.Parse.Reader.{until_nul}
use fx_ui.Plan.Tagged.{
  tdl_collect, tdl_len, tdl_elem, tdl_is_empty, tdl_pop, td_string, td_number, td_symbol,
}
use fx_ui.Plan.Decode.{
  decode_program, decode_chain, decode_pipeline, decode_cmd, decode_redir, RProg, no_chains, chain,
  RPipe, no_cmds, stage, cmd, plain, nested, ChainOp, RedirKind, RRedir, with_target, plan_decode,
  plan_max_depth,
}
use fx_ui.Plan.Decode.Fits.{ProgFits}
use fx_ui.Plan.Decode.Encode.{encode_plan}
use fx_ui.Plan.Decode.Laws.{plan_decode-ProgFits}
use fx_ui.Plan.Decode.RoundTrip.{plan_decode-encode_plan}
use fx_ui.Plan.Run.{Kernel, exited, run_pipeline, run_stages, open_pipes, fork_stages, run_program}
use fx_ui.Plan.Run.Resources.{Balanced, run_program-Balanced}
use fx_ui.Plan.Run.Lists.{joined_after, list_code, run_program-joined}

abbrev to_file : RRedir
to_file = with_target RedirKind.rr_out (pos 1) (codes "f")

abbrev list_files : RPipe
list_files = stage (cmd (codes "ls" ∷ []) (to_file ∷ []) plain) no_cmds

-- `ls >f && (ls >f)`
abbrev plan : RProg
plan = chain ChainOp.rop_seq list_files (
    chain ChainOp.rop_and
      (stage (cmd [] [] (nested (chain ChainOp.rop_seq list_files no_chains))) no_cmds) no_chains)

plan_decode-plan : plan_decode (encode_plan plan) ≡ some plan
unfolding plan_decode decode_program decode_chain decode_pipeline decode_cmd decode_redir
    tdl_collect tdl_len tdl_elem tdl_is_empty tdl_pop td_string td_number td_symbol byte_eq long_eq
    until_nul to_int
plan_decode-plan = refl

plan_decode-ProgFits_example : ProgFits plan_max_depth plan
plan_decode-ProgFits_example = plan_decode-ProgFits (encode_plan plan) plan plan_decode-plan

plan_decode-encode_plan_example : plan_decode (encode_plan plan) ≡ some plan
plan_decode-encode_plan_example =
    plan_decode-encode_plan plan (plan_decode-ProgFits (encode_plan plan) plan plan_decode-plan)

-- The first child is 100, and so on; each ends with 0.
abbrev kernel : ℕ → Kernel
kernel i = record {
  pipe = λ j. some (10 + 2 * j, 11 + 2 * j);
  fork = λ j. some (100 + j);
  waitpid = λ pid. exited 0;
  wired = λ p. true;
  is_child_builtin = λ name. false;
  run_builtin = λ c. pos 0;
}

run_program-Balanced_example : Balanced (run_program kernel false plan).1
run_program-Balanced_example = run_program-Balanced kernel false plan

run_program-joined_example :
    (run_program kernel false (joined_after list_files ChainOp.rop_or (list_files ∷ []))).0
    ≡ pos (list_code ChainOp.rop_or 0 (0 ∷ []))
unfolding run_pipeline run_stages open_pipes fork_stages
run_program-joined_example =
    run_program-joined kernel false ChainOp.rop_or list_files (list_files ∷ []) 0 (0 ∷ [])
      (refl, (refl, tt))
