-- ===== src/Plan/Decode.antt =====
-- reference/shen-gc/zincvm.c: the plan (`RProg`, `RChain`, `RPipe`, `RCmd`, `RRedir`) and
-- `plan_decode`.
--
-- `none` is the result -1; what the source frees then is not in the model.
pub mod Fits
pub mod Encode
pub mod Redirs
pub mod Laws
pub mod ReadBack
pub mod RoundTrip
use fx_ui.Base.{
  ℕ, zero, suc, ◌+◌, Bool, true, false, ◌||◌, Option, none, some, List, [], ◌∷◌, ◌++◌, leb, ◌==◌,
  if◌then◌else◌, ◌>>=◌, guard,
}
use fx_ui.Base.Bytes.{Bytes, codes, byte_eq}
use fx_ui.Base.Int.{ℤ, pos, negsuc}
use fx_ui.Value.{Value}
use fx_ui.Value.Equal.{long_eq}
use fx_ui.Machine.State.{to_int}
use fx_ui.Plan.Tagged.{
  Probe, tdl_is_empty, tdl_collect, tdl_len, tdl_elem, td_string, td_number, td_symbol,
}

pub data RedirKind : Type 0 where
  rr_in rr_out rr_append rr_dup rr_hdoc rr_hstr : RedirKind

-- A null pointer is `none`.
pub record RRedir : Type 0 where
  pub kind : RedirKind
  pub fd : ℤ
  pub path : Option Bytes
  pub dup_fd : ℤ
  pub body : Option Bytes
  pub tmpfd : ℤ

pub data ChainOp : Type 0 where
  rop_seq rop_and rop_or : ChainOp

-- The arrays of chains and of commands, each with its length, are lists of the block; `plain` is a
-- null `sub`.
mutual
  pub data RProg : Type 0 where
    no_chains : RProg
    chain : ChainOp → RPipe → RProg → RProg

  pub data RPipe : Type 0 where
    no_cmds : RPipe
    stage : RCmd → RPipe → RPipe

  pub data RCmd : Type 0 where
    cmd : List Bytes → List RRedir → Sub → RCmd

  pub data Sub : Type 0 where
    plain : Sub
    nested : RProg → Sub

abbrev pub plan_max_chains : ℕ
plan_max_chains = 256

abbrev pub plan_max_cmds : ℕ
plan_max_cmds = 64

abbrev pub plan_max_args : ℕ
plan_max_args = 256

abbrev pub plan_max_redirs : ℕ
plan_max_redirs = 64

abbrev pub plan_max_depth : ℕ
plan_max_depth = 32

-- The calls that decode one element of an array after the other.
abbrev pub decode_all : {A : Type 0} → (Value → Option A) → List Value → Option (List A)
decode_all decode [] = some []
decode_all decode (v ∷ vs) = do a ← decode v; rest ← decode_all decode vs; some (a ∷ rest)

abbrev pub redir_kind : Bytes → Option RedirKind
redir_kind op =
    if byte_eq op (codes "in")
    then some RedirKind.rr_in
    else if byte_eq op (codes "out")
    then some RedirKind.rr_out
    else if byte_eq op (codes "append")
    then some RedirKind.rr_append
    else if byte_eq op (codes "dup")
    then some RedirKind.rr_dup
    else if byte_eq op (codes "hdoc")
    then some RedirKind.rr_hdoc
    else if byte_eq op (codes "hstr")
    then some RedirKind.rr_hstr
    else none

-- The descriptors that a redirection may name.
abbrev pub stdin_fd : ℤ → Option ℤ
stdin_fd fd = if long_eq fd (pos 0) then some (pos 0) else none

abbrev pub output_fd : ℤ → Option ℤ
output_fd fd = if long_eq fd (pos 1) || long_eq fd (pos 2) then some (to_int fd) else none

abbrev pub redir_fd : RedirKind → ℤ → Option ℤ
redir_fd RedirKind.rr_in fd = stdin_fd fd
redir_fd RedirKind.rr_hdoc fd = stdin_fd fd
redir_fd RedirKind.rr_hstr fd = stdin_fd fd
redir_fd RedirKind.rr_out fd = output_fd fd
redir_fd RedirKind.rr_append fd = output_fd fd
redir_fd RedirKind.rr_dup fd = output_fd fd

abbrev pub new_redir : RedirKind → ℤ → Option Bytes → ℤ → Option Bytes → RRedir
new_redir kind fd path dup_fd body = record {
  kind = kind;
  fd = fd;
  path = path;
  dup_fd = dup_fd;
  body = body;
  tmpfd = negsuc 0;
}

-- A here-string ends with a newline.
abbrev pub with_target : RedirKind → ℤ → Bytes → RRedir
with_target RedirKind.rr_hdoc fd s = new_redir RedirKind.rr_hdoc fd none (pos 0) (some s)
with_target RedirKind.rr_hstr fd s =
    new_redir RedirKind.rr_hstr fd none (pos 0) (some (s ++ b'\n' ∷ []))
with_target kind fd s = new_redir kind fd (some s) (pos 0) none

abbrev pub with_dup : ℤ → ℤ → RRedir
with_dup fd dup_fd = new_redir RedirKind.rr_dup fd none dup_fd none

abbrev pub with_string : RedirKind → ℤ → Value → Option RRedir
with_string kind fd tgv = do s ← td_string tgv; some (with_target kind fd s)

abbrev pub decode_target : RedirKind → ℤ → Value → Option RRedir
decode_target RedirKind.rr_dup fd tgv = do
  dfd ← td_number tgv
  _ ← guard (long_eq dfd (pos 1) || long_eq dfd (pos 2))
  some (with_dup fd dfd)
decode_target kind fd tgv = with_string kind fd tgv

unfoldable pub decode_redir : Value → Option RRedir
decode_redir v = do
  len ← tdl_len v
  _ ← guard (len == 3)
  opv ← tdl_elem v 0
  fdv ← tdl_elem v 1
  tgv ← tdl_elem v 2
  op ← td_symbol opv
  named ← td_number fdv
  kind ← redir_kind op
  fd ← redir_fd kind named
  decode_target kind fd tgv

abbrev pub stdin_count : List RRedir → ℕ
stdin_count [] = 0
stdin_count (r ∷ rs) = if long_eq r.fd (pos 0) then suc (stdin_count rs) else stdin_count rs

-- A plain command has arguments, a subshell has none.
abbrev pub decode_sub : (Value → Option RProg) → Probe → List Bytes → Value → Option Sub
decode_sub program Probe.malformed argv subv = none
decode_sub program Probe.ended [] subv = none
decode_sub program Probe.ended (a ∷ rest) subv = some Sub.plain
decode_sub program Probe.node [] subv = do p ← program subv; some (Sub.nested p)
decode_sub program Probe.node (a ∷ rest) subv = none

-- `program` decodes the program of a subshell, at the next depth.
unfoldable pub decode_cmd : (Value → Option RProg) → Value → Option RCmd
decode_cmd program v = do
  len ← tdl_len v
  _ ← guard (len == 3)
  argvv ← tdl_elem v 0
  redirsv ← tdl_elem v 1
  subv ← tdl_elem v 2
  words ← tdl_collect plan_max_args argvv
  argv ← decode_all td_string words
  els ← tdl_collect plan_max_redirs redirsv
  redirs ← decode_all decode_redir els
  sub ← decode_sub program (tdl_is_empty subv) argv subv
  _ ← guard (leb (stdin_count redirs) 1)
  some (RCmd.cmd argv redirs sub)

abbrev pub decode_cmds : (Value → Option RProg) → List Value → Option RPipe
decode_cmds program [] = some RPipe.no_cmds
decode_cmds program (v ∷ vs) = do
  c ← decode_cmd program v
  cs ← decode_cmds program vs
  some (RPipe.stage c cs)

abbrev pub some_cmds : (Value → Option RProg) → List Value → Option RPipe
some_cmds program [] = none
some_cmds program (v ∷ vs) = decode_cmds program (v ∷ vs)

unfoldable pub decode_pipeline : (Value → Option RProg) → Value → Option RPipe
decode_pipeline program v = do els ← tdl_collect plan_max_cmds v; some_cmds program els

abbrev pub chain_op : Bytes → Option ChainOp
chain_op op =
    if byte_eq op (codes "seq")
    then some ChainOp.rop_seq
    else if byte_eq op (codes "and")
    then some ChainOp.rop_and
    else if byte_eq op (codes "or")
    then some ChainOp.rop_or
    else none

unfoldable pub decode_chain : (Value → Option RProg) → Value → Option (ChainOp × RPipe)
decode_chain program v = do
  len ← tdl_len v
  _ ← guard (len == 2)
  opv ← tdl_elem v 0
  pipev ← tdl_elem v 1
  name ← td_symbol opv
  op ← chain_op name
  pipe ← decode_pipeline program pipev
  some (op, pipe)

abbrev pub decode_chains : (Value → Option RProg) → List Value → Option RProg
decode_chains program [] = some RProg.no_chains
decode_chains program (v ∷ vs) = do
  (op, pipe) ← decode_chain program v
  more ← decode_chains program vs
  some (RProg.chain op pipe more)

-- `levels` is `PLAN_MAX_DEPTH + 1 - depth`; a subshell at the maximal depth is refused.
unfoldable pub decode_program : ℕ → Value → Option RProg
decode_program zero v = none
decode_program (suc levels) v = do
  els ← tdl_collect plan_max_chains v
  decode_chains (decode_program levels) els

unfoldable pub plan_decode : Value → Option RProg
plan_decode v = decode_program (suc plan_max_depth) v
