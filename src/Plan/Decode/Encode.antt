-- ===== src/Plan/Decode/Encode.antt =====
-- The tagged tree of a plan, as the interpreter builds it (the grammar above `plan_decode` in
-- reference/shen-gc/zincvm.c): Program = list of [op pipeline], Pipeline = list of
-- [argv redirs sub], Redir = [op fd target].
use fx_ui.Base.{Option, none, some, List, [], ◌∷◌, map}
use fx_ui.Base.Bytes.{Bytes, codes}
use fx_ui.Base.Int.{ℤ}
use fx_ui.Value.{Value}
use fx_ui.Plan.Decode.{
  RedirKind, RRedir, ChainOp, RProg, no_chains, chain, RPipe, no_cmds, stage, RCmd, cmd, Sub, plain,
  nested,
}

abbrev pub tagged_list : List Value → Value
tagged_list [] = Value.cons (Value.symbol (codes "cons")) Value.nil
tagged_list (v ∷ vs) =
    Value.cons (Value.symbol (codes "cons")) (Value.cons v (Value.cons (tagged_list vs) Value.nil))

abbrev pub tagged_atom : Bytes → Value → Value
tagged_atom tag v = Value.cons (Value.symbol tag) (Value.cons v Value.nil)

abbrev pub symbol_atom : Bytes → Value
symbol_atom s = tagged_atom (codes "symbol") (Value.symbol s)

abbrev pub number_atom : ℤ → Value
number_atom z = tagged_atom (codes "number") (Value.number z)

abbrev pub string_atom : Bytes → Value
string_atom s = tagged_atom (codes "string") (Value.string s)

abbrev pub kind_name : RedirKind → Bytes
kind_name RedirKind.rr_in = codes "in"
kind_name RedirKind.rr_out = codes "out"
kind_name RedirKind.rr_append = codes "append"
kind_name RedirKind.rr_dup = codes "dup"
kind_name RedirKind.rr_hdoc = codes "hdoc"
kind_name RedirKind.rr_hstr = codes "hstr"

abbrev pub op_name : ChainOp → Bytes
op_name ChainOp.rop_seq = codes "seq"
op_name ChainOp.rop_and = codes "and"
op_name ChainOp.rop_or = codes "or"

abbrev pub or_empty : Option Bytes → Bytes
or_empty none = []
or_empty (some s) = s

-- A here-string without its newline.
abbrev pub drop_last : Bytes → Bytes
drop_last [] = []
drop_last (c ∷ []) = []
drop_last (c ∷ d ∷ s) = c ∷ drop_last (d ∷ s)

abbrev pub encode_target : RedirKind → RRedir → Value
encode_target RedirKind.rr_dup r = number_atom r.dup_fd
encode_target RedirKind.rr_hdoc r = string_atom (or_empty r.body)
encode_target RedirKind.rr_hstr r = string_atom (drop_last (or_empty r.body))
encode_target kind r = string_atom (or_empty r.path)

abbrev pub encode_redir : RRedir → Value
encode_redir r =
    tagged_list (symbol_atom (kind_name r.kind) ∷ number_atom r.fd ∷ encode_target r.kind r ∷ [])

abbrev mutual
  pub encode_chains : RProg → List Value
  encode_chains no_chains = []
  encode_chains (chain op pipe p) =
      tagged_list (symbol_atom (op_name op) ∷ tagged_list (encode_cmds pipe) ∷ []) ∷ encode_chains p

  pub encode_cmds : RPipe → List Value
  encode_cmds no_cmds = []
  encode_cmds (stage c p) = encode_cmd c ∷ encode_cmds p

  pub encode_cmd : RCmd → Value
  encode_cmd (cmd argv redirs sub) = tagged_list (
      tagged_list (map string_atom argv)
      ∷ tagged_list (map encode_redir redirs)
      ∷ encode_sub sub
      ∷ [])

  pub encode_sub : Sub → Value
  encode_sub plain = tagged_list []
  encode_sub (nested p) = tagged_list (encode_chains p)

abbrev pub encode_plan : RProg → Value
encode_plan p = tagged_list (encode_chains p)
