-- ===== src/Prims/Dispatch.antt =====
-- reference/shen-gc/zincvm.c: `exec_primitive` as a whole, and the machine that runs on it.
--
-- The source branches on the first byte of the name and then compares whole names; here that is one
-- table. The primitives on files, processes and the clock are `Outside.other`.
pub mod Laws
use fx_ui.Base.{
  ℕ, zero, suc, ◌^◌, Bool, true, false, ◌||◌, Option, none, some, List, [], ◌∷◌, if◌then◌else◌,
}
use fx_ui.Base.Bytes.{Bytes, codes, byte_eq}
use fx_ui.Base.Int.{pos}
use fx_ui.Value.{Value, Values, Code}
use fx_ui.Machine.State.{PrimResult, Host, Outcome, exited}
use fx_ui.Machine.Loop.{vm_exec_env}
use fx_ui.Prims.{prim_append, prim_reverse, prim_length, prim_element, prim_assoc}
use fx_ui.Prims.Texts.{
  prim_cn, prim_c_strlen, prim_char_code, prim_n_to_string, prim_string_to_n, prim_hdstr,
  prim_tlstr, prim_pos, prim_substring, prim_intern, prim_str_to_bytes, prim_bytes_to_string,
  prim_error_to_string, is_variable,
}
use fx_ui.Prims.Pairs.{
  is_boolean, is_cons, is_error, is_nil, is_function, is_number, is_symbol, is_string, is_stream,
  is_vector, prim_test, prim_cons, prim_fst, prim_snd, prim_hd, prim_tl, prim_equal, prim_nth,
  prim_fail,
}
use fx_ui.Prims.Numbers.{
  prim_add, prim_subtract, prim_multiply, prim_divide, prim_compare, less, less_equal, greater,
  greater_equal,
}
use fx_ui.Prims.Print.{prim_str}
use fx_ui.Prims.Runtime.{
  Runtime, Outside, Prim, prim_absvector, prim_address_to, prim_from_address, prim_set, prim_value,
  prim_gensym, prim_newvar,
}
use fx_ui.Prims.Streams.{prim_open, prim_read_byte, prim_close}
use fx_ui.Prims.Control.{Exec, prim_simple_error, prim_trap_error, prim_eval_kl}

-- The names that `Outside.other` stands for.
abbrev pub outside_names : List Bytes
outside_names =
    codes "cd"
    ∷ codes "exec-plan"
    ∷ codes "get-time"
    ∷ codes "getcwd"
    ∷ codes "getpid"
    ∷ codes "getenv"
    ∷ codes "glob"
    ∷ codes "kill"
    ∷ codes "read-file-as-string"
    ∷ codes "setenv"
    ∷ codes "stinput"
    ∷ codes "stoutput"
    ∷ codes "wait"
    ∷ codes "write-byte"
    ∷ []

unfoldable pub is_named : List Bytes → Bytes → Bool
is_named [] name = false
is_named (n ∷ ns) name = byte_eq n name || is_named ns name

-- By then the counter of the machine has overflowed, and the run ended.
abbrev pub max_rounds : ℕ
max_rounds = 2 ^ 31

module _ {E : Type 0} where
  -- Any argument but the number 0 is an unknown primitive.
  unfoldable pub prim_emptylist : Value → Prim E
  prim_emptylist acc w (Value.number (pos zero) ∷ st) = PrimResult.primed Value.nil st w
  prim_emptylist acc w (v ∷ st) = PrimResult.refused acc w
  prim_emptylist acc w [] = PrimResult.died

  unfoldable pub prim_table :
      Outside E → Exec E → Option Bool → List Bytes → Value → List (Bytes × Prim E)
  prim_table out exec catching prims acc =
      (codes "absvector", prim_absvector)
      ∷ (codes "absvector?", λ w. prim_test w is_vector)
      ∷ (codes "address->", prim_address_to)
      ∷ (codes "assoc", λ w. prim_assoc w w.store)
      ∷ (codes "append", λ w. prim_append w)
      ∷ (codes "boolean?", λ w. prim_test w is_boolean)
      ∷ (codes "cons", λ w. prim_cons w)
      ∷ (codes "cons?", λ w. prim_test w is_cons)
      ∷ (codes "cn", λ w. prim_cn w)
      ∷ (codes "close", prim_close out acc)
      ∷ (codes "c-strlen", λ w. prim_c_strlen w)
      ∷ (codes "char-code", λ w. prim_char_code w)
      ∷ (codes "error?", λ w. prim_test w is_error)
      ∷ (codes "error-to-string", λ w. prim_error_to_string w)
      ∷ (codes "element?", λ w. prim_element w w.store)
      ∷ (codes "eval-kl", prim_eval_kl exec prims)
      ∷ (codes "emptylist", prim_emptylist acc)
      ∷ (codes "empty?", λ w. prim_test w is_nil)
      ∷ (codes "fst", λ w. prim_fst w)
      ∷ (codes "function?", λ w. prim_test w is_function)
      ∷ (codes "fail", λ w. prim_fail w)
      ∷ (codes "gensym", prim_gensym)
      ∷ (codes "hd", λ w. prim_hd w)
      ∷ (codes "hdstr", λ w. prim_hdstr w)
      ∷ (codes "intern", λ w. prim_intern w)
      ∷ (codes "length", λ w. prim_length w)
      ∷ (codes "n->string", λ w. prim_n_to_string w)
      ∷ (codes "number?", λ w. prim_test w is_number)
      ∷ (codes "newvar", prim_newvar)
      ∷ (codes "nth", λ w. prim_nth w)
      ∷ (codes "open", prim_open out acc)
      ∷ (codes "pos", λ w. prim_pos w catching)
      ∷ (codes "read-byte", prim_read_byte out acc)
      ∷ (codes "reverse", λ w. prim_reverse w)
      ∷ (codes "symbol?", λ w. prim_test w is_symbol)
      ∷ (codes "string?", λ w. prim_test w is_string)
      ∷ (codes "simple-error", prim_simple_error)
      ∷ (codes "str", λ w. prim_str w)
      ∷ (codes "stream?", λ w. prim_test w is_stream)
      ∷ (codes "set", prim_set)
      ∷ (codes "string->n", λ w. prim_string_to_n w)
      ∷ (codes "shen.fail!", λ w. prim_fail w)
      ∷ (codes "snd", λ w. prim_snd w)
      ∷ (codes "substring", λ w. prim_substring w)
      ∷ (codes "shen.str->bytes", λ w. prim_str_to_bytes w)
      ∷ (codes "shen.bytes->string", λ w. prim_bytes_to_string w)
      ∷ (codes "tl", λ w. prim_tl w)
      ∷ (codes "trap-error", prim_trap_error exec catching)
      ∷ (codes "tlstr", λ w. prim_tlstr w)
      ∷ (codes "value", prim_value)
      ∷ (codes "variable?", λ w. prim_test w is_variable)
      ∷ (codes "+", λ w. prim_add w)
      ∷ (codes "-", λ w. prim_subtract w)
      ∷ (codes "*", λ w. prim_multiply w)
      ∷ (codes "/", λ w. prim_divide w)
      ∷ (codes "=", λ w. prim_equal w w.store)
      ∷ (codes "<", λ w. prim_compare w less)
      ∷ (codes "<=", λ w. prim_compare w less_equal)
      ∷ (codes "<-address", prim_from_address)
      ∷ (codes ">", λ w. prim_compare w greater)
      ∷ (codes ">=", λ w. prim_compare w greater_equal)
      ∷ (codes "@p", λ w. prim_cons w)
      ∷ []

  unfoldable pub find_prim : Bytes → List (Bytes × Prim E) → Option (Prim E)
  find_prim name [] = none
  find_prim name ((k, p) ∷ ps) =
      let rest = find_prim name ps in if byte_eq k name then some p else rest

  -- A name that is in no table is unknown: -1, with the accumulator as it was.
  abbrev pub call_found :
      Outside E → Bytes → Value → List Value → Runtime E → Option (Prim E) → PrimResult (Runtime E)
  call_found out name acc st w (some p) = p w st
  call_found out name acc st w none =
      if is_named outside_names name then out.other name acc st w else PrimResult.refused acc w

  unfoldable pub exec_primitive :
      Outside E
      → Exec E
      → Option Bool
      → List Bytes
      → Bytes
      → Value
      → List Value
      → Runtime E
      → PrimResult (Runtime E)
  exec_primitive out exec catching prims name acc st w =
      call_found out name acc st w (find_prim name (prim_table out exec catching prims acc))

  abbrev pub host_of : Outside E → Exec E → List Bytes → Option Bool → Host (Runtime E)
  host_of out exec prims catching = record {
    exec_primitive = exec_primitive out exec catching prims;
    prim_names = prims;
    globals = λ w. w.defuns;
    catching = catching;
  }

  -- `trap-error` and `eval-kl` run a machine inside the machine: `depth` such calls fit on the C
  -- stack, and one more ends the program.
  unfoldable pub exec_at : Outside E → List Bytes → ℕ → ℕ → Exec E
  exec_at out prims limit zero catching code env w = some exited
  exec_at out prims limit (suc depth) catching code env w =
      vm_exec_env (host_of out (exec_at out prims limit depth) prims catching) limit max_rounds code
        env w
