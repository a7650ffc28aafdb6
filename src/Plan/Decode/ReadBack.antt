-- ===== src/Plan/Decode/ReadBack.antt =====
-- reference/shen-gc/zincvm.c: the lists and redirections of a plan are read back.
use fx_ui.Base.{
  ℕ, zero, suc, ◌≤◌, ◌≡◌, refl, ap, inl, inr, Option, some, List, [], ◌∷◌, ◌++◌, map, arith, length,
  All,
}
use fx_ui.Base.Bytes.{Bytes, byte_eq}
use fx_ui.Base.Int.{ℤ, pos}
use fx_ui.Value.{Value}
use fx_ui.Value.Equal.{long_eq}
use fx_ui.Parse.Atoms.{until_nul-eq}
use fx_ui.Machine.State.{to_int}
use fx_ui.Plan.Tagged.{
  tdl_is_empty, tdl_pop, tdl_collect, tdl_len, tdl_elem, td_string, td_number, td_symbol,
}
use fx_ui.Plan.Decode.{RedirKind, RRedir, decode_all, decode_redir, with_target, with_dup}
use fx_ui.Plan.Decode.Fits.{
  NoNul, IsOutput, TakesStdin, TakesOutput, Legal, from_stdin, to_output, to_dup,
}
use fx_ui.Plan.Decode.Encode.{tagged_list, string_atom, encode_redir, drop_last}

pub tdl_collect-tagged_list :
    (room : ℕ) (vs : List Value) → length vs ≤ room → tdl_collect room (tagged_list vs) ≡ some vs
unfolding tdl_collect tdl_is_empty tdl_pop byte_eq
tdl_collect-tagged_list zero [] h = refl
tdl_collect-tagged_list (suc room) [] h = refl
tdl_collect-tagged_list zero (v ∷ vs) h = elim h [ ]
tdl_collect-tagged_list (suc room) (v ∷ vs) h =
    rw (tdl_collect-tagged_list room vs (omega arith)) refl

pub decode_all-map :
    {A : Type 0} (P : A → Type 0) (decode : Value → Option A) (encode : A → Value) (xs : List A)
    → ((x : A) → P x → decode (encode x) ≡ some x)
    → All P xs
    → decode_all decode (map encode xs) ≡ some xs
decode_all-map P decode encode [] h p = refl
decode_all-map P decode encode (x ∷ xs) h p =
    rw (h x p.0, decode_all-map P decode encode xs h p.1) refl

pub td_string-string_atom : (s : Bytes) → NoNul s → td_string (string_atom s) ≡ some s
unfolding td_string byte_eq
td_string-string_atom s h = rw (until_nul-eq s h) refl

drop_last-append : (s : Bytes) (c : ℕ) → drop_last (s ++ c ∷ []) ≡ s
drop_last-append [] c = refl
drop_last-append (d ∷ []) c = refl
drop_last-append (d ∷ e ∷ s) c = ap (λ l. d ∷ l) (drop_last-append (e ∷ s) c)

decode_redir-with_stdin :
    (k : RedirKind) (s : Bytes)
    → TakesStdin k
    → NoNul s
    → decode_redir (encode_redir (with_target k (pos 0) s)) ≡ some (with_target k (pos 0) s)
unfolding decode_redir tdl_len tdl_elem td_symbol td_number byte_eq tdl_is_empty tdl_pop long_eq
decode_redir-with_stdin RedirKind.rr_in s t n = rw (td_string-string_atom s n) refl
decode_redir-with_stdin RedirKind.rr_hdoc s t n = rw (td_string-string_atom s n) refl
decode_redir-with_stdin RedirKind.rr_hstr s t n =
    rw (drop_last-append s b'\n', td_string-string_atom s n) refl
decode_redir-with_stdin RedirKind.rr_out s t n = elim t [ ]
decode_redir-with_stdin RedirKind.rr_append s t n = elim t [ ]
decode_redir-with_stdin RedirKind.rr_dup s t n = elim t [ ]

decode_redir-with_output :
    (k : RedirKind) (fd : ℤ) (s : Bytes)
    → TakesOutput k
    → IsOutput fd
    → NoNul s
    → decode_redir (encode_redir (with_target k fd s)) ≡ some (with_target k fd s)
unfolding decode_redir tdl_len tdl_elem td_symbol td_number byte_eq tdl_is_empty tdl_pop long_eq
    to_int
decode_redir-with_output RedirKind.rr_out fd s t (inl e) n = rw (e, td_string-string_atom s n) refl
decode_redir-with_output RedirKind.rr_out fd s t (inr e) n = rw (e, td_string-string_atom s n) refl
decode_redir-with_output RedirKind.rr_append fd s t (inl e) n =
    rw (e, td_string-string_atom s n) refl
decode_redir-with_output RedirKind.rr_append fd s t (inr e) n =
    rw (e, td_string-string_atom s n) refl
decode_redir-with_output RedirKind.rr_in fd s t o n = elim t [ ]
decode_redir-with_output RedirKind.rr_hdoc fd s t o n = elim t [ ]
decode_redir-with_output RedirKind.rr_hstr fd s t o n = elim t [ ]
decode_redir-with_output RedirKind.rr_dup fd s t o n = elim t [ ]

decode_redir-with_dup :
    (fd dup_fd : ℤ)
    → IsOutput fd
    → IsOutput dup_fd
    → decode_redir (encode_redir (with_dup fd dup_fd)) ≡ some (with_dup fd dup_fd)
unfolding decode_redir tdl_len tdl_elem td_symbol td_number byte_eq tdl_is_empty tdl_pop long_eq
    to_int
decode_redir-with_dup fd dup_fd (inl e) (inl f) = rw (e, f) refl
decode_redir-with_dup fd dup_fd (inl e) (inr f) = rw (e, f) refl
decode_redir-with_dup fd dup_fd (inr e) (inl f) = rw (e, f) refl
decode_redir-with_dup fd dup_fd (inr e) (inr f) = rw (e, f) refl

pub decode_redir-encode_redir : (r : RRedir) → Legal r → decode_redir (encode_redir r) ≡ some r
decode_redir-encode_redir r (from_stdin k s t n e) = rw e (decode_redir-with_stdin k s t n)
decode_redir-encode_redir r (to_output k fd s t o n e) =
    rw e (decode_redir-with_output k fd s t o n)
decode_redir-encode_redir r (to_dup fd dup_fd o d e) = rw e (decode_redir-with_dup fd dup_fd o d)
