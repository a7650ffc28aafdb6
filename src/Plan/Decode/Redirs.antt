-- ===== src/Plan/Decode/Redirs.antt =====
-- reference/shen-gc/zincvm.c: the redirections and the lists that the plan's decoder lets through.
use fx_ui.Base.{
  ℕ, zero, suc, ◌≤◌, ◌≡◌, ◌≢◌, refl, ap, inl, inr, true, ◌||◌, Option, none, some, List, [], ◌∷◌,
  arith, ◌==◌, if◌then◌else◌, length, All, guard, Holds, bind-Holds, bind_with, guard-true,
  Bool-cases,
}
use fx_ui.Base.Bytes.{Bytes, codes, byte_eq}
use fx_ui.Base.Int.{ℤ, pos}
use fx_ui.Value.{Value}
use fx_ui.Value.Equal.{long_eq}
use fx_ui.Parse.Reader.{until_nul}
use fx_ui.Machine.State.{to_int}
use fx_ui.Plan.Tagged.{
  Probe, malformed, ended, node, at_probe, tdl_is_empty, tdl_pop, tdl_collect, tdl_len, tdl_elem,
  td_string, td_number, td_symbol,
}
use fx_ui.Plan.Decode.{
  RedirKind, decode_all, redir_kind, redir_fd, decode_target, with_string, decode_redir,
  with_target,
}
use fx_ui.Plan.Decode.Fits.{NoNul, IsOutput, Legal, from_stdin, to_output, to_dup}

until_nul-NoNul : (s : Bytes) → NoNul (until_nul s)
unfolding until_nul
until_nul-NoNul [] = tt
until_nul-NoNul (c ∷ cs) = elim (Bool-cases (c == 0)) [
  | inl e ↦ rw e tt
  | inr e ↦ let positive : c ≢ 0 = ground arith in rw e (positive, until_nul-NoNul cs)
]

pub td_string-NoNul : (v : Value) → Holds NoNul (td_string v)
unfolding td_string
td_string-NoNul (Value.cons (Value.symbol t) (Value.cons (Value.string s) end)) =
    elim (Bool-cases (byte_eq t (codes "string"))) [
      | inl e ↦ rw e (until_nul-NoNul s)
      | inr e ↦ rw e tt
    ]
td_string-NoNul v = tt

at_probe-Holds :
    {A : Type 0} (P : A → Type 0) (p : Probe) (a : A) (popped : Option (Value × Value))
    (rest : Value → Value → Option A)
    → P a
    → ((head tail : Value) → Holds P (rest head tail))
    → Holds P (at_probe p a popped rest)
at_probe-Holds P malformed a popped rest h k = tt
at_probe-Holds P ended a popped rest h k = h
at_probe-Holds P node a none rest h k = tt
at_probe-Holds P node a (some (head, tail)) rest h k = k head tail

pub collect-length : (room : ℕ) (v : Value) → Holds (λ els. length els ≤ room) (tdl_collect room v)
unfolding tdl_collect
collect-length zero v = at_probe-Holds _ (tdl_is_empty v) [] none _ (omega arith) (λ head tail. tt)
collect-length (suc room) v =
    at_probe-Holds _ (tdl_is_empty v) [] (tdl_pop v) _ (omega arith) λ head tail.
      bind_with _ _ (tdl_collect room tail) _ (collect-length room tail) λ more h. omega arith

pub decode_all-Holds :
    {A : Type 0} (P : A → Type 0) (decode : Value → Option A) (vs : List Value)
    → ((v : Value) → Holds P (decode v))
    → Holds (λ out. All P out × (length out ≡ length vs)) (decode_all decode vs)
decode_all-Holds P decode [] h = (tt, refl)
decode_all-Holds P decode (v ∷ vs) h = bind_with P _ (decode v) _ (h v) λ a pa.
    bind_with _ _ (decode_all decode vs) _ (decode_all-Holds P decode vs h)
      λ out po. ((pa, po.0), ap suc po.1)

pub long_eq→eq : (a b : ℤ) → long_eq a b ≡ true → a ≡ b
unfolding long_eq
long_eq→eq a b h = ground arith

either_eq : (fd : ℤ) → (long_eq fd (pos 1) || long_eq fd (pos 2)) ≡ true → IsOutput fd
either_eq fd h = elim (Bool-cases (long_eq fd (pos 1))) [
  | inl e ↦ inl (long_eq→eq fd (pos 1) e)
  | inr e ↦ inr (long_eq→eq fd (pos 2) (rw e at h))
]

-- The descriptor that goes with an operator.
abbrev FdFits : RedirKind → ℤ → Type 0
FdFits RedirKind.rr_in fd = fd ≡ pos 0
FdFits RedirKind.rr_hdoc fd = fd ≡ pos 0
FdFits RedirKind.rr_hstr fd = fd ≡ pos 0
FdFits _ fd = IsOutput fd

IsOutput-FdFits :
    (fd : ℤ)
    → Holds IsOutput (if long_eq fd (pos 1) || long_eq fd (pos 2) then some (to_int fd) else none)
unfolding to_int
IsOutput-FdFits fd = elim (Bool-cases (long_eq fd (pos 1) || long_eq fd (pos 2))) [
  | inr e ↦ rw e tt
  | inl e ↦
      rw e (elim (either_eq fd e) [ inl one ↦ rw one (inl refl) | inr two ↦ rw two (inr refl) ])
]

stdin-FdFits : (fd : ℤ) → Holds (λ z. z ≡ pos 0) (if long_eq fd (pos 0) then some (pos 0) else none)
stdin-FdFits fd = elim (Bool-cases (long_eq fd (pos 0))) [ inl e ↦ rw e refl | inr e ↦ rw e tt ]

redir_fd-FdFits : (k : RedirKind) (fd : ℤ) → Holds (FdFits k) (redir_fd k fd)
redir_fd-FdFits RedirKind.rr_in fd = stdin-FdFits fd
redir_fd-FdFits RedirKind.rr_hdoc fd = stdin-FdFits fd
redir_fd-FdFits RedirKind.rr_hstr fd = stdin-FdFits fd
redir_fd-FdFits RedirKind.rr_out fd = IsOutput-FdFits fd
redir_fd-FdFits RedirKind.rr_append fd = IsOutput-FdFits fd
redir_fd-FdFits RedirKind.rr_dup fd = IsOutput-FdFits fd

with_string-Legal :
    (k : RedirKind) (fd : ℤ) (v : Value)
    → ((s : Bytes) → NoNul s → Legal (with_target k fd s))
    → Holds Legal (with_string k fd v)
with_string-Legal k fd v h = bind_with NoNul Legal (td_string v) _ (td_string-NoNul v) h

decode_target-Legal :
    (k : RedirKind) (fd : ℤ) (v : Value) → FdFits k fd → Holds Legal (decode_target k fd v)
decode_target-Legal RedirKind.rr_in fd v h =
    with_string-Legal RedirKind.rr_in fd v λ s n. from_stdin RedirKind.rr_in s tt n (rw h refl)
decode_target-Legal RedirKind.rr_hdoc fd v h =
    with_string-Legal RedirKind.rr_hdoc fd v λ s n. from_stdin RedirKind.rr_hdoc s tt n (rw h refl)
decode_target-Legal RedirKind.rr_hstr fd v h =
    with_string-Legal RedirKind.rr_hstr fd v λ s n. from_stdin RedirKind.rr_hstr s tt n (rw h refl)
decode_target-Legal RedirKind.rr_out fd v h =
    with_string-Legal RedirKind.rr_out fd v λ s n. to_output RedirKind.rr_out fd s tt h n refl
decode_target-Legal RedirKind.rr_append fd v h =
    with_string-Legal RedirKind.rr_append fd v λ s n. to_output RedirKind.rr_append fd s tt h n refl
decode_target-Legal RedirKind.rr_dup fd v h = bind-Holds Legal (td_number v) _ λ dfd e.
    bind-Holds Legal (guard (long_eq dfd (pos 1) || long_eq dfd (pos 2))) _
      λ u g. to_dup fd dfd h (either_eq dfd (guard-true _ u g)) refl

pub decode_redir-Legal : (v : Value) → Holds Legal (decode_redir v)
unfolding decode_redir
decode_redir-Legal v = bind-Holds Legal (tdl_len v) _ λ len _.
    bind-Holds Legal (guard (len == 3)) _ λ _ _. bind-Holds Legal (tdl_elem v 0) _ λ opv _.
      bind-Holds Legal (tdl_elem v 1) _ λ fdv _. bind-Holds Legal (tdl_elem v 2) _ λ tgv _.
        bind-Holds Legal (td_symbol opv) _ λ op _. bind-Holds Legal (td_number fdv) _ λ named _.
          bind-Holds Legal (redir_kind op) _ λ kind _.
            bind_with (FdFits kind) Legal (redir_fd kind named) _ (redir_fd-FdFits kind named)
              λ fd h. decode_target-Legal kind fd tgv h
