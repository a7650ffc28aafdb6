-- ===== src/Prims/Dispatch/Laws.antt =====
-- reference/shen-gc/zincvm.c: the primitives that prims.def names are there, and the table finds each
-- of them by its name.
use fx_ui.Base.{
  ◌≡◌, ◌⊎◌, inl, inr, refl, Bool, true, false, ◌||◌, Option, none, some, List, [], ◌∷◌,
  if◌then◌else◌, Bool-cases,
}
use fx_ui.Base.Bytes.{Bytes, codes, byte_eq, byte_eq→eq}
use fx_ui.Value.{Value}
use fx_ui.Table.DefunTable.{exec_primitive_valid}
use fx_ui.Prims.Runtime.{Outside, Prim}
use fx_ui.Prims.Control.{Exec}
use fx_ui.Prims.Dispatch.{outside_names, is_named, find_prim, prim_table}

-- prims.def, in its order.
abbrev pub prims_def : List Bytes
prims_def =
    codes "assoc"
    ∷ codes "cons"
    ∷ codes "hd"
    ∷ codes "tl"
    ∷ codes "="
    ∷ codes "empty?"
    ∷ codes "reverse"
    ∷ codes "append"
    ∷ codes "+"
    ∷ codes "/"
    ∷ codes "*"
    ∷ codes "-"
    ∷ codes ">"
    ∷ codes "<"
    ∷ codes ">="
    ∷ codes "<="
    ∷ codes "number?"
    ∷ codes "string?"
    ∷ codes "symbol?"
    ∷ codes "boolean?"
    ∷ codes "cons?"
    ∷ codes "absvector?"
    ∷ codes "function?"
    ∷ codes "error?"
    ∷ codes "stream?"
    ∷ codes "variable?"
    ∷ codes "pos"
    ∷ codes "tlstr"
    ∷ codes "hdstr"
    ∷ codes "cn"
    ∷ codes "str"
    ∷ codes "string->n"
    ∷ codes "n->string"
    ∷ codes "c-strlen"
    ∷ codes "char-code"
    ∷ codes "substring"
    ∷ codes "shen.str->bytes"
    ∷ codes "shen.bytes->string"
    ∷ codes "absvector"
    ∷ codes "address->"
    ∷ codes "<-address"
    ∷ codes "emptylist"
    ∷ codes "write-byte"
    ∷ codes "read-byte"
    ∷ codes "read-file-as-string"
    ∷ codes "open"
    ∷ codes "close"
    ∷ codes "trap-error"
    ∷ codes "simple-error"
    ∷ codes "error-to-string"
    ∷ codes "eval-kl"
    ∷ codes "get-time"
    ∷ codes "intern"
    ∷ codes "set"
    ∷ codes "value"
    ∷ codes "@p"
    ∷ codes "fst"
    ∷ codes "snd"
    ∷ codes "gensym"
    ∷ codes "newvar"
    ∷ codes "element?"
    ∷ codes "shen.fail!"
    ∷ codes "exec-plan"
    ∷ codes "wait"
    ∷ codes "kill"
    ∷ codes "cd"
    ∷ codes "getcwd"
    ∷ codes "getpid"
    ∷ codes "getenv"
    ∷ codes "setenv"
    ∷ codes "glob"
    ∷ []

module _ {E : Type 0} where
  abbrev pub is_known : Option (Prim E) → Bool
  is_known none = false
  is_known (some p) = true

  found_some : (o : Option (Prim E)) → is_known o ≡ true → (p : Prim E) × (o ≡ some p)
  found_some none h = cc
  found_some (some p) h = (p, refl)

  module _ (out : Outside E) (exec : Exec E) (catching : Option Bool) (prims : List Bytes)
      (acc : Value) where
    abbrev is_handled : Bytes → Bool
    is_handled name =
        is_known (find_prim name (prim_table out exec catching prims acc))
        || is_named outside_names name

    all_handled : List Bytes → Bool
    all_handled [] = true
    all_handled (n ∷ ns) = if is_handled n then all_handled ns else false

    handled_in :
        (ns : List Bytes) (name : Bytes)
        → all_handled ns ≡ true
        → exec_primitive_valid ns name ≡ true
        → is_handled name ≡ true
    unfolding all_handled exec_primitive_valid
    handled_in [] name h e = cc
    handled_in (n ∷ ns) name h e = elim (Bool-cases (is_handled n)) [
      | inr f ↦ absurd (cc (rw f at h))
      | inl f ↦ elim (Bool-cases (byte_eq n name)) [
        | inl g ↦ rw (← byte_eq→eq n name g) f
        | inr g ↦ handled_in ns name (rw f at h) (rw g at e)
      ]
    ]

    names_handled : all_handled prims_def ≡ true
    unfolding all_handled find_prim prim_table is_named byte_eq
    names_handled = refl

    -- Every name that `exec_primitive_valid` accepts, from prims.def, is one that `exec_primitive`
    -- knows: none of them ends as an unknown primitive.
    pub exec_primitive_valid-found :
        (name : Bytes)
        → exec_primitive_valid prims_def name ≡ true
        → ((p : Prim E) × (find_prim name (prim_table out exec catching prims acc) ≡ some p))
          ⊎ (is_named outside_names name ≡ true)
    exec_primitive_valid-found name h =
        let known = handled_in prims_def name names_handled h in
        elim (Bool-cases (is_known (find_prim name (prim_table out exec catching prims acc)))) [
          | inl e ↦ inl (found_some (find_prim name (prim_table out exec catching prims acc)) e)
          | inr e ↦ inr (rw e at known)
        ]
