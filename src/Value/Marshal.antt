-- ===== src/Value/Marshal.antt =====
-- reference/shen-gc/zincvm.c: `marshal_to_tagged` and `demarshal_from_tagged`, between a value of
-- the machine and the tagged lists of the metacircular interpreter.
pub mod Laws
use fx_ui.Base.{Bool, false, ◌||◌, Option, none, some, if◌then◌else◌}
use fx_ui.Base.Bytes.{Bytes, codes, byte_eq}
use fx_ui.Value.{Value}

-- The C value `val_cons(a, val_nil())`.
abbrev pub single : Value → Value
single a = Value.cons a Value.nil

abbrev pub tag_with : Bytes → Value → Value
tag_with t v = Value.cons (Value.symbol t) (single v)

unfoldable pub marshal_to_tagged : Value → Value
marshal_to_tagged (Value.number n) = tag_with (codes "number") (Value.number n)
marshal_to_tagged (Value.symbol s) = tag_with (codes "symbol") (Value.symbol s)
marshal_to_tagged (Value.string s) = tag_with (codes "string") (Value.string s)
marshal_to_tagged (Value.boolean b) = tag_with (codes "boolean") (Value.boolean b)
marshal_to_tagged (Value.cons a b) =
    Value.cons (Value.symbol (codes "cons")) (Value.cons a (single b))
marshal_to_tagged Value.nil = Value.cons (Value.symbol (codes "cons")) Value.nil
marshal_to_tagged Value.mark = Value.symbol (codes "mark")
marshal_to_tagged v = v

-- The four tags of an atom.
unfoldable pub is_atom_tag : Bytes → Bool
is_atom_tag t =
    byte_eq t (codes "number")
    || byte_eq t (codes "symbol")
    || byte_eq t (codes "string")
    || byte_eq t (codes "boolean")

unfoldable pub is_cons_tag : Bytes → Bool
is_cons_tag t = byte_eq t (codes "cons")

abbrev pub both : Option Value → Option Value → Option Value
both (some a) (some b) = some (Value.cons a b)
both _ _ = none

-- What `[tag …]` stands for, by its tag: the second element, the pair, or itself.
abbrev pub by_tag : Bytes → Value → Option Value → Option Value → Option Value
by_tag t whole atom pair =
    if is_atom_tag t then atom else if is_cons_tag t then pair else some whole

-- `none`: the code reads `cdr.cons.car` of a value that is no cons cell, which is undefined.
unfoldable pub demarshal_from_tagged : Value → Option Value
demarshal_from_tagged (Value.symbol s) =
    if byte_eq s (codes "mark") then some Value.nil else some (Value.symbol s)
demarshal_from_tagged (Value.cons (Value.symbol t) (Value.cons x (Value.cons y z))) =
    by_tag t (Value.cons (Value.symbol t) (Value.cons x (Value.cons y z))) (some x)
      (both (demarshal_from_tagged x) (demarshal_from_tagged y))
demarshal_from_tagged (Value.cons (Value.symbol t) (Value.cons x d)) =
    by_tag t (Value.cons (Value.symbol t) (Value.cons x d)) (some x) none
demarshal_from_tagged (Value.cons (Value.symbol t) Value.nil) =
    by_tag t (Value.cons (Value.symbol t) Value.nil) none (some Value.nil)
demarshal_from_tagged (Value.cons (Value.symbol t) d) =
    by_tag t (Value.cons (Value.symbol t) d) none none
demarshal_from_tagged v = some v
