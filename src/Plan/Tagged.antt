-- ===== src/Plan/Tagged.antt =====
-- reference/shen-gc/zincvm.c: the `tdl_*` and `td_*` readers of tagged lists and atoms.
--
-- `none` is the result -1. The pointers of a cons cell are not null.
use fx_ui.Base.{
  ℕ, zero, suc, ◌≡◌, refl, Option, none, some, List, [], ◌∷◌, if◌then◌else◌, ◌>>=◌, Bool-cases, inl,
  inr,
}
use fx_ui.Base.Bytes.{Bytes, codes, byte_eq}
use fx_ui.Base.Int.{ℤ}
use fx_ui.Value.{Value}
use fx_ui.Parse.Reader.{until_nul}

-- -1, 1 and 0.
pub data Probe : Type 0 where
  malformed ended node : Probe

abbrev pub probe_cdr : Value → Probe
probe_cdr Value.nil = Probe.ended
probe_cdr (Value.cons a b) = Probe.node
probe_cdr v = Probe.malformed

unfoldable pub tdl_is_empty : Value → Probe
tdl_is_empty (Value.cons (Value.symbol s) cdr) =
    if byte_eq s (codes "cons") then probe_cdr cdr else Probe.malformed
tdl_is_empty v = Probe.malformed

-- The head, and what the wrapper behind it holds.
abbrev pub unwrap : Value → Option (Value × Value)
unwrap (Value.cons a (Value.cons head (Value.cons rest end))) = some (head, rest)
unwrap v = none

abbrev pub pop_probed : Probe → Value → Option (Value × Value)
pop_probed Probe.node v = unwrap v
pop_probed _ v = none

unfoldable pub tdl_pop : Value → Option (Value × Value)
unfolding tdl_is_empty
tdl_pop v = pop_probed (tdl_is_empty v) v

-- What a loop over a tagged list does at a value, with `rest` for the loop on the tail.
abbrev pub at_probe :
    {A : Type 0} → Probe → A → Option (Value × Value) → (Value → Value → Option A) → Option A
at_probe Probe.malformed a popped rest = none
at_probe Probe.ended a popped rest = some a
at_probe Probe.node a popped rest = do (head, tail) ← popped; rest head tail

-- `limit - n` places are left.
unfoldable pub tdl_collect : ℕ → Value → Option (List Value)
tdl_collect zero v = at_probe (tdl_is_empty v) [] none (λ head tail. none)
tdl_collect (suc room) v =
    at_probe (tdl_is_empty v) [] (tdl_pop v)
      λ head tail. do more ← tdl_collect room tail; some (head ∷ more)

-- The loop goes down in the value, which the clauses show; `tdl_len_lem` is the loop as written.
unfoldable pub tdl_len : Value → Option ℕ
tdl_len (Value.cons (Value.symbol s) Value.nil) = if byte_eq s (codes "cons") then some 0 else none
tdl_len (Value.cons (Value.symbol s) (Value.cons head (Value.cons rest end))) =
    let more = (do n ← tdl_len rest; some (suc n)) in
    if byte_eq s (codes "cons") then more else none
tdl_len v = none

pub tdl_len_lem :
    (v : Value)
    → tdl_len v
      ≡ at_probe (tdl_is_empty v) 0 (tdl_pop v) (λ head tail. do n ← tdl_len tail; some (suc n))
unfolding tdl_len tdl_is_empty tdl_pop
tdl_len_lem (Value.cons (Value.symbol s) Value.nil) = elim (Bool-cases (byte_eq s (codes "cons"))) [
  | inl e ↦ rw e refl
  | inr e ↦ rw e refl
]
tdl_len_lem (Value.cons (Value.symbol s) (Value.cons head (Value.cons rest end))) =
    elim (Bool-cases (byte_eq s (codes "cons"))) [ inl e ↦ rw e refl | inr e ↦ rw e refl ]
tdl_len_lem (Value.cons (Value.symbol s) c) = elim (Bool-cases (byte_eq s (codes "cons"))) [
  | inl e ↦ rw e refl
  | inr e ↦ rw e refl
]
tdl_len_lem v = refl

unfoldable pub tdl_elem : Value → ℕ → Option Value
unfolding tdl_pop
tdl_elem v zero = do (head, tail) ← tdl_pop v; some head
tdl_elem v (suc i) = do (head, tail) ← tdl_pop v; tdl_elem tail i

-- `strndup` stops at a NUL.
unfoldable pub td_string : Value → Option Bytes
unfolding until_nul
td_string (Value.cons (Value.symbol t) (Value.cons (Value.string s) end)) =
    if byte_eq t (codes "string") then some (until_nul s) else none
td_string v = none

unfoldable pub td_number : Value → Option ℤ
td_number (Value.cons (Value.symbol t) (Value.cons (Value.number n) end)) =
    if byte_eq t (codes "number") then some n else none
td_number v = none

unfoldable pub td_symbol : Value → Option Bytes
td_symbol (Value.cons (Value.symbol t) (Value.cons (Value.symbol s) end)) =
    if byte_eq t (codes "symbol") then some s else none
td_symbol v = none
