-- ===== src/Prims.antt =====
-- reference/shen-gc/zincvm.c: the list primitives of `exec_primitive`: `append`, `reverse`, `length`,
-- `element?` and `assoc`.
--
-- A primitive takes its arguments from the stack, the first on top; `va_pop` of an empty stack ends
-- the program.
pub mod Laws
pub mod Texts
pub mod Pairs
pub mod Numbers
pub mod Print
pub mod Runtime
pub mod Streams
pub mod Control
pub mod Dispatch
use fx_ui.Base.{ℕ, suc, Bool, true, false, List, [], ◌∷◌, if◌then◌else◌}
use fx_ui.Base.Bytes.{codes}
use fx_ui.Base.Int.{pos}
use fx_ui.Value.{Value, Store}
use fx_ui.Value.Equal.{deep_equal}
use fx_ui.Machine.State.{PrimResult}

-- The rest of the stack after the pops.
abbrev pub Popped : Type 0 → Type 0
Popped W = List Value → PrimResult W

-- `while (a.tag == VAL_CONS) { out = val_cons(*a.cons.car, out); a = *a.cons.cdr; }`
unfoldable pub rev_onto : Value → Value → Value
rev_onto (Value.cons a d) out = rev_onto d (Value.cons a out)
rev_onto v out = out

-- The cells of a value, and what its last cell ends with.
unfoldable pub count_cells : Value → ℕ
count_cells (Value.cons a d) = suc (count_cells d)
count_cells v = 0

unfoldable pub last_cdr : Value → Value
last_cdr (Value.cons a d) = last_cdr d
last_cdr v = v

unfoldable pub found_in : Store → Value → Value → Bool
found_in st x (Value.cons a d) =
    let rest = found_in st x d in if deep_equal st x a then true else rest
found_in st x v = false

-- An entry is a pair with the key in front.
abbrev pub has_key : Store → Value → Value → Bool
has_key st key (Value.cons k v) = deep_equal st key k
has_key st key v = false

-- The result, or the value at which the search ended.
pub data Search : Type 0 where
  entry_found ended_at : Value → Search

unfoldable pub search_key : Store → Value → Value → Search
search_key st key (Value.cons a d) =
    let rest = search_key st key d in if has_key st key a then Search.entry_found a else rest
search_key st key v = Search.ended_at v

module _ {W : Type 0} (w : W) where
  abbrev pub append_values : Value → Value → Popped W
  append_values Value.nil a2 st = PrimResult.primed a2 st w
  append_values (Value.cons a d) a2 st =
      PrimResult.primed (rev_onto (rev_onto (Value.cons a d) Value.nil) a2) st w
  append_values v a2 st = PrimResult.raised (codes "attempt to append a non-list") w

  unfoldable pub prim_append : Popped W
  prim_append (a1 ∷ a2 ∷ st) = append_values a1 a2 st
  prim_append _ = PrimResult.died

  abbrev pub reverse_value : Value → Popped W
  reverse_value Value.nil st = PrimResult.primed Value.nil st w
  reverse_value (Value.cons a d) st = PrimResult.primed (rev_onto (Value.cons a d) Value.nil) st w
  reverse_value v st = PrimResult.raised (codes "attempt to reverse a non-list") w

  unfoldable pub prim_reverse : Popped W
  prim_reverse (a ∷ st) = reverse_value a st
  prim_reverse [] = PrimResult.died

  abbrev pub length_at : Value → ℕ → Popped W
  length_at Value.nil n st = PrimResult.primed (Value.number (pos n)) st w
  length_at v n st = PrimResult.raised (codes "length: non-list") w

  unfoldable pub prim_length : Popped W
  prim_length (a ∷ st) = length_at (last_cdr a) (count_cells a) st
  prim_length [] = PrimResult.died

  unfoldable pub prim_element : Store → Popped W
  prim_element store (x ∷ l ∷ st) = PrimResult.primed (Value.boolean (found_in store x l)) st w
  prim_element store _ = PrimResult.died

  abbrev pub assoc_result : Search → Popped W
  assoc_result (Search.entry_found e) st = PrimResult.primed e st w
  assoc_result (Search.ended_at Value.nil) st = PrimResult.primed Value.nil st w
  assoc_result (Search.ended_at v) st =
      PrimResult.raised (codes "attempt to search a non-list with assoc") w

  unfoldable pub prim_assoc : Store → Popped W
  prim_assoc store (key ∷ l ∷ st) = assoc_result (search_key store key l) st
  prim_assoc store _ = PrimResult.died
