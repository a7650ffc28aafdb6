-- ===== src/Prims/Pairs.antt =====
-- reference/shen-gc/zincvm.c: the primitives of `exec_primitive` on pairs, the tests of a tag, and
-- the primitive `=`.
pub mod Laws
use fx_ui.Base.{
  ℕ, zero, suc, Bool, true, false, ◌||◌, Option, none, some, List, [], ◌∷◌, ◌==◌, if◌then◌else◌,
}
use fx_ui.Base.Bytes.{Bytes, codes, byte_eq}
use fx_ui.Base.Int.{ℤ, pos, negsuc}
use fx_ui.Value.{Value, Store}
use fx_ui.Value.Equal.{deep_equal, long_eq, bool_eq}
use fx_ui.Machine.State.{PrimResult}
use fx_ui.Prims.{Popped}

abbrev pub is_boolean : Value → Bool
is_boolean (Value.boolean b) = true
is_boolean v = false

abbrev pub is_cons : Value → Bool
is_cons (Value.cons a d) = true
is_cons v = false

abbrev pub is_error : Value → Bool
is_error (Value.error m) = true
is_error v = false

abbrev pub is_nil : Value → Bool
is_nil Value.nil = true
is_nil v = false

abbrev pub is_function : Value → Bool
is_function (Value.lambda c e) = true
is_function (Value.prim p) = true
is_function v = false

abbrev pub is_number : Value → Bool
is_number (Value.number z) = true
is_number v = false

abbrev pub is_symbol : Value → Bool
is_symbol (Value.symbol s) = true
is_symbol v = false

abbrev pub is_string : Value → Bool
is_string (Value.string s) = true
is_string v = false

abbrev pub is_stream : Value → Bool
is_stream (Value.stream f i s) = true
is_stream v = false

abbrev pub is_vector : Value → Bool
is_vector (Value.vector a n) = true
is_vector v = false

-- The chain of tests of `=`, by the tags of the two arguments.
unfoldable pub equal_values : Store → Value → Value → Bool
equal_values store (Value.number a) (Value.number b) = long_eq a b
equal_values store (Value.string a) (Value.string b) = byte_eq a b
equal_values store (Value.symbol a) (Value.symbol b) = byte_eq a b
equal_values store (Value.boolean a) (Value.boolean b) = bool_eq a b
equal_values store (Value.symbol a) (Value.prim b) = byte_eq a b
equal_values store (Value.prim a) (Value.symbol b) = byte_eq a b
equal_values store (Value.cons a d) (Value.cons b e) =
    deep_equal store (Value.cons a d) (Value.cons b e)
equal_values store (Value.vector a n) (Value.vector b m) =
    deep_equal store (Value.vector a n) (Value.vector b m)
equal_values store Value.nil Value.nil = true
equal_values store _ _ = false

-- `while (k > 1 && l.tag == VAL_CONS) { k--; l = *l.cons.cdr; }`, with `k - 1` steps left, and the
-- element there.
unfoldable pub nth_cell : ℕ → Value → Option Value
nth_cell zero (Value.cons a d) = some a
nth_cell (suc k) (Value.cons a d) = nth_cell k d
nth_cell k v = none

abbrev pub nth_of : ℤ → Value → Option Value
nth_of (pos (suc k)) l = nth_cell k l
nth_of (pos zero) l = none
nth_of (negsuc n) l = none

module _ {W : Type 0} (w : W) where
  unfoldable pub prim_test : (Value → Bool) → Popped W
  prim_test test (a ∷ st) = PrimResult.primed (Value.boolean (test a)) st w
  prim_test test [] = PrimResult.died

  -- `cons` and `@p`.
  unfoldable pub prim_cons : Popped W
  prim_cons (a1 ∷ a2 ∷ st) = PrimResult.primed (Value.cons a1 a2) st w
  prim_cons _ = PrimResult.died

  unfoldable pub prim_fst : Popped W
  prim_fst (Value.cons a d ∷ st) = PrimResult.primed a st w
  prim_fst _ = PrimResult.died

  unfoldable pub prim_snd : Popped W
  prim_snd (Value.cons a d ∷ st) = PrimResult.primed d st w
  prim_snd _ = PrimResult.died

  unfoldable pub prim_hd : Popped W
  prim_hd (Value.nil ∷ st) = PrimResult.primed Value.nil st w
  prim_hd (Value.cons a d ∷ st) = PrimResult.primed a st w
  prim_hd _ = PrimResult.died

  unfoldable pub prim_tl : Popped W
  prim_tl (Value.nil ∷ st) = PrimResult.primed Value.nil st w
  prim_tl (Value.cons a d ∷ st) = PrimResult.primed d st w
  prim_tl _ = PrimResult.died

  unfoldable pub prim_equal : Store → Popped W
  prim_equal store (a1 ∷ a2 ∷ st) =
      PrimResult.primed (Value.boolean (equal_values store a1 a2)) st w
  prim_equal store _ = PrimResult.died

  abbrev pub nth_result : Option Value → Popped W
  nth_result none st = PrimResult.raised (codes "nth applied to a non-list or out-of-range index") w
  nth_result (some v) st = PrimResult.primed v st w

  unfoldable pub prim_nth : Popped W
  prim_nth (Value.number k ∷ l ∷ st) = nth_result (nth_of k l) st
  prim_nth _ = PrimResult.died

  -- `fail` and `shen.fail!`.
  unfoldable pub prim_fail : Popped W
  prim_fail (arg ∷ st) =
      PrimResult.primed (Value.cons (Value.symbol (codes "fail")) (Value.cons arg Value.nil)) st w
  prim_fail [] = PrimResult.raised (codes "fail") w
