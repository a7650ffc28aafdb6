-- ===== src/Prims/Pairs/Laws.antt =====
-- reference/shen-gc/zincvm.c: `=` beside `deep_equal`, and `nth` on lists.
use fx_ui.Base.{
  ℕ, zero, suc, ◌<◌, ◌≡◌, refl, ◌∙◌, Bool, false, arith, Option, none, some, List, [], ◌∷◌,
  get_elem?,
}
use fx_ui.Base.Bytes.{Bytes, byte_eq}
use fx_ui.Base.Int.{ℤ, pos, negsuc}
use fx_ui.Value.{Value, Store}
use fx_ui.Value.Equal.{deep_equal, deep_equal_at}
use fx_ui.Value.Equal.Laws.{cells, deep_equal_long}
use fx_ui.Machine.State.{PrimResult}
use fx_ui.Prims.Pairs.{equal_values, prim_equal, nth_cell, nth_result, prim_nth}
use fx_ui.Prims.Laws.{of_list}

-- The names of a symbol and a primitive, in either order.
abbrev pub SymbolAndPrim : Type 0
SymbolAndPrim = Option (Bytes × Bytes)

abbrev pub symbol_and_prim : Value → Value → SymbolAndPrim
symbol_and_prim (Value.symbol s) (Value.prim p) = some (s, p)
symbol_and_prim (Value.prim p) (Value.symbol s) = some (p, s)
symbol_and_prim a b = none

abbrev pub by_names : SymbolAndPrim → Bool → Bool
by_names (some (s, p)) equal = byte_eq s p
by_names none equal = equal

equal_values_lem :
    (store : Store) (a b : Value)
    → equal_values store a b ≡ by_names (symbol_and_prim a b) (deep_equal store a b)
unfolding equal_values deep_equal deep_equal_at
equal_values_lem store (Value.number a) (Value.number b) = refl
equal_values_lem store (Value.string a) (Value.string b) = refl
equal_values_lem store (Value.symbol a) (Value.symbol b) = refl
equal_values_lem store (Value.symbol a) (Value.prim b) = refl
equal_values_lem store (Value.prim a) (Value.symbol b) = refl
equal_values_lem store (Value.prim a) (Value.prim b) = refl
equal_values_lem store (Value.boolean a) (Value.boolean b) = refl
equal_values_lem store Value.nil Value.nil = refl
equal_values_lem store (Value.cons a d) (Value.cons b e) = refl
equal_values_lem store (Value.vector a n) (Value.vector b m) = refl
equal_values_lem store a b = refl

module _ {W : Type 0} (w : W) where
  -- The primitive `=` answers what `deep_equal` does, except that a symbol and a primitive are equal
  -- when their names are.
  pub prim_equal_lem :
      (store : Store) (a b : Value) (st : List Value)
      → prim_equal w store (a ∷ b ∷ st)
        ≡ PrimResult.primed
            (Value.boolean (by_names (symbol_and_prim a b) (deep_equal store a b)))
            st
            w
  unfolding prim_equal
  prim_equal_lem store a b st = rw (equal_values_lem store a b) refl

  -- A list of more than a thousand cells, whatever is in them and after them, is not `=` to any value,
  -- itself among them.
  pub prim_equal_long :
      (store : Store) (a b : Value) (st : List Value)
      → 1000 < cells a
      → prim_equal w store (a ∷ b ∷ st) ≡ PrimResult.primed (Value.boolean false) st w
  unfolding equal_values
  prim_equal_long store (Value.cons x d) b st h =
      prim_equal_lem store (Value.cons x d) b st
      ∙ rw (deep_equal_long store (Value.cons x d) b h) refl
  prim_equal_long store a b st h = absurd (omega (arith, h))

  nth_cell-of_list : (k : ℕ) (xs : List Value) → nth_cell k (of_list xs) ≡ get_elem? xs k
  unfolding nth_cell
  nth_cell-of_list zero [] = refl
  nth_cell-of_list (suc k) [] = refl
  nth_cell-of_list zero (x ∷ xs) = refl
  nth_cell-of_list (suc k) (x ∷ xs) = nth_cell-of_list k xs

  -- The element at a position, which counts from 1.
  abbrev pub element_at : ℤ → List Value → Option Value
  element_at (pos (suc k)) xs = get_elem? xs k
  element_at (pos zero) xs = none
  element_at (negsuc n) xs = none

  -- `nth` on a list answers the element at the position, counted from 1, and raises an error at every
  -- other number.
  pub prim_nth_lem :
      (k : ℤ) (xs st : List Value)
      → prim_nth w (Value.number k ∷ of_list xs ∷ st) ≡ nth_result w (element_at k xs) st
  unfolding prim_nth
  prim_nth_lem (pos (suc k)) xs st = rw (nth_cell-of_list k xs) refl
  prim_nth_lem (pos zero) xs st = refl
  prim_nth_lem (negsuc n) xs st = refl
