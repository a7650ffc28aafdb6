-- ===== src/Prims/Numbers.antt =====
-- reference/shen-gc/zincvm.c: the primitives of `exec_primitive` on numbers, on a `long` of 64 bits.
--
-- A result that is no `long`, a division by zero and an argument that is no number are undefined in
-- C and end the model's run; the comparisons answer false at an argument that is no number.
pub mod Laws
use fx_ui.Base.{
  ℕ, zero, suc, ◌-◌, ◌/◌, ◌%◌, ◌^◌, Bool, true, false, ◌||◌, not, List, [], ◌∷◌, ltb, if◌then◌else◌,
}
use fx_ui.Base.Int.{ℤ, pos, negsuc, ◌+ℤ◌, ◌-ℤ◌, ◌*ℤ◌, ltb_ℤ}
use fx_ui.Value.{Value}
use fx_ui.Machine.State.{PrimResult}
use fx_ui.Prims.{Popped}

abbrev pub is_long : ℤ → Bool
is_long (pos n) = ltb n (2 ^ 63)
is_long (negsuc n) = ltb n (2 ^ 63)

-- `- n`
abbrev pub negated : ℕ → ℤ
negated zero = pos zero
negated (suc n) = negsuc n

-- C divides towards zero.
unfoldable pub divide : ℤ → ℤ → ℤ
divide (pos a) (pos b) = pos (a / b)
divide (pos a) (negsuc b) = negated (a / suc b)
divide (negsuc a) (pos b) = negated (suc a / b)
divide (negsuc a) (negsuc b) = pos (suc a / suc b)

abbrev pub is_zero : ℤ → Bool
is_zero (pos zero) = true
is_zero z = false

module _ {W : Type 0} (w : W) where
  abbrev pub long_result : ℤ → Popped W
  long_result z st = if is_long z then PrimResult.primed (Value.number z) st w else PrimResult.died

  unfoldable pub prim_add : Popped W
  prim_add (Value.number a ∷ Value.number b ∷ st) = long_result (a +ℤ b) st
  prim_add _ = PrimResult.died

  unfoldable pub prim_subtract : Popped W
  prim_subtract (Value.number a ∷ Value.number b ∷ st) = long_result (a -ℤ b) st
  prim_subtract _ = PrimResult.died

  unfoldable pub prim_multiply : Popped W
  prim_multiply (Value.number a ∷ Value.number b ∷ st) = long_result (a *ℤ b) st
  prim_multiply _ = PrimResult.died

  unfoldable pub prim_divide : Popped W
  prim_divide (Value.number a ∷ Value.number b ∷ st) =
      if is_zero b then PrimResult.died else long_result (divide a b) st
  prim_divide _ = PrimResult.died

  abbrev pub compared : (ℤ → ℤ → Bool) → Value → Value → Bool
  compared test (Value.number a) (Value.number b) = test a b
  compared test _ _ = false

  unfoldable pub prim_compare : (ℤ → ℤ → Bool) → Popped W
  prim_compare test (a1 ∷ a2 ∷ st) = PrimResult.primed (Value.boolean (compared test a1 a2)) st w
  prim_compare test _ = PrimResult.died

-- The tests of `<`, `<=`, `>` and `>=`.
abbrev pub less : ℤ → ℤ → Bool
less a b = ltb_ℤ a b

abbrev pub less_equal : ℤ → ℤ → Bool
less_equal a b = not (ltb_ℤ b a)

abbrev pub greater : ℤ → ℤ → Bool
greater a b = ltb_ℤ b a

abbrev pub greater_equal : ℤ → ℤ → Bool
greater_equal a b = not (ltb_ℤ a b)
