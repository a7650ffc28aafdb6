-- ===== src/Prims/Numbers/Laws.antt =====
-- reference/shen-gc/zincvm.c: arithmetic on `long`.
use fx_ui.Base.{
  ℕ, zero, suc, ◌+◌, ◌*◌, ◌/◌, ◌%◌, ◌≤◌, ◌<◌, ◌≡◌, refl, true, false, List, ◌∷◌, arith, Bool-cases,
  inl, inr,
}
use fx_ui.Base.Int.{
  ℤ, pos, negsuc, ◌+ℤ◌, ◌-ℤ◌, ◌*ℤ◌, +ℤ_cancel, pos_part, neg_part, eq_of_parts, int_laws, +ℤ_parts,
}
use fx_ui.Value.{Value}
use fx_ui.Machine.State.{PrimResult}
use fx_ui.Prims.Numbers.{
  is_long, negated, divide, is_zero, long_result, prim_add, prim_subtract, prim_divide,
}

abbrev pub magnitude : ℤ → ℕ
magnitude (pos n) = n
magnitude (negsuc n) = suc n

-- The remainder of C's division has the sign of the dividend.
abbrev pub remainder : ℤ → ℤ → ℤ
remainder (pos a) b = pos (a % magnitude b)
remainder (negsuc a) b = negated (suc a % magnitude b)

parts_negated : (n : ℕ) → (pos_part (negated n) ≡ 0) × (neg_part (negated n) ≡ n)
parts_negated zero = (refl, refl)
parts_negated (suc n) = (refl, refl)

*ℤ_parts :
    (a b : ℤ)
    → pos_part (a *ℤ b) + (pos_part a * neg_part b + neg_part a * pos_part b)
      ≡ neg_part (a *ℤ b) + (pos_part a * pos_part b + neg_part a * neg_part b)
unfolding ◌*ℤ◌
*ℤ_parts a b = ground arith

whole_div : (a b : ℕ) → 1 ≤ b → a / b * b + a % b ≡ a
whole_div a b h = grind arith

-- `x = q * b + r`, from the magnitudes.
join_pp : (a q b r : ℕ) → q * b + r ≡ a → pos a ≡ pos q *ℤ pos b +ℤ pos r
join_pp a q b r h =
    eq_of_parts _ _ (grind (int_laws, *ℤ_parts (pos q) (pos b), +ℤ_parts (pos q *ℤ pos b) (pos r)))

join_pn : (a q b r : ℕ) → q * suc b + r ≡ a → pos a ≡ negated q *ℤ negsuc b +ℤ pos r
join_pn a zero b r h =
    eq_of_parts _ _
      (grind (int_laws, *ℤ_parts (pos 0) (negsuc b), +ℤ_parts (pos 0 *ℤ negsuc b) (pos r)))
join_pn a (suc q) b r h =
    eq_of_parts _ _
      (grind (int_laws, *ℤ_parts (negsuc q) (negsuc b), +ℤ_parts (negsuc q *ℤ negsuc b) (pos r)))

join_np : (a q b r : ℕ) → q * b + r ≡ suc a → negsuc a ≡ negated q *ℤ pos b +ℤ negated r
join_np a q b r h = eq_of_parts _ _ (
    grind (
      int_laws,
      parts_negated q,
      parts_negated r,
      *ℤ_parts (negated q) (pos b),
      +ℤ_parts (negated q *ℤ pos b) (negated r),
    ))

join_nn : (a q b r : ℕ) → q * suc b + r ≡ suc a → negsuc a ≡ pos q *ℤ negsuc b +ℤ negated r
join_nn a q b r h = eq_of_parts _ _ (
    grind (
      int_laws,
      parts_negated r,
      *ℤ_parts (pos q) (negsuc b),
      +ℤ_parts (pos q *ℤ negsuc b) (negated r),
    ))

divide_lem : (a b : ℤ) → is_zero b ≡ false → a ≡ divide a b *ℤ b +ℤ remainder a b
unfolding divide
divide_lem (pos a) (pos zero) h = cc
divide_lem (pos a) (pos (suc b)) h =
    join_pp a (a / suc b) (suc b) (a % suc b) (whole_div a (suc b) (omega arith))
divide_lem (pos a) (negsuc b) h =
    join_pn a (a / suc b) b (a % suc b) (whole_div a (suc b) (omega arith))
divide_lem (negsuc a) (pos zero) h = cc
divide_lem (negsuc a) (pos (suc b)) h =
    join_np a (suc a / suc b) (suc b) (suc a % suc b) (whole_div (suc a) (suc b) (omega arith))
divide_lem (negsuc a) (negsuc b) h =
    join_nn a (suc a / suc b) b (suc a % suc b) (whole_div (suc a) (suc b) (omega arith))

magnitude-negated : (n : ℕ) → magnitude (negated n) ≡ n
magnitude-negated zero = refl
magnitude-negated (suc n) = refl

remainder_small : (a b : ℤ) → is_zero b ≡ false → magnitude (remainder a b) < magnitude b
remainder_small (pos a) (pos zero) h = cc
remainder_small (pos a) (pos (suc b)) h = grind arith
remainder_small (pos a) (negsuc b) h = grind arith
remainder_small (negsuc a) (pos zero) h = cc
remainder_small (negsuc a) (pos (suc b)) h =
    let same = magnitude-negated (suc a % suc b) in grind arith
remainder_small (negsuc a) (negsuc b) h =
    let same = magnitude-negated (suc a % suc b) in grind arith

-- Of one sign, where zero has both.
abbrev pub SameSign : ℤ → ℤ → Type 0
SameSign (pos a) r = neg_part r ≡ 0
SameSign (negsuc a) r = pos_part r ≡ 0

remainder-SameSign : (a b : ℤ) → SameSign a (remainder a b)
remainder-SameSign (pos a) b = refl
remainder-SameSign (negsuc a) b = (parts_negated (suc a % magnitude b)).0

module _ {W : Type 0} (w : W) where
  at_long :
      (z v : ℤ) (st : List Value)
      → long_result w z st ≡ PrimResult.primed (Value.number v) st w
      → (z ≡ v) × (is_long z ≡ true)
  at_long z v st h = elim (Bool-cases (is_long z)) [
    | inl e ↦ (cc (rw e at h), e)
    | inr e ↦ cc (rw e at h)
  ]

  in_long :
      (z v : ℤ) (st : List Value)
      → z ≡ v
      → is_long v ≡ true
      → long_result w z st ≡ PrimResult.primed (Value.number v) st w
  in_long z v st p e = rw (p, e) refl

  -- Subtracting what was added gives the number back, whenever the sum is a `long` at all.
  pub prim_subtract-prim_add :
      (a b c : ℤ) (st : List Value)
      → is_long a ≡ true
      → prim_add w (Value.number a ∷ Value.number b ∷ st) ≡ PrimResult.primed (Value.number c) st w
      → prim_subtract w (Value.number c ∷ Value.number b ∷ st)
        ≡ PrimResult.primed (Value.number a) st w
  unfolding prim_add prim_subtract
  prim_subtract-prim_add a b c st la h =
      let (p, e) = at_long (a +ℤ b) c st h in in_long (c -ℤ b) a st (rw (← p) (+ℤ_cancel a b)) la

  -- A quotient times the divisor is the dividend, up to a remainder that is smaller than the divisor
  -- in magnitude and has the sign of the dividend.
  pub prim_divide_lem :
      (a b q : ℤ) (st : List Value)
      → prim_divide w (Value.number a ∷ Value.number b ∷ st)
        ≡ PrimResult.primed (Value.number q) st w
      → (r : ℤ) × (a ≡ q *ℤ b +ℤ r) × (magnitude r < magnitude b) × SameSign a r
  unfolding prim_divide
  prim_divide_lem a b q st h = elim (Bool-cases (is_zero b)) [
    | inl e ↦ cc (rw e at h)
    | inr e ↦
        let (p, l) = at_long (divide a b) q st (rw e at h) in
        (remainder a b, rw (← p) (divide_lem a b e), remainder_small a b e, remainder-SameSign a b)
  ]
