-- ===== src/Prims/Texts/Cut.antt =====
-- reference/shen-gc/zincvm.c: `substring` cuts a text in three, whatever its bounds.
use Prim.Native.Nat.{min}
use fx_ui.Base.{
  ℕ, zero, suc, ◌+◌, ◌-◌, ◌^◌, ◌≤◌, ◌<◌, ◌≡◌, refl, ◌∙◌, ap, some, List, [], ◌∷◌, ◌++◌, arith,
  length, take, drop, length-drop,
}
use fx_ui.Base.Bytes.{Bytes}
use fx_ui.Base.Int.{ℤ, pos, negsuc}
use fx_ui.Value.{Value}
use fx_ui.Machine.State.{PrimResult, to_int, signed_32}
use fx_ui.Prims.Texts.{clamp, prim_substring}

-- A number that is an `int`.
abbrev pub IsInt : ℤ → Type 0
IsInt (pos n) = n < 2 ^ 31
IsInt (negsuc n) = n < 2 ^ 31

pub to_int_same : (z : ℤ) → IsInt z → to_int z ≡ z
unfolding to_int signed_32
to_int_same (pos n) h = ground arith
to_int_same (negsuc n) h = ground arith

-- A bound below zero is zero.
abbrev pub above_zero : ℤ → ℕ
above_zero (pos n) = n
above_zero (negsuc n) = 0

clamp_lem :
    (start len : ℤ) (size : ℕ)
    → min (above_zero start) size + above_zero len < 2 ^ 31
    → clamp start len size
      ≡ some
          (min (above_zero start) size, min (above_zero len) (size - min (above_zero start) size))
unfolding clamp
clamp_lem (pos n) (pos m) size h = ground arith
clamp_lem (pos n) (negsuc m) size h = ground arith
clamp_lem (negsuc n) (pos m) size h = ground arith
clamp_lem (negsuc n) (negsuc m) size h = ground arith

take-drop : (n : ℕ) (s : Bytes) → s ≡ take n s ++ drop n s
take-drop zero s = refl
take-drop (suc n) [] = refl
take-drop (suc n) (x ∷ xs) = ap (λ t. x ∷ t) (take-drop n xs)

length-take_le : (n : ℕ) (s : Bytes) → n ≤ length s → length (take n s) ≡ n
length-take_le zero s h = refl
length-take_le (suc n) [] h = absurd (omega arith)
length-take_le (suc n) (x ∷ xs) h = ap suc (length-take_le n xs (omega arith))

-- What `substring` answers, and what is cut off before and behind it.
pub record Cut (s : Bytes) (start len : ℤ) (middle : Bytes) : Type 0 where
  pub before : Bytes
  pub behind : Bytes
  pub whole : s ≡ before ++ (middle ++ behind)
  pub from : length before ≡ min (above_zero start) (length s)
  pub count : length middle ≡ min (above_zero len) (length s - length before)

substring-Cut :
    (s : Bytes) (start len : ℤ)
    → Cut s start len (
        take
          (min (above_zero len) (length s - min (above_zero start) (length s)))
          (drop (min (above_zero start) (length s)) s))
substring-Cut s start len =
    let a = min (above_zero start) (length s) in
    let b = min (above_zero len) (length s - a) in
    let low : a ≤ length s = omega arith in
    let room = length-drop a s in
    let front = length-take_le a s low in
    record {
      before = take a s;
      behind = drop b (drop a s);
      whole = take-drop a s ∙ ap (λ t. take a s ++ t) (take-drop b (drop a s));
      from = front;
      count = length-take_le b (drop a s) (omega arith) ∙ omega arith;
    }

module _ {W : Type 0} (w : W) where
  -- `substring` answers the part of the text that begins at the start and has the length asked for,
  -- both cut to the text: a negative start or length counts as zero, and nothing behind the end is
  -- read. The bounds are of type `int`, and their sum is too.
  pub prim_substring_lem :
      (s : Bytes) (start len : ℤ) (st : List Value)
      → IsInt start
      → IsInt len
      → min (above_zero start) (length s) + above_zero len < 2 ^ 31
      → (middle : Bytes) × Cut s start len middle
        × (prim_substring w (Value.string s ∷ Value.number start ∷ Value.number len ∷ st)
            ≡ PrimResult.primed (Value.string middle) st w)
  unfolding prim_substring
  prim_substring_lem s start len st a b fits =
      let from = min (above_zero start) (length s) in
      let count = min (above_zero len) (length s - from) in
      (
        take count (drop from s),
        substring-Cut s start len,
        rw (to_int_same start a, to_int_same len b, clamp_lem start len (length s) fits) refl,
      )
