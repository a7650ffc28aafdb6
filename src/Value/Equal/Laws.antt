-- ===== src/Value/Equal/Laws.antt =====
-- reference/shen-gc/zincvm.c: what `deep_equal` decides.
use Prim.Native.Nat.{max}
use fx_ui.Base.{
  ℕ, zero, suc, ◌+◌, ◌≤◌, ◌<◌, ◌≡◌, ◌↔◌, refl, Bool, true, false, arith, ◌==◌, if◌then◌else◌,
}
use native.Mathlib.Decide.{ℕ_discrete}
use fx_ui.Base.Bytes.{byte_eq→eq, byte_eq_refl, byte_eq_sym}
use fx_ui.Base.Int.{ℤ}
use fx_ui.Value.{Value, Store}
use fx_ui.Value.Equal.{long_eq, bool_eq, equal_elements, deep_equal_at, max_depth, deep_equal}

-- Lists, trees and atoms: no vector, closure, primitive, error, stream or mark.
abbrev pub IsPlain : Value → Type 0
IsPlain (Value.number n) = Unit
IsPlain (Value.string s) = Unit
IsPlain (Value.symbol s) = Unit
IsPlain (Value.boolean b) = Unit
IsPlain Value.nil = Unit
IsPlain (Value.cons a b) = IsPlain a × IsPlain b
IsPlain _ = ⊥

-- The number of nested cells, each cdr counted, and one for the atom.
abbrev pub height : Value → ℕ
height (Value.cons a b) = suc (max (height a) (height b))
height _ = 1

long_eq→eq : (a b : ℤ) → long_eq a b ≡ true → a ≡ b
unfolding long_eq
long_eq→eq a b h = ground arith

long_eq_refl : (a : ℤ) → long_eq a a ≡ true
unfolding long_eq
long_eq_refl a = ground arith

bool_eq→eq : (a b : Bool) → bool_eq a b ≡ true → a ≡ b
unfolding bool_eq
bool_eq→eq a b h = ground arith

bool_eq_refl : (a : Bool) → bool_eq a a ≡ true
unfolding bool_eq
bool_eq_refl a = ground arith

long_eq_sym : (a b : ℤ) → long_eq a b ≡ long_eq b a
unfolding long_eq
long_eq_sym a b = ground arith

bool_eq_sym : (a b : Bool) → bool_eq a b ≡ bool_eq b a
unfolding bool_eq
bool_eq_sym a b = ground arith

equal_sound :
    (st : Store) (d : ℕ) (a b : Value)
    → IsPlain a
    → deep_equal_at st d a b ≡ true
    → (a ≡ b) × (height a ≤ d)
unfolding deep_equal_at
equal_sound st zero a b p h = ground arith
equal_sound st (suc d) (Value.number a) (Value.number b) p h = ground (arith, long_eq→eq a b)
equal_sound st (suc d) (Value.string a) (Value.string b) p h = ground (arith, byte_eq→eq a b)
equal_sound st (suc d) (Value.symbol a) (Value.symbol b) p h = ground (arith, byte_eq→eq a b)
equal_sound st (suc d) (Value.boolean a) (Value.boolean b) p h = ground (arith, bool_eq→eq a b)
equal_sound st (suc d) (Value.cons a b) (Value.cons a' b') p h =
    ground (arith, equal_sound st d a a' p.0, equal_sound st d b b' p.1)
equal_sound st (suc d) a b p h = ground arith

equal_complete :
    (st : Store) (d : ℕ) (a : Value) → IsPlain a → height a ≤ d → deep_equal_at st d a a ≡ true
unfolding deep_equal_at
equal_complete st zero (Value.cons a b) p h = absurd (omega arith)
equal_complete st zero a p h = absurd (omega arith)
equal_complete st (suc d) (Value.number a) p h = long_eq_refl a
equal_complete st (suc d) (Value.string a) p h = byte_eq_refl a
equal_complete st (suc d) (Value.symbol a) p h = byte_eq_refl a
equal_complete st (suc d) (Value.boolean a) p h = bool_eq_refl a
equal_complete st (suc d) (Value.cons a b) p h =
    rw (equal_complete st d a p.0 (omega arith), equal_complete st d b p.1 (omega arith))
equal_complete st (suc d) a p h = ground arith

-- On trees of atoms and cons cells `deep_equal` answers true exactly if the two are the same and
-- nest at most 1001 deep, where each step along a list counts.
pub deep_equal_iff :
    (st : Store) (a b : Value)
    → IsPlain a
    → (deep_equal st a b ≡ true) ↔ ((a ≡ b) × (height a ≤ 1001))
unfolding deep_equal
deep_equal_iff st a b p = (
  equal_sound st (suc max_depth) a b p,
  λ h. rw (← h.0) (equal_complete st (suc max_depth) a p h.1),
)

-- The cells of a list, without their contents.
abbrev pub cells : Value → ℕ
cells (Value.cons a d) = suc (cells d)
cells v = 0

equal_too_deep : (st : Store) (d : ℕ) (a b : Value) → d ≤ cells a → deep_equal_at st d a b ≡ false
unfolding deep_equal_at
equal_too_deep st zero a b h = refl
equal_too_deep st (suc d) (Value.cons x a) (Value.cons y b) h =
    let rest = equal_too_deep st d a b (omega arith) in rw rest (ground arith)
equal_too_deep st (suc d) (Value.cons x a) b h = refl
equal_too_deep st (suc d) a b h = absurd (omega (arith, h))

-- A list of more than a thousand cells, whatever is in them and after them, is not equal to any
-- value, itself among them.
pub deep_equal_long : (st : Store) (a b : Value) → 1000 < cells a → deep_equal st a b ≡ false
unfolding deep_equal
deep_equal_long st a b h = equal_too_deep st (suc max_depth) a b (omega arith)

equal_elements_sym :
    (eq : Value → Value → Bool) (st : Store) (a b i n : ℕ)
    → ((x y : Value) → eq x y ≡ eq y x)
    → equal_elements eq st a b i n ≡ equal_elements eq st b a i n
unfolding equal_elements
equal_elements_sym eq st a b i zero h = refl
equal_elements_sym eq st a b i (suc n) h =
    rw (h (st a i) (st b i), equal_elements_sym eq st a b (i + 1) n h)

nat_eq_sym : (a b : ℕ) → (a == b) ≡ (b == a)
nat_eq_sym a b = ground arith

vector_sym :
    (eq : Value → Value → Bool) (st : Store) (a b n m : ℕ)
    → ((x y : Value) → eq x y ≡ eq y x)
    → (if n == m then equal_elements eq st a b 0 n else false)
      ≡ (if m == n then equal_elements eq st b a 0 m else false)
vector_sym eq st a b n m h = elim (ℕ_discrete n m) [
  | yes e ↦ rw (e, equal_elements_sym eq st a b 0 m h)
  | no e ↦ ground arith
]

equal_sym : (st : Store) (d : ℕ) (a b : Value) → deep_equal_at st d a b ≡ deep_equal_at st d b a
unfolding deep_equal_at
equal_sym st zero a b = refl
equal_sym st (suc d) (Value.number a) (Value.number b) = ground (arith, long_eq_sym a b)
equal_sym st (suc d) (Value.string a) (Value.string b) = byte_eq_sym a b
equal_sym st (suc d) (Value.symbol a) (Value.symbol b) = byte_eq_sym a b
equal_sym st (suc d) (Value.boolean a) (Value.boolean b) = bool_eq_sym a b
equal_sym st (suc d) (Value.cons a b) (Value.cons a' b') =
    rw (equal_sym st d a a', equal_sym st d b b')
equal_sym st (suc d) (Value.vector a n) (Value.vector b m) =
    vector_sym (deep_equal_at st d) st a b n m (equal_sym st d)
equal_sym st (suc d) Value.nil Value.nil = refl
equal_sym st (suc d) (Value.lambda c e) Value.nil = refl
equal_sym st (suc d) Value.mark Value.nil = refl
equal_sym st (suc d) (Value.prim n) Value.nil = refl
equal_sym st (suc d) (Value.error n) Value.nil = refl
equal_sym st (suc d) (Value.stream f o w) Value.nil = refl
equal_sym st (suc d) a b = refl

-- `deep_equal` is symmetric on all values, vectors and cyclic structures included.
pub deep_equal_sym : (st : Store) (a b : Value) → deep_equal st a b ≡ deep_equal st b a
unfolding deep_equal
deep_equal_sym st a b = equal_sym st (suc max_depth) a b
