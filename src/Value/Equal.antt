-- ===== src/Value/Equal.antt =====
-- reference/shen-gc/zincvm.c: `deep_equal`, the test behind the primitive `=`.
pub mod Laws
use fx_ui.Base.{ℕ, zero, suc, ◌+◌, Bool, true, false, ◌&&◌, ◌==◌, if◌then◌else◌}
use fx_ui.Base.Bytes.{byte_eq}
use fx_ui.Base.Int.{ℤ, pos, negsuc}
use fx_ui.Value.{Value, Store}

unfoldable pub long_eq : ℤ → ℤ → Bool
long_eq (pos a) (pos b) = a == b
long_eq (negsuc a) (negsuc b) = a == b
long_eq _ _ = false

unfoldable pub bool_eq : Bool → Bool → Bool
bool_eq true b = b
bool_eq false true = false
bool_eq false false = true

-- `for (i = 0; i < len; i++)` over two element arrays, on the rounds left.
unfoldable pub equal_elements : (Value → Value → Bool) → Store → ℕ → ℕ → ℕ → ℕ → Bool
equal_elements eq st a b i zero = true
equal_elements eq st a b i (suc n) =
    if eq (st a i) (st b i) then equal_elements eq st a b (i + 1) n else false

-- The static `depth` counts the cons cells and vectors entered, and the call answers 0 once it
-- exceeds 1000: the number here is `1001 - depth`, the levels that are left.
unfoldable pub deep_equal_at : Store → ℕ → Value → Value → Bool
unfolding long_eq bool_eq equal_elements
deep_equal_at st zero a b = false
deep_equal_at st (suc d) (Value.number a) (Value.number b) = long_eq a b
deep_equal_at st (suc d) (Value.string a) (Value.string b) = byte_eq a b
deep_equal_at st (suc d) (Value.symbol a) (Value.symbol b) = byte_eq a b
deep_equal_at st (suc d) (Value.boolean a) (Value.boolean b) = bool_eq a b
deep_equal_at st (suc d) Value.nil Value.nil = true
deep_equal_at st (suc d) (Value.cons a b) (Value.cons a' b') =
    let rest = deep_equal_at st d b b' in if deep_equal_at st d a a' then rest else false
deep_equal_at st (suc d) (Value.vector a n) (Value.vector b m) =
    if n == m then equal_elements (deep_equal_at st d) st a b 0 n else false
deep_equal_at st (suc d) _ _ = false

abbrev pub max_depth : ℕ
max_depth = 1000

unfoldable pub deep_equal : Store → Value → Value → Bool
deep_equal st a b = deep_equal_at st (suc max_depth) a b
