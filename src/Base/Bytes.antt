-- ===== src/Base/Bytes.antt =====
-- C strings as lists of byte values, without the closing NUL; `strcmp(s, t) == 0` is `byte_eq`.
use Prim.Native.Nat.{ℕ}
use Prim.Native.Char.{code}
use Prim.Native.String.{String}
use mathlib.Core.Path.{◌≡◌, refl}
use mathlib.Core.Logic.{◌↔◌}
use mathlib.Core.Bool.{Bool, true, false, ◌&&◌}
use mathlib.Core.List.{List, [], ◌∷◌}
use native.Mathlib.Omega.{arith}
use fx_ui.Base.Tests.{◌==◌}

abbrev pub Bytes : Type 0
Bytes = List ℕ

-- The bytes of an ASCII literal.
abbrev pub codes : String → Bytes
codes String.[] = []
codes (String.◌∷◌ c s) = code c ∷ codes s

unfoldable pub byte_eq : Bytes → Bytes → Bool
byte_eq [] [] = true
byte_eq [] (y ∷ ys) = false
byte_eq (x ∷ xs) [] = false
byte_eq (x ∷ xs) (y ∷ ys) = x == y && byte_eq xs ys

pub byte_eq→eq : (s t : Bytes) → byte_eq s t ≡ true → s ≡ t
unfolding byte_eq
byte_eq→eq [] [] h = refl
byte_eq→eq [] (y ∷ ys) h = ground arith
byte_eq→eq (x ∷ xs) [] h = ground arith
byte_eq→eq (x ∷ xs) (y ∷ ys) h = ground (arith, byte_eq→eq xs ys)

pub byte_eq_refl : (s : Bytes) → byte_eq s s ≡ true
unfolding byte_eq
byte_eq_refl [] = refl
byte_eq_refl (x ∷ xs) = ground (arith, byte_eq_refl xs)

pub byte_eq_iff : (s t : Bytes) → (byte_eq s t ≡ true) ↔ (s ≡ t)
byte_eq_iff s t = (byte_eq→eq s t, λ e. rw (← e) (byte_eq_refl s))

pub byte_eq_sym : (s t : Bytes) → byte_eq s t ≡ byte_eq t s
unfolding byte_eq
byte_eq_sym [] [] = refl
byte_eq_sym [] (y ∷ ys) = refl
byte_eq_sym (x ∷ xs) [] = refl
byte_eq_sym (x ∷ xs) (y ∷ ys) = ground (arith, byte_eq_sym xs ys)
