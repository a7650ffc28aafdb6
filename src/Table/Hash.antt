-- ===== src/Table/Hash.antt =====
-- reference/shen-gc/zincvm.c: the FNV-1a hashes over the bytes of a name, on `uint32_t`.
use Prim.Native.Nat.{bit_xor}
use fx_ui.Base.{ℕ, ◌*◌, ◌%◌, ◌^◌, ◌<◌, [], ◌∷◌, arith}
use fx_ui.Base.Bytes.{Bytes}

-- `for (p = name; *p; p++) { h ^= *p; h *= 16777619u; }`
unfoldable pub fnv : ℕ → Bytes → ℕ
fnv h [] = h
fnv h (b ∷ bs) = fnv ((bit_xor h b * 16777619) % 2 ^ 32) bs

abbrev pub fnv_basis : ℕ
fnv_basis = 2166136261

unfoldable pub hash_name : Bytes → ℕ → ℕ
hash_name name cap = fnv fnv_basis name % cap

unfoldable pub hash_name_h0 : Bytes → ℕ
hash_name_h0 name = fnv fnv_basis name

unfoldable pub hash_name_h1 : Bytes → ℕ → ℕ
hash_name_h1 name seed = fnv seed name

pub hash_name-lt : (name : Bytes) (cap : ℕ) → 0 < cap → hash_name name cap < cap
unfolding hash_name
hash_name-lt name cap h = omega arith
