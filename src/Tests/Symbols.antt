-- ===== src/Tests/Symbols.antt =====
-- The interning of a symbol in an empty table, beside a generated table of one name.
use fx_ui.Base.{
  ℕ, ◌≡◌, ◌<◌, ◌↔◌, refl, sym, ◌∙◌, Option, none, some, [], arith, if◌then◌else◌, Bool-cases, inl,
  inr,
}
use fx_ui.Base.Bytes.{Bytes, byte_eq, byte_eq→eq, codes}
use fx_ui.Symbols.{SymbolTable, val_symbol}
use fx_ui.Symbols.Laws.{IsValid}
use fx_ui.Symbols.Canonical.{Stands, val_symbol_canonical}

abbrev only_hd : Bytes → Option ℕ
only_hd s = if byte_eq s (codes "hd") then some 0 else none

abbrev no_symbols : SymbolTable
no_symbols = record { cells = []; count = 0; fresh = 1 }

only_hd_found : (p : ℕ) (a : Bytes) → only_hd a ≡ some p → (p ≡ 0) × (a ≡ codes "hd")
only_hd_found p a h = elim (Bool-cases (byte_eq a (codes "hd"))) [
  | inl e ↦ let r = rw e at h in (cc, byte_eq→eq a (codes "hd") e)
  | inr e ↦ let r = rw e at h in absurd cc
]

only_hd_named : (p : ℕ) (a b : Bytes) → only_hd a ≡ some p → only_hd b ≡ some p → a ≡ b
only_hd_named p a b h g = (only_hd_found p a h).1 ∙ sym (only_hd_found p b g).1

only_hd_low : (p : ℕ) (a : Bytes) → only_hd a ≡ some p → p < 1
only_hd_low p a h = omega (arith, (only_hd_found p a h).0)

no_symbols-IsValid : IsValid 1 no_symbols
no_symbols-IsValid = record {
  tight = record { way = λ i p m h. absurd cc; single = λ i k p q m h g. absurd cc };
  counted = refl;
  above = omega arith;
  inside = λ p m h. let e = h.1 in absurd cc;
  named = λ p m n h g. let e = h.1 in absurd cc;
}

hd_found : only_hd (codes "hd") ≡ some 0
unfolding byte_eq
hd_found = refl

val_symbol_canonical_example :
    (r : ℕ × SymbolTable) × (val_symbol only_hd (codes "foo") no_symbols ≡ some r)
    × IsValid 1 r.1
    × Stands only_hd 1 only_hd_named only_hd_low r.1 0 (codes "hd")
    × ((r.0 ≡ 0) ↔ (codes "foo" ≡ codes "hd"))
val_symbol_canonical_example =
    val_symbol_canonical only_hd 1 only_hd_named only_hd_low no_symbols 0 (codes "hd") (codes "foo")
      no_symbols-IsValid (omega arith) (inl hd_found)
