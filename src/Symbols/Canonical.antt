-- ===== src/Symbols/Canonical.antt =====
-- reference/shen-gc/zincvm.c: two symbols have the same pointer exactly if they have the same name,
-- which the test of pointers for `=` relies on.
use fx_ui.Base.{
  ℕ, ◌<◌, ◌≡◌, ◌⊎◌, ◌↔◌, refl, sym, ◌∙◌, ap, true, Option, none, some, arith, inl, inr,
}
use fx_ui.Base.Bytes.{Bytes}
use fx_ui.Symbols.{SymbolTable, cell_at, with_room, load_fits, sym_dyn_get, static_or, val_symbol}
use fx_ui.Symbols.Rehash.{Has}
use fx_ui.Symbols.Laws.{IsValid, with_room-Ready, found_or-Interned}

-- What `sym_dyn_get` gives and leaves.
record Got (low : ℕ) (name : Bytes) (t : SymbolTable) (r : ℕ × SymbolTable) : Type 0 where
  valid : IsValid low r.1
  there : Has r.1.cells r.0 name
  keeps : (p : ℕ) (m : Bytes) → Has t.cells p m → Has r.1.cells p m

sym_dyn_get-Got :
    (low : ℕ) (name : Bytes) (t : SymbolTable)
    → IsValid low t
    → t.count < 21474837
    → (r : ℕ × SymbolTable) × (sym_dyn_get name t ≡ some r) × Got low name t r
unfolding sym_dyn_get
sym_dyn_get-Got low name t valid few =
    let ready = with_room-Ready low t valid in
    let g = found_or-Interned low (with_room t) ready.ok ready.room name in
    let fits : load_fits t ≡ true = ground arith in
    (
      _,
      rw fits refl,
      record { valid = g.valid; there = g.there; keeps = λ p m h. g.keeps p m (ready.same p m h) },
    )

-- The generated table of the bundle's symbols: no pointer has two names, and all of them lie below
-- those that `strdup` gives.
module _ (symbol_static_lookup : Bytes → Option ℕ) (low : ℕ)
    (static_named : (p : ℕ) (a b : Bytes)
      → symbol_static_lookup a ≡ some p
      → symbol_static_lookup b ≡ some p
      → a ≡ b)
    (static_low : (p : ℕ) (a : Bytes) → symbol_static_lookup a ≡ some p → p < low) where
  -- `p` is the pointer of the symbol `a`.
  abbrev pub Stands : SymbolTable → ℕ → Bytes → Type 0
  Stands t p a =
      (symbol_static_lookup a ≡ some p) ⊎ ((symbol_static_lookup a ≡ none) × Has t.cells p a)

  one_name :
      (t : SymbolTable) (p : ℕ) (a b : Bytes) → IsValid low t → Stands t p a → Stands t p b → a ≡ b
  one_name t p a b valid (inl h) (inl g) = static_named p a b h g
  one_name t p a b valid (inl h) (inr g) =
      absurd (omega (arith, static_low p a h, (valid.inside p b g.1).0))
  one_name t p a b valid (inr h) (inl g) =
      absurd (omega (arith, static_low p b g, (valid.inside p a h.1).0))
  one_name t p a b valid (inr h) (inr g) = valid.named p a b h.1 g.1

  some_eq : (p q : ℕ) → some p ≡ some q → p ≡ q
  some_eq p q h = cc

  in_cell : (q p : ℕ) (a : Bytes) → ◌≡◌ {A = Option (ℕ × Bytes)} (some (p, a)) (some (q, a)) → p ≡ q
  in_cell q p a h = cc

  one_pointer :
      (t : SymbolTable) (p q : ℕ) (a : Bytes) → IsValid low t → Stands t p a → Stands t q a → p ≡ q
  one_pointer t p q a valid (inl h) (inl g) = some_eq p q (sym h ∙ g)
  one_pointer t p q a valid (inl h) (inr g) = let n = g.0 in cc
  one_pointer t p q a valid (inr h) (inl g) = let n = h.0 in cc
  one_pointer t p q a valid (inr (n, (i, h))) (inr (n', (k, g))) =
      let same = valid.tight.single i k p q a h g in
      in_cell q p a (sym h ∙ ap (cell_at t.cells) same ∙ g)

  -- What `val_symbol` gives and leaves.
  record Canonical (a : Bytes) (t : SymbolTable) (r : ℕ × SymbolTable) : Type 0 where
    valid : IsValid low r.1
    there : Stands r.1 r.0 a
    keeps : (p : ℕ) (m : Bytes) → Has t.cells p m → Has r.1.cells p m

  abbrev Answers : Bytes → SymbolTable → Option (ℕ × SymbolTable) → Type 0
  Answers a t o = (r : ℕ × SymbolTable) × (o ≡ some r) × Canonical a t r

  static_or-Answers :
      (a : Bytes) (t : SymbolTable) (o : Option ℕ)
      → symbol_static_lookup a ≡ o
      → IsValid low t
      → t.count < 21474837
      → Answers a t (static_or a t o)
  static_or-Answers a t (some p) e valid few =
      ((p, t), refl, record { valid = valid; there = inl e; keeps = λ p m h. h })
  static_or-Answers a t none e valid few =
      let (r, got, g) = sym_dyn_get-Got low a t valid few in
      (r, got, record { valid = g.valid; there = inr (e, g.there); keeps = g.keeps })

  val_symbol-Answers :
      (a : Bytes) (t : SymbolTable)
      → IsValid low t
      → t.count < 21474837
      → Answers a t (val_symbol symbol_static_lookup a t)
  unfolding val_symbol
  val_symbol-Answers a t valid few = static_or-Answers a t (symbol_static_lookup a) refl valid few

  Stands-kept :
      (t u : SymbolTable) (q : ℕ) (a : Bytes)
      → ((p : ℕ) (m : Bytes) → Has t.cells p m → Has u.cells p m)
      → Stands t q a
      → Stands u q a
  Stands-kept t u q a keeps (inl h) = inl h
  Stands-kept t u q a keeps (inr h) = inr (h.0, keeps q a h.1)

  moved_name : (t : SymbolTable) (p : ℕ) (a b : Bytes) → b ≡ a → Stands t p b → Stands t p a
  moved_name t p a b e h = rw (← e) h

  moved_pointer : (t : SymbolTable) (p q : ℕ) (b : Bytes) → p ≡ q → Stands t p b → Stands t q b
  moved_pointer t p q b e h = rw (← e) h

  -- In a valid table of fewer than 21474837 symbols, where `q` is the pointer of the symbol `a`, the
  -- interning of `b` ends with a pointer and a valid table where `q` still is the pointer of `a`, and
  -- the pointer is `q` exactly if `b` is the name `a`. The generated lookup gives no pointer to two
  -- names, and only pointers below those of `strdup`.
  pub val_symbol_canonical :
      (t : SymbolTable) (q : ℕ) (a b : Bytes)
      → IsValid low t
      → t.count < 21474837
      → Stands t q a
      → (r : ℕ × SymbolTable) × (val_symbol symbol_static_lookup b t ≡ some r)
        × IsValid low r.1
        × Stands r.1 q a
        × ((r.0 ≡ q) ↔ (b ≡ a))
  val_symbol_canonical t q a b valid few h =
      let ((p, u), got, c) = val_symbol-Answers b t valid few in
      let old = Stands-kept t u q a c.keeps h in
      (
        (p, u),
        got,
        c.valid,
        old,
        (
          λ e. one_name u q b a c.valid (moved_pointer u p q b e c.there) old,
          λ e. one_pointer u p q a c.valid (moved_name u p a b e c.there) old,
        ),
      )
