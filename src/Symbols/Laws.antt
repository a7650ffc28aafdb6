-- ===== src/Symbols/Laws.antt =====
-- reference/shen-gc/zincvm.c: a symbol's pointer is canonical for its name.
use fx_ui.Base.{
  ℕ, zero, suc, ◌+◌, ◌*◌, ◌/◌, ◌%◌, ◌≤◌, ◌<◌, ◌≡◌, ◌≢◌, ◌⊎◌, refl, sym, ◌∙◌, ap, false, none, some,
  List, [], ◌∷◌, arith, ◌==◌, ==_iff, ltb, set, length, replicate, length-replicate,
  get_or-replicate, Option-cases, if-cases, inl, inr,
}
use fx_ui.Base.Bytes.{Bytes}
use fx_ui.Symbols.{
  Cell, cell_at, SymbolTable, first_null, rehash, sym_dyn_resize, search, with_room, insert_at,
  found_or,
}
use fx_ui.Symbols.Cells.{taken, first_null-exists, search-some, search-held, Tight}
use fx_ui.Symbols.Entry.{
  at_entry, with_entry-cell, with_entry-Tight, taken-with_entry, with_entry-keeps,
}
use fx_ui.Symbols.Rehash.{Has, Rehashed, rehash-Rehashed}

-- Every name stands on its way and once, the count is right, and the pointers lie from `low` up to
-- the next that `strdup` gives, each with one name.
pub record IsValid (low : ℕ) (t : SymbolTable) : Type 0 where
  pub tight : Tight t.cells
  pub counted : taken t.cells ≡ t.count
  pub above : low ≤ t.fresh
  pub inside : (p : ℕ) (m : Bytes) → Has t.cells p m → (low ≤ p) × (p < t.fresh)
  pub named : (p : ℕ) (m n : Bytes) → Has t.cells p m → Has t.cells p n → m ≡ n

taken-le : (cs : List Cell) → taken cs ≤ length cs
taken-le [] = omega arith
taken-le (none ∷ cs) = omega (arith, taken-le cs)
taken-le (some e ∷ cs) = omega (arith, taken-le cs)

taken-replicate : (n : ℕ) → taken (replicate n none) ≡ 0
taken-replicate zero = refl
taken-replicate (suc n) = taken-replicate n

no_entry : (n i p : ℕ) (m : Bytes) → cell_at (replicate n none) i ≢ some (p, m)
no_entry n i p m h = let e = get_or-replicate {A = Cell} n i none in cc

replicate-Tight : (n : ℕ) → Tight (replicate n none)
replicate-Tight n = record {
  way = λ i p m h. absurd (no_entry n i p m h);
  single = λ i k p q m h g. absurd (no_entry n i p m h);
}

whole_div : (a b : ℕ) → 1 ≤ b → a / b * b + a % b ≡ a
whole_div a b h = grind arith

times_le : (q n : ℕ) → q ≤ 70 → q * n ≤ 70 * n
times_le q n h = grind arith

rest_lt : (a n : ℕ) → 1 ≤ n → a % n < n
rest_lt a n h = grind arith

-- A load of 70 percent leaves a null cell.
light_load : (a n : ℕ) → n ≢ 0 → ltb 70 (a * 100 / n) ≡ false → a < n
light_load a n h e =
    let some_n : 1 ≤ n = ground arith in
    let low : a * 100 / n ≤ 70 = ground arith in
    omega (
      arith,
      whole_div (a * 100) n some_n,
      times_le (a * 100 / n) n low,
      rest_lt (a * 100) n some_n,
    )

module _ (low : ℕ) (t : SymbolTable) (valid : IsValid low t) where
  rehashed :
      (n : ℕ)
      → taken t.cells < n
      → Rehashed t.cells (replicate n none) (rehash t.cells (replicate n none))
  rehashed n h =
      let empty = taken-replicate n in
      let wide = length-replicate {A = Cell} n none in
      rehash-Rehashed t.cells (replicate n none) (replicate-Tight n) valid.tight.single
        (λ i k p q m a. no_entry n k q m) (omega arith)

  -- The table before the search: it holds the same entries, and has a null cell.
  pub record Ready (u : SymbolTable) : Type 0 where
    pub ok : IsValid low u
    pub room : taken u.cells < length u.cells
    pub same : (p : ℕ) (m : Bytes) → Has t.cells p m → Has u.cells p m

  from_new :
      (n p : ℕ) (m : Bytes)
      → Rehashed t.cells (replicate n none) (rehash t.cells (replicate n none))
      → Has (rehash t.cells (replicate n none)) p m
      → Has t.cells p m
  from_new n p m r h = elim (r.origin p m h) [ inl a ↦ a | inr b ↦ absurd (no_entry n b.0 p m b.1) ]

  resize-Ready : (n : ℕ) → taken t.cells < n → Ready (sym_dyn_resize n t)
  unfolding sym_dyn_resize
  resize-Ready n h =
      let r = rehashed n h in
      let empty = taken-replicate n in
      let wide = length-replicate {A = Cell} n none in
      let count = r.counted in
      let size = r.size in
      let old = valid.counted in
      record {
        ok = record {
          tight = r.tight;
          counted = omega arith;
          above = valid.above;
          inside = λ p m a. valid.inside p m (from_new n p m r a);
          named = λ p m k a b. valid.named p m k (from_new n p m r a) (from_new n p k r b);
        };
        room = omega arith;
        same = r.moved;
      }

  pub with_room-Ready : Ready (with_room t)
  unfolding with_room
  with_room-Ready =
      let fits = taken-le t.cells in
      let count = valid.counted in
      if-cases Ready (length t.cells == 0) _ _
        (λ e.
          let none_there : length t.cells ≡ 0 = (==_iff (length t.cells) 0).0 e in
          resize-Ready 256 (omega arith))
        (λ e.
          let some_there : length t.cells ≢ 0 = λ z. cc ((==_iff (length t.cells) 0).1 z) in
          if-cases Ready (ltb 70 (t.count * 100 / length t.cells)) _ _
            (λ f. resize-Ready (length t.cells * 2) (ground arith))
            (λ f.
              let few = light_load t.count (length t.cells) some_there f in
              record { ok = valid; room = omega arith; same = λ p m h. h }))

cell_parts :
    (q p : ℕ) (name m : Bytes)
    → ◌≡◌ {A = Cell} (some (q, name)) (some (p, m))
    → (p ≡ q) × (m ≡ name)
cell_parts q p name m h = (cc, cc)

-- The name was found, or there is none of it in the table and it gets a cell.
module _ (low : ℕ) (u : SymbolTable) (ok : IsValid low u) (room : taken u.cells < length u.cells)
    (name : Bytes) where
  -- What is interned: the pointer, and the table after it.
  pub record Interned (r : ℕ × SymbolTable) : Type 0 where
    pub valid : IsValid low r.1
    pub there : Has r.1.cells r.0 name
    pub keeps : (p : ℕ) (m : Bytes) → Has u.cells p m → Has r.1.cells p m

  missing :
      search (length u.cells) u.cells name 0 ≡ none → (k q : ℕ) → cell_at u.cells k ≢ some (q, name)
  missing h k q e = let f = search-held u.cells ok.tight name k q e in cc

  module _ (absent : (k q : ℕ) → cell_at u.cells k ≢ some (q, name)) (i : ℕ)
      (found : first_null (length u.cells) u.cells name 0 ≡ some i) where
    abbrev cells : List Cell
    cells = set u.cells i (some (u.fresh, name))

    origin : (p : ℕ) (m : Bytes) → Has cells p m → ((p ≡ u.fresh) × (m ≡ name)) ⊎ Has u.cells p m
    origin p m (j, h) =
        elim (with_entry-cell u.cells ok.tight (u.fresh, name) i found absent j p m h) [
          | inl c ↦ inl (cell_parts u.fresh p name m c.1)
          | inr c ↦ inr (j, c)
        ]

    too_old : (p : ℕ) (m : Bytes) → p ≡ u.fresh → Has u.cells p m → ⊥
    too_old p m e h = let b = ok.inside p m h in omega (arith, b.1, e)

    named_after : (p : ℕ) (m n : Bytes) → Has cells p m → Has cells p n → m ≡ n
    named_after p m n a b = elim (origin p m a) [
      | inl c ↦ elim (origin p n b) [ inl d ↦ c.1 ∙ sym d.1 | inr d ↦ absurd (too_old p n c.0 d) ]
      | inr c ↦ elim (origin p n b) [
        | inl d ↦ absurd (too_old p m d.0 c)
        | inr d ↦ ok.named p m n c d
      ]
    ]

    inside_after : (p : ℕ) (m : Bytes) → Has cells p m → (low ≤ p) × (p < u.fresh + 1)
    inside_after p m a = elim (origin p m a) [
      | inl c ↦ (omega (arith, ok.above, c.0), omega (arith, c.0))
      | inr c ↦ let b = ok.inside p m c in (b.0, omega (arith, b.1))
    ]

    insert-Interned : Interned (insert_at name u (some i))
    insert-Interned =
        let one = taken-with_entry u.cells ok.tight (u.fresh, name) i found absent in
        record {
          valid = record {
            tight = with_entry-Tight u.cells ok.tight (u.fresh, name) i found absent;
            counted = one ∙ ap suc ok.counted ∙ omega arith;
            above = omega (arith, ok.above);
            inside = inside_after;
            named = named_after;
          };
          there = (i, at_entry u.cells ok.tight (u.fresh, name) i found absent);
          keeps = λ p m h.
              (h.0, with_entry-keeps u.cells ok.tight (u.fresh, name) i found absent h.0 p m h.1);
        }

  pub found_or-Interned : Interned (found_or name u (search (length u.cells) u.cells name 0))
  found_or-Interned = elim (Option-cases (search (length u.cells) u.cells name 0)) [
    | inr (p, e) ↦ rw e (record {
      valid = ok;
      there = search-some (length u.cells) u.cells name 0 e;
      keeps = λ q m h. h;
    })
    | inl e ↦
        let (i, found) = first_null-exists u.cells name room in
        rw (e, found) (insert-Interned (missing e) i found)
  ]
