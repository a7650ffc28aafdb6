-- ===== src/Prims/Runtime/Laws.antt =====
-- reference/shen-gc/zincvm.c: the primitives on vectors, which are shared arrays.
use fx_ui.Base.{
  ℕ, suc, ◌+◌, ◌^◌, ◌<◌, ◌≡◌, refl, true, ◌&&◌, List, ◌∷◌, arith, ltb, ◌==◌, if◌then◌else◌,
}
use fx_ui.Base.Int.{pos}
use fx_ui.Value.{Value, no_operand}
use fx_ui.Machine.State.{PrimResult}
use fx_ui.Prims.Runtime.{
  Runtime, Prim, zeroed, with_element, prim_absvector, prim_address_to, prim_from_address,
}
use fx_ui.Prims.Texts.Cut.{to_int_same}

module _ {E : Type 0} where
  read_lem :
      (w : Runtime E) (b m j : ℕ) (st : List Value)
      → j < m
      → m < 2 ^ 31
      → prim_from_address w (Value.vector b m ∷ Value.number (pos j) ∷ st)
        ≡ PrimResult.primed (w.store b j) st w
  unfolding prim_from_address
  read_lem w b m j st low fits =
      let same = to_int_same (pos j) (omega arith) in
      let test : ltb j m ≡ true = ground arith in rw (same, test) refl

  -- An element that is written is read back, through every vector on the array, and every other
  -- element of every vector reads as before, for indices within the vectors.
  pub prim_from_address-prim_address_to :
      (w : Runtime E) (a n i : ℕ) (v : Value) (b m j : ℕ) (st : List Value)
      → i < n
      → n < 2 ^ 31
      → j < m
      → m < 2 ^ 31
      → (w' : Runtime E) × (prim_address_to w (Value.vector a n ∷ Value.number (pos i) ∷ v ∷ st)
          ≡ PrimResult.primed (Value.vector a n) st w')
        × (prim_from_address w' (Value.vector b m ∷ Value.number (pos j) ∷ st)
            ≡ PrimResult.primed (if (b == a) && (j == i) then v else w.store b j) st w')
  unfolding prim_address_to
  prim_from_address-prim_address_to w a n i v b m j st low fits lo hi =
      let w' = record w { store = with_element w.store a i v } in
      let same = to_int_same (pos i) (omega arith) in
      let test : ltb i n ≡ true = ground arith in
      (w', rw (same, test) refl, read_lem w' b m j st lo hi)

  -- A new vector holds zeros, and shares no element with a vector that stands on another array.
  pub prim_absvector_lem :
      (w : Runtime E) (n b m j : ℕ) (st : List Value)
      → suc n < 2 ^ 31
      → j < m
      → m < 2 ^ 31
      → (a : ℕ) × (w' : Runtime E) × (prim_absvector w (Value.number (pos (suc n)) ∷ st)
          ≡ PrimResult.primed (Value.vector a (suc n)) st w')
        × (prim_from_address w' (Value.vector b m ∷ Value.number (pos j) ∷ st)
            ≡ PrimResult.primed (if b == a then no_operand else w.store b j) st w')
        × (a < w'.next_array)
  unfolding prim_absvector
  prim_absvector_lem w n b m j st fits lo hi =
      let w' = record w { store = zeroed w.store w.next_array; next_array = w.next_array + 1 } in
      let same = to_int_same (pos (suc n)) fits in
      (w.next_array, w', rw same refl, read_lem w' b m j st lo hi, omega arith)
