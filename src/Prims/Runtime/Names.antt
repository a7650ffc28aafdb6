-- ===== src/Prims/Runtime/Names.antt =====
-- reference/shen-gc/zincvm.c: the names of `gensym` and `newvar` are fresh.
use fx_ui.Base.{ℕ, ◌+◌, ◌^◌, ◌≤◌, ◌≡◌, ◌≢◌, sym, ◌∙◌, ap, List, arith, ltb, drop, if-cases}
use fx_ui.Base.Bytes.{Bytes}
use fx_ui.Base.Int.{pos}
use fx_ui.Value.{Value}
use fx_ui.Machine.State.{PrimResult}
use fx_ui.Parse.Reader.{number_written}
use fx_ui.Parse.Encode.{decimal, decimal_ℤ}
use fx_ui.Parse.Decimal.{number_written-decimal_ℤ}
use fx_ui.Prims.Runtime.{Runtime, drop_top, gensym_name, newvar_name, prim_gensym, prim_newvar}

number_written-decimal : (n : ℕ) → number_written (decimal n) ≡ pos n
unfolding decimal_ℤ
number_written-decimal n = number_written-decimal_ℤ (pos n)

pos_injective : (m n : ℕ) → pos m ≡ pos n → m ≡ n
pos_injective m n h = cc

decimal_injective : (m n : ℕ) → decimal m ≡ decimal n → m ≡ n
decimal_injective m n h =
    pos_injective m n
      (sym (number_written-decimal m) ∙ ap number_written h ∙ number_written-decimal n)

gensym_name_injective : (m n : ℕ) → gensym_name m ≡ gensym_name n → m ≡ n
gensym_name_injective m n h = decimal_injective m n (ap (drop 12) h)

newvar_name_injective : (m n : ℕ) → newvar_name m ≡ newvar_name n → m ≡ n
newvar_name_injective m n h = decimal_injective m n (ap (drop 2) h)

symbol_injective : (s t : Bytes) → Value.symbol s ≡ Value.symbol t → s ≡ t
symbol_injective s t h = cc

module _ {E : Type 0} where
  primed_parts :
      (u v : Value) (s t : List Value) (w w' : Runtime E)
      → PrimResult.primed u s w ≡ PrimResult.primed v t w'
      → (u ≡ v) × (w ≡ w')
  primed_parts u v s t w w' h = (cc, cc)

  -- A counter that was raised, and the name that it gave.
  gensym_at :
      (w w' : Runtime E) (v : Value) (st st' : List Value)
      → prim_gensym w st ≡ PrimResult.primed v st' w'
      → (v ≡ Value.symbol (gensym_name w.gensyms)) × (w'.gensyms ≡ w.gensyms + 1)
  unfolding prim_gensym
  gensym_at w w' v st st' h =
      if-cases
        (λ r.
          r ≡ PrimResult.primed v st' w'
          → (v ≡ Value.symbol (gensym_name w.gensyms)) × (w'.gensyms ≡ w.gensyms + 1))
        (ltb (w.gensyms + 1) (2 ^ 63)) _ PrimResult.died
        (λ _ g.
          let (a, b) = primed_parts _ v (drop_top st) st' _ w' g in
          (sym a, sym (ap (λ r. r.gensyms) b)))
        (λ _ g. cc) h

  newvar_at :
      (w w' : Runtime E) (v : Value) (st st' : List Value)
      → prim_newvar w st ≡ PrimResult.primed v st' w'
      → (v ≡ Value.symbol (newvar_name w.newvars)) × (w'.newvars ≡ w.newvars + 1)
  unfolding prim_newvar
  newvar_at w w' v st st' h =
      if-cases
        (λ r.
          r ≡ PrimResult.primed v st' w'
          → (v ≡ Value.symbol (newvar_name w.newvars)) × (w'.newvars ≡ w.newvars + 1))
        (ltb (w.newvars + 1) (2 ^ 31)) _ PrimResult.died
        (λ _ g.
          let (a, b) = primed_parts _ v (drop_top st) st' _ w' g in
          (sym a, sym (ap (λ r. r.newvars) b)))
        (λ _ g. cc) h

  -- A later `gensym` gives another symbol, as long as the counter has only grown since.
  pub prim_gensym_fresh :
      (w w' later end : Runtime E) (v u : Value) (st st' su su' : List Value)
      → prim_gensym w st ≡ PrimResult.primed v st' w'
      → w'.gensyms ≤ later.gensyms
      → prim_gensym later su ≡ PrimResult.primed u su' end
      → v ≢ u
  prim_gensym_fresh w w' later end v u st st' su su' h le g =
      let (a, b) = gensym_at w w' v st st' h in
      let (c, d) = gensym_at later end u su su' g in
      λ e.
        let same =
          gensym_name_injective w.gensyms later.gensyms (symbol_injective _ _ (sym a ∙ e ∙ c)) in
        absurd (omega arith)

  -- A later `newvar` gives another variable, as long as the counter has only grown since.
  pub prim_newvar_fresh :
      (w w' later end : Runtime E) (v u : Value) (st st' su su' : List Value)
      → prim_newvar w st ≡ PrimResult.primed v st' w'
      → w'.newvars ≤ later.newvars
      → prim_newvar later su ≡ PrimResult.primed u su' end
      → v ≢ u
  prim_newvar_fresh w w' later end v u st st' su su' h le g =
      let (a, b) = newvar_at w w' v st st' h in
      let (c, d) = newvar_at later end u su su' g in
      λ e.
        let same =
          newvar_name_injective w.newvars later.newvars (symbol_injective _ _ (sym a ∙ e ∙ c)) in
        absurd (omega arith)
