-- ===== src/Bundle/Fills.antt =====
-- reference/shen-gc/zincvm.c: what stands in the defun table before it is frozen.
use fx_ui.Base.{
  ℕ, suc, ◌+◌, ◌≤◌, ◌≡◌, refl, sym, ◌∙◌, ap, false, Option, none, some, List, [], ◌∷◌, arith,
  length, if◌then◌else◌, Bool-cases, Option-cases, inl, inr,
}
use fx_ui.Base.Bytes.{Bytes, byte_eq, byte_eq→eq}
use fx_ui.Value.{Value}
use fx_ui.Table
use fx_ui.Table.DefunTable.{
  DefunTable, boot_set, set_bootstrap, defun_set, is_found, defun_find, defun_has,
  exec_primitive_valid,
}
use fx_ui.Table.Freeze.{Key}
use fx_ui.Table.Freeze.Dedup.{DistinctNames, boot_set-DistinctNames}
use fx_ui.Bundle.{entry_closure}
use fx_ui.Bundle.Encode.{Entry, set_entries}
use fx_ui.Bundle.RoundTrip.{find-set_bootstrap}
use fx_ui.Bundle.Boot.{and_defuns, init_globals, add_keywords}

-- A table that is not frozen, with `low` names at least and `n` at most, all distinct.
pub record Boots (low n : ℕ) (t : DefunTable) : Type 0 where
  pub boot : t.runtime ≡ false
  pub distinct : DistinctNames t.bootstrap
  pub least : low ≤ length t.bootstrap
  pub few : length t.bootstrap ≤ n

length-boot_set :
    (name : Bytes) (v : Value) (ks : List Key)
    → (length (boot_set name v ks) ≤ suc (length ks))
      × (length ks ≤ length (boot_set name v ks))
      × (1 ≤ length (boot_set name v ks))
unfolding boot_set
length-boot_set name v [] = (omega arith, omega arith, omega arith)
length-boot_set name v ((k, w) ∷ ks) = elim (Bool-cases (byte_eq k name)) [
  | inl e ↦ rw e (omega arith, omega arith, omega arith)
  | inr e ↦
      let (a, b, c) = length-boot_set name v ks in rw e (omega arith, omega arith, omega arith)
]

module _ (name : Bytes) (v : Value) {low n : ℕ} (t : DefunTable) (b : Boots low n t) where
  pub set_bootstrap-Boots : Boots low (suc n) (set_bootstrap name v t)
  unfolding set_bootstrap
  set_bootstrap-Boots =
      let (most, least, filled) = length-boot_set name v t.bootstrap in
      record {
        boot = b.boot;
        distinct = boot_set-DistinctNames name v t.bootstrap b.distinct;
        least = omega (arith, b.least);
        few = omega (arith, b.few);
      }

  pub set_bootstrap_some : 1 ≤ length (set_bootstrap name v t).bootstrap
  unfolding set_bootstrap
  set_bootstrap_some = (length-boot_set name v t.bootstrap).2

defun_set-eq :
    (name : Bytes) (v : Value) (t : DefunTable)
    → t.runtime ≡ false
    → defun_set name v t ≡ Table.DefunTable.Stored.stored (set_bootstrap name v t)
unfolding defun_set
defun_set-eq name v t boot = rw boot refl

-- The stores end with a table of at most `n` names in which a name has what `find` gives.
pub record Fills (low n : ℕ) (find : Bytes → Option Value) (s : Table.DefunTable.Stored)
    : Type 0 where
  pub table : DefunTable
  pub ends : s ≡ Table.DefunTable.Stored.stored table
  pub boots : Boots low n table
  pub finds : (m : Bytes) → defun_find m table ≡ find m

-- What `init_globals` leaves for `m`, where `o` stood before.
abbrev pub prim_or : List Bytes → Bytes → Option Value → Option Value
prim_or prims m o = if exec_primitive_valid prims m then some (Value.prim m) else o

prim_step :
    (p m : Bytes) (ps : List Bytes) (o : Option Value)
    → prim_or ps m (if byte_eq p m then some (Value.prim p) else o) ≡ prim_or (p ∷ ps) m o
unfolding exec_primitive_valid
prim_step p m ps o = elim (Bool-cases (byte_eq p m)) [
  | inr e ↦ rw e refl
  | inl e ↦ elim (Bool-cases (exec_primitive_valid ps m)) [
    | inl f ↦ rw (e, f) refl
    | inr f ↦ rw (e, f) (ap (λ x. some (Value.prim x)) (byte_eq→eq p m e))
  ]
]

-- What `add_keywords` leaves for `m`, where `o` stood before.
abbrev pub keyword_or : List Bytes → Bytes → Option Value → Option Value
keyword_or ks m (some v) = some v
keyword_or ks m none = if exec_primitive_valid ks m then some (Value.symbol m) else none

keyword_or-nil : (m : Bytes) (o : Option Value) → keyword_or [] m o ≡ o
unfolding exec_primitive_valid
keyword_or-nil m none = refl
keyword_or-nil m (some v) = refl

other_keyword :
    (k m : Bytes) (ks : List Bytes) (o : Option Value)
    → byte_eq k m ≡ false
    → keyword_or ks m o ≡ keyword_or (k ∷ ks) m o
unfolding exec_primitive_valid
other_keyword k m ks none e = rw e refl
other_keyword k m ks (some v) e = refl

keyword_known :
    (k m : Bytes) (ks : List Bytes) (t : DefunTable) (v : Value)
    → defun_find k t ≡ some v
    → keyword_or ks m (defun_find m t) ≡ keyword_or (k ∷ ks) m (defun_find m t)
keyword_known k m ks t v h = elim (Bool-cases (byte_eq k m)) [
  | inr e ↦ other_keyword k m ks (defun_find m t) e
  | inl e ↦ let there : defun_find m t ≡ some v = rw (← byte_eq→eq k m e) h in rw there refl
]

keyword_new :
    (k m : Bytes) (ks : List Bytes) (t : DefunTable)
    → defun_find k t ≡ none
    → keyword_or ks m (if byte_eq k m then some (Value.symbol k) else defun_find m t)
      ≡ keyword_or (k ∷ ks) m (defun_find m t)
unfolding exec_primitive_valid
keyword_new k m ks t h = elim (Bool-cases (byte_eq k m)) [
  | inr e ↦ rw e (other_keyword k m ks (defun_find m t) e)
  | inl e ↦
      let absent : defun_find m t ≡ none = rw (← byte_eq→eq k m e) h in
      rw (absent, e) (ap (λ x. some (Value.symbol x)) (byte_eq→eq k m e))
]

pub weaken-Boots : {low n m : ℕ} {t : DefunTable} → n ≤ m → Boots low n t → Boots low m t
weaken-Boots h b = record {
  boot = b.boot;
  distinct = b.distinct;
  least = b.least;
  few = omega (arith, b.few);
}

module _ {low : ℕ} where
  pub init_globals-Fills :
      (prims : List Bytes) (n : ℕ) (t : DefunTable)
      → Boots low n t
      → Fills low (n + length prims) (λ m. prim_or prims m (defun_find m t)) (init_globals prims t)
  unfolding init_globals exec_primitive_valid
  init_globals-Fills [] n t b = record {
    table = t;
    ends = refl;
    boots = weaken-Boots (omega arith) b;
    finds = λ m. refl;
  }
  init_globals-Fills (p ∷ ps) n t b =
      let u = set_bootstrap p (Value.prim p) t in
      let f = init_globals-Fills ps (suc n) u (set_bootstrap-Boots p (Value.prim p) t b) in
      record {
        table = f.table;
        ends =
            ap (λ s. and_defuns s (init_globals ps)) (defun_set-eq p (Value.prim p) t b.boot)
            ∙ f.ends;
        boots = weaken-Boots (omega arith) f.boots;
        finds = λ m.
            f.finds m
            ∙ ap (prim_or ps m) (find-set_bootstrap p m (Value.prim p) t b.boot)
            ∙ prim_step p m ps (defun_find m t);
      }

  pub set_entries-Boots :
      (es : List Entry) (n : ℕ) (t : DefunTable)
      → Boots low n t
      → Boots low (n + length es) (set_entries es t)
  unfolding set_entries
  set_entries-Boots [] n t b = weaken-Boots (omega arith) b
  set_entries-Boots ((name, body) ∷ es) n t b = weaken-Boots (omega arith) (
      set_entries-Boots es (suc n) (set_bootstrap name (entry_closure body) t)
        (set_bootstrap-Boots name (entry_closure body) t b))

  -- `add_keywords` on a table that has the keyword already, or not.
  pub add_keywords-Fills :
      (ks : List Bytes) (n : ℕ) (t : DefunTable)
      → Boots low n t
      → Fills low (n + length ks) (λ m. keyword_or ks m (defun_find m t)) (add_keywords ks t)
  unfolding add_keywords defun_has
  add_keywords-Fills [] n t b = record {
    table = t;
    ends = refl;
    boots = weaken-Boots (omega arith) b;
    finds = λ m. sym (keyword_or-nil m (defun_find m t));
  }
  add_keywords-Fills (k ∷ ks) n t b = elim (Option-cases (defun_find k t)) [
    | inr (v, e) ↦
        let f = add_keywords-Fills ks n t b in
        rw e (record {
          table = f.table;
          ends = f.ends;
          boots = weaken-Boots (omega arith) f.boots;
          finds = λ m. f.finds m ∙ keyword_known k m ks t v e;
        })
    | inl e ↦
        let u = set_bootstrap k (Value.symbol k) t in
        let f = add_keywords-Fills ks (suc n) u (set_bootstrap-Boots k (Value.symbol k) t b) in
        rw e (record {
          table = f.table;
          ends =
              ap (λ s. and_defuns s (add_keywords ks)) (defun_set-eq k (Value.symbol k) t b.boot)
              ∙ f.ends;
          boots = weaken-Boots (omega arith) f.boots;
          finds = λ m.
              f.finds m
              ∙ ap (keyword_or ks m) (find-set_bootstrap k m (Value.symbol k) t b.boot)
              ∙ keyword_new k m ks t e;
        })
  ]
