-- ===== src/Bundle/Boot.antt =====
-- reference/shen-gc/zincvm.c: `init_globals` and `vm_load_bundle`, which fill both tables before the
-- machine runs and freeze the defun table.
--
-- `prims` is `prim_names`. What is printed is left out.
use fx_ui.Base.{ℕ, Bool, true, false, ◌&&◌, List, [], ◌∷◌, ◌==◌, if◌then◌else◌}
use fx_ui.Base.Bytes.{Bytes, codes}
use fx_ui.Value.{Value}
use fx_ui.Parse.Reader.{skip_ws}
use fx_ui.Table
use fx_ui.Table.ValuesTable.{ValuesTable, value_set}
use fx_ui.Table.DefunTable.{DefunTable, defun_set, defun_has}
use fx_ui.Table.Freeze.{Frozen, defun_freeze}
use fx_ui.Bundle.{Loaded, parse_bundle}

-- The `FILE *` of the three standard streams.
pub record StdFiles : Type 0 where
  pub stdin : ℕ
  pub stdout : ℕ
  pub stderr : ℕ

-- `exited` is an `exit(1)` for want of room or the `abort` of the freeze; `unended` stands for a loop
-- that goes on past the rounds it is given.
pub data Booted : Type 0 where
  booted : ℕ → DefunTable → ValuesTable → Booted
  exited : Booted
  faulted : Booted
  unended : Booted

abbrev pub and_defuns :
    Table.DefunTable.Stored → (DefunTable → Table.DefunTable.Stored) → Table.DefunTable.Stored
and_defuns (Table.DefunTable.Stored.stored t) more = more t
and_defuns Table.DefunTable.Stored.overflow_full more = Table.DefunTable.Stored.overflow_full

unfoldable pub init_globals : List Bytes → DefunTable → Table.DefunTable.Stored
init_globals [] t = Table.DefunTable.Stored.stored t
init_globals (p ∷ ps) t = and_defuns (defun_set p (Value.prim p) t) (init_globals ps)

abbrev pub keywords : List Bytes
keywords =
    codes "number"
    ∷ codes "symbol"
    ∷ codes "string"
    ∷ codes "boolean"
    ∷ codes "cons"
    ∷ codes "lambda"
    ∷ codes "function"
    ∷ codes "error"
    ∷ codes "absvector"
    ∷ codes "stream in"
    ∷ codes "stream out"
    ∷ codes "let"
    ∷ codes "if"
    ∷ codes "lookup"
    ∷ codes "freeze"
    ∷ codes "type"
    ∷ codes "defun"
    ∷ codes "define"
    ∷ codes "cond"
    ∷ codes "and"
    ∷ codes "or"
    ∷ codes "do"
    ∷ codes "fn"
    ∷ codes "list"
    ∷ codes "where"
    ∷ []

-- A keyword gets its symbol where the table has nothing for it.
unfoldable pub add_keywords : List Bytes → DefunTable → Table.DefunTable.Stored
add_keywords [] t = Table.DefunTable.Stored.stored t
add_keywords (k ∷ ks) t =
    let rest = add_keywords ks t in
    if defun_has k t then rest else and_defuns (defun_set k (Value.symbol k) t) (add_keywords ks)

-- `pn = val_cons(val_symbol(prim_names[i]), pn)`
unfoldable pub prim_list : List Bytes → Value → Value
prim_list [] pn = pn
prim_list (p ∷ ps) pn = prim_list ps (Value.cons (Value.symbol p) pn)

abbrev pub initial_values : StdFiles → List Bytes → List (Bytes × Value)
initial_values io prims =
    (codes "*stinput*", Value.stream io.stdin true false)
    ∷ (codes "*stoutput*", Value.stream io.stdout false false)
    ∷ (codes "*sterror*", Value.stream io.stderr false false)
    ∷ (codes "global-table", Value.nil)
    ∷ (codes "value-table", Value.nil)
    ∷ (codes "primitive?-names", prim_list prims Value.nil)
    ∷ []

abbrev pub and_values :
    Table.ValuesTable.Stored → (ValuesTable → Table.ValuesTable.Stored) → Table.ValuesTable.Stored
and_values (Table.ValuesTable.Stored.stored v) more = more v
and_values Table.ValuesTable.Stored.table_full more = Table.ValuesTable.Stored.table_full
and_values Table.ValuesTable.Stored.spins more = Table.ValuesTable.Stored.spins

unfoldable pub set_values : List (Bytes × Value) → ValuesTable → Table.ValuesTable.Stored
set_values [] v = Table.ValuesTable.Stored.stored v
set_values ((name, x) ∷ rest) v = and_values (value_set name x v) (set_values rest)

abbrev pub is_bundle : Bytes → Bool
is_bundle (a ∷ b ∷ cs) = a == b'(' && b == b'('
is_bundle _ = false

abbrev pub after_freeze : ℕ → ValuesTable → Frozen → Booted
after_freeze n v (Frozen.frozen t) = Booted.booted n t v
after_freeze n v Frozen.aborted = Booted.exited
after_freeze n v Frozen.unbuilt = Booted.unended

module _ (io : StdFiles) (prims : List Bytes) (rounds : ℕ) where
  abbrev pub after_values : ℕ → DefunTable → Table.ValuesTable.Stored → Booted
  after_values n t (Table.ValuesTable.Stored.stored v) = after_freeze n v (defun_freeze rounds t)
  after_values n t Table.ValuesTable.Stored.table_full = Booted.exited
  after_values n t Table.ValuesTable.Stored.spins = Booted.unended

  abbrev pub after_keywords : ℕ → ValuesTable → Table.DefunTable.Stored → Booted
  after_keywords n v (Table.DefunTable.Stored.stored t) =
      after_values n t (set_values (initial_values io prims) v)
  after_keywords n v Table.DefunTable.Stored.overflow_full = Booted.exited

  abbrev pub after_parse : ValuesTable → Loaded → Booted
  after_parse v (Loaded.loaded n t) = after_keywords n v (add_keywords keywords t)
  after_parse v Loaded.overflow_full = Booted.exited
  after_parse v Loaded.faulted = Booted.faulted
  after_parse v Loaded.starved = Booted.unended

  unfoldable pub vm_load_bundle : Bytes → DefunTable → ValuesTable → Booted
  vm_load_bundle buf t v =
      if is_bundle (skip_ws buf)
      then after_parse v (parse_bundle (skip_ws buf) t)
      else Booted.booted 0 t v
