-- ===== src/Tests/Primitives.antt =====
-- Runs of the primitives on texts, numbers, vectors and streams.
use fx_ui.Base.{
  ℕ, ◌<◌, zero, suc, ◌+◌, ◌≡◌, ◌↔◌, refl, ap, false, none, some, [], ◌∷◌, length, arith,
}
use fx_ui.Base.Bytes.{Bytes, codes, byte_eq}
use fx_ui.Base.Int.{ℤ, pos, negsuc, ◌+ℤ◌, ◌*ℤ◌}
use fx_ui.Value.{Value, no_operand, empty, stop}
use fx_ui.Value.Equal.{deep_equal}
use fx_ui.Value.Equal.Laws.{cells}
use fx_ui.Table.ValuesTable.{empty_table}
use fx_ui.Table.DefunTable.{DefunTable, defun_get, defun_find, boot_find}
use fx_ui.Machine.State.{PrimResult, primed, raised, done, thrown, Halt}
use fx_ui.Prims.Texts.{prim_substring}
use fx_ui.Prims.Texts.Cut.{Cut, prim_substring_lem}
use fx_ui.Prims.Numbers.{prim_divide, divide}
use fx_ui.Prims.Numbers.Laws.{magnitude, SameSign, prim_divide_lem}
use fx_ui.Prims.Pairs.{prim_equal}
use fx_ui.Prims.Pairs.Laws.{by_names, symbol_and_prim, prim_equal_lem, prim_equal_long}
use fx_ui.Prims.Print.{prim_str}
use fx_ui.Prims.Print.Laws.{str_text, shown, prim_str_lem}
use fx_ui.Prims.Runtime.{Runtime, Outside, no_entry, prim_address_to, prim_from_address}
use fx_ui.Prims.Runtime.Laws.{prim_from_address-prim_address_to}
use fx_ui.Prims.Streams.{prim_open}
use fx_ui.Prims.Streams.Laws.{drain, drain-prim_open}
use fx_ui.Prims.Control.{Exec, prim_trap_error, prim_eval_kl}
use fx_ui.Prims.Control.Laws.{BothThrew, prim_trap_error_iff, throws, prim_eval_kl-thrown}

abbrev nothing_defined : DefunTable
nothing_defined = record {
  runtime = false;
  bootstrap = [];
  slots = [];
  table_size = 0;
  buckets = 0;
  displacement = [];
  table_cap = 4096;
  table_used = 0;
  marks = [];
}

abbrev fresh : Runtime ℕ
fresh = record {
  store = λ a i. no_operand;
  next_array = 1;
  values = empty_table;
  defuns = nothing_defined;
  gensyms = 7;
  newvars = 0;
  strings = [];
  repl_mode = false;
  outside = 0;
}

-- A directory without files.
abbrev no_files : Outside ℕ
no_files = record {
  fopen = λ path input e. (no_entry, e);
  fgetc = λ f e. (none, e);
  fclose = λ f e. e;
  other = λ name acc st w. PrimResult.refused acc w;
}

abbrev greeting : Bytes
greeting = codes "hello"

prim_substring_lem_example :
    (middle : Bytes) × Cut greeting (pos 3) (pos 9) middle
    × (prim_substring fresh
          (Value.string greeting ∷ Value.number (pos 3) ∷ Value.number (pos 9) ∷ [])
        ≡ primed (Value.string middle) [] fresh)
prim_substring_lem_example =
    prim_substring_lem fresh greeting (pos 3) (pos 9) [] (omega arith) (omega arith) (omega arith)

abbrev plus_symbol : Value
plus_symbol = Value.symbol (codes "+")

abbrev plus_prim : Value
plus_prim = Value.prim (codes "+")

prim_equal_lem_example :
    prim_equal fresh fresh.store (plus_symbol ∷ plus_prim ∷ [])
    ≡ primed
        (Value.boolean (
          by_names
            (symbol_and_prim plus_symbol plus_prim)
            (deep_equal fresh.store plus_symbol plus_prim)))
        []
        fresh
prim_equal_lem_example = prim_equal_lem fresh fresh.store plus_symbol plus_prim []

abbrev pair : Value
pair = Value.cons (Value.number (pos 1)) (Value.string greeting)

abbrev nils : ℕ → Value
nils zero = Value.nil
nils (suc n) = Value.cons Value.nil (nils n)

cells-nils : (n : ℕ) → cells (nils n) ≡ n
cells-nils zero = refl
cells-nils (suc n) = ap suc (cells-nils n)

prim_equal_long_example :
    prim_equal fresh fresh.store (nils 1001 ∷ nils 1001 ∷ [])
    ≡ primed (Value.boolean false) [] fresh
prim_equal_long_example =
    prim_equal_long fresh fresh.store (nils 1001) (nils 1001) [] (omega (arith, cells-nils 1001))

prim_str_lem_example : prim_str fresh (pair ∷ []) ≡ primed (Value.string (str_text pair)) [] fresh
unfolding shown fx_ui.Parse.Encode.decimal_ℤ fx_ui.Parse.Encode.decimal fx_ui.Parse.Encode.digits
    fx_ui.Parse.Reader.until_nul
prim_str_lem_example = prim_str_lem fresh pair [] (omega arith)

prim_from_address-prim_address_to_example :
    (w' : Runtime ℕ) × (prim_address_to fresh (Value.vector 1 3 ∷ Value.number (pos 2) ∷ pair ∷ [])
      ≡ primed (Value.vector 1 3) [] w')
    × (prim_from_address w' (Value.vector 1 3 ∷ Value.number (pos 2) ∷ []) ≡ primed pair [] w')
prim_from_address-prim_address_to_example =
    prim_from_address-prim_address_to fresh 1 3 2 pair 1 3 2 [] (omega arith) (omega arith)
      (omega arith) (omega arith)

drain-prim_open_example :
    (v : Value) × (w' : Runtime ℕ) × (prim_open no_files pair fresh
        (Value.string greeting ∷ Value.symbol (codes "in") ∷ [])
      ≡ primed v [] w')
    × (drain no_files (length greeting + 1) v w' ≡ some greeting)
drain-prim_open_example = drain-prim_open no_files fresh 0 greeting pair [] refl (omega arith)

-- A machine that throws in the body of a `trap-error`, and answers outside of it.
abbrev throwing : Exec ℕ
throwing catching code env w = elim catching [
  | none ↦ some (done Halt.returned Value.nil w)
  | some inside ↦ some (thrown greeting w)
]

prim_trap_error_iff_example :
    (prim_trap_error throwing
        (some false)
        fresh
        (Value.lambda stop empty ∷ Value.lambda stop empty ∷ [])
      ≡ raised greeting fresh)
    ↔ BothThrew throwing (some false) stop empty stop empty fresh greeting fresh
prim_trap_error_iff_example =
    prim_trap_error_iff throwing (some false) stop stop empty empty [] fresh fresh greeting

-- `extract-kl` is defined, and its run throws.
abbrev with_extract : Runtime ℕ
with_extract = record fresh {
  defuns = record (fresh.defuns) { bootstrap = (codes "extract-kl", Value.lambda stop empty) ∷ [] };
}

prim_eval_kl-thrown_example :
    prim_eval_kl throwing [] with_extract (pair ∷ [])
    ≡ primed (Value.error greeting) [] with_extract
unfolding defun_get defun_find boot_find byte_eq
prim_eval_kl-thrown_example =
    prim_eval_kl-thrown throwing [] with_extract pair [] greeting with_extract (
      throws (codes "extract-kl") (codes "kl->zinc" ∷ codes "toplevel-interp" ∷ []) _ with_extract
        stop empty refl refl)

prim_divide_lem_example :
    (r : ℤ) × (negsuc 6 ≡ negsuc 1 *ℤ pos 3 +ℤ r)
    × (magnitude r < magnitude (pos 3))
    × SameSign (negsuc 6) r
unfolding prim_divide divide
prim_divide_lem_example = prim_divide_lem fresh (negsuc 6) (pos 3) (negsuc 1) [] refl
