-- ===== src/Symbols.antt =====
-- reference/shen-gc/zincvm.c: the interning of symbols, `val_symbol` over `sym_dyn_get`: an
-- open-addressed table that doubles and is never shrunk.
--
-- A `char *` that `strdup` returns is a number, fresh at each call, and never freed. The capacity is
-- a power of two, so `& (cap - 1)` is the remainder by it. The table of the symbols of the bundle,
-- vm/symbol_static.c, is generated: its lookup is a parameter.
pub mod Cells
pub mod Entry
pub mod Rehash
pub mod Laws
pub mod Canonical
use fx_ui.Base.{
  ℕ, zero, suc, ◌+◌, ◌*◌, ◌/◌, ◌%◌, ◌^◌, Bool, true, false, ◌||◌, Option, none, some, List, [], ◌∷◌,
  ◌==◌, ltb, if◌then◌else◌, set, get_or, length, replicate,
}
use fx_ui.Base.Bytes.{Bytes, byte_eq}

-- The pointer and the text it points to; `none` is a null pointer.
abbrev pub Cell : Type 0
Cell = Option (ℕ × Bytes)

abbrev pub cell_at : List Cell → ℕ → Cell
cell_at cs i = get_or cs i none

-- `symbol_dyn` and `symbol_dyn_count`; the capacity is the length, and the next pointer is the one
-- that `strdup` gives.
pub record SymbolTable : Type 0 where
  pub cells : List Cell
  pub count : ℕ
  pub fresh : ℕ

unfoldable pub hash_from : ℕ → Bytes → ℕ
hash_from h [] = h
hash_from h (b ∷ bs) = hash_from ((h * 32 % 2 ^ 32 + h + b) % 2 ^ 32) bs

unfoldable pub sym_intern_hash : Bytes → ℕ
sym_intern_hash s = hash_from 5381 s

-- `(h + j) & (cap - 1)`
abbrev pub index_of : List Cell → Bytes → ℕ → ℕ
index_of cs name j = (sym_intern_hash name % length cs + j) % length cs

abbrev pub is_null : Cell → Bool
is_null none = true
is_null (some e) = false

-- `for (j = 0; j < cap; j++) if (!tab[idx]) …`, on the rounds left.
unfoldable pub first_null : ℕ → List Cell → Bytes → ℕ → Option ℕ
first_null zero cs name j = none
first_null (suc rounds) cs name j =
    let rest = first_null rounds cs name (j + 1) in
    if is_null (cell_at cs (index_of cs name j)) then some (index_of cs name j) else rest

abbrev pub put_at : ℕ × Bytes → List Cell → Option ℕ → List Cell
put_at e cs none = cs
put_at e cs (some i) = set cs i (some e)

unfoldable pub put : ℕ × Bytes → List Cell → List Cell
put (p, name) cs = put_at (p, name) cs (first_null (length cs) cs name 0)

-- `for (i = 0; i < symbol_dyn_cap; i++)`
unfoldable pub rehash : List Cell → List Cell → List Cell
rehash [] cs = cs
rehash (none ∷ old) cs = rehash old cs
rehash (some e ∷ old) cs = rehash old (put e cs)

unfoldable pub sym_dyn_resize : ℕ → SymbolTable → SymbolTable
sym_dyn_resize newcap t = record t { cells = rehash t.cells (replicate newcap none) }

-- The search: the pointer found, or `none` at a null pointer and after the last round.
abbrev pub seen : Bytes → Cell → Option ℕ → Option ℕ
seen name none rest = none
seen name (some (p, s)) rest = if byte_eq s name then some p else rest

unfoldable pub search : ℕ → List Cell → Bytes → ℕ → Option ℕ
search zero cs name j = none
search (suc rounds) cs name j =
    seen name (cell_at cs (index_of cs name j)) (search rounds cs name (j + 1))

abbrev pub symbol_dyn_init : ℕ
symbol_dyn_init = 256

abbrev pub symbol_dyn_maxload : ℕ
symbol_dyn_maxload = 70

-- Before the search the table is made, or doubled when it is too full.
unfoldable pub with_room : SymbolTable → SymbolTable
with_room t =
    if length t.cells == 0
    then sym_dyn_resize symbol_dyn_init t
    else if ltb symbol_dyn_maxload (t.count * 100 / length t.cells)
    then sym_dyn_resize (length t.cells * 2) t
    else t

abbrev pub insert_at : Bytes → SymbolTable → Option ℕ → ℕ × SymbolTable
insert_at name t none = (t.fresh, record t { fresh = t.fresh + 1 })
insert_at name t (some i) = (
  t.fresh,
  record t {
    cells = set t.cells i (some (t.fresh, name));
    count = t.count + 1;
    fresh = t.fresh + 1;
  },
)

abbrev pub found_or : Bytes → SymbolTable → Option ℕ → ℕ × SymbolTable
found_or name t (some p) = (p, t)
found_or name t none = insert_at name t (first_null (length t.cells) t.cells name 0)

-- `symbol_dyn_count * 100` is an `int`; it is computed for a table that is made already.
abbrev pub load_fits : SymbolTable → Bool
load_fits t = length t.cells == 0 || ltb (t.count * 100) (2 ^ 31)

-- `none` where that product overflows, which is undefined.
unfoldable pub sym_dyn_get : Bytes → SymbolTable → Option (ℕ × SymbolTable)
sym_dyn_get name t =
    let u = with_room t in
    if load_fits t then some (found_or name u (search (length u.cells) u.cells name 0)) else none

-- The pointer of `val_symbol`.
abbrev pub static_or : Bytes → SymbolTable → Option ℕ → Option (ℕ × SymbolTable)
static_or name t (some p) = some (p, t)
static_or name t none = sym_dyn_get name t

unfoldable pub val_symbol : (Bytes → Option ℕ) → Bytes → SymbolTable → Option (ℕ × SymbolTable)
val_symbol symbol_static_lookup name t = static_or name t (symbol_static_lookup name)
