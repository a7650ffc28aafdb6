-- ===== src/Gc/Roots.antt =====
-- reference/shen-gc/gc.c: the shadow stack of precise roots, `gc_root_*`.
pub mod Laws
use fx_ui.Base.{
  ℕ, zero, suc, ◌+◌, ◌-◌, ◌*◌, Bool, true, false, Option, none, some, List, [], ◌∷◌, leb, ◌==◌,
  if◌then◌else◌, ◌>>=◌,
}
use fx_ui.Gc.Queue.{update}

pub data RootKind : Type 0 where
  root_ptr root_value root_value_volatile root_value_array root_callframe_array : RootKind

-- The address of the slot, and of the count of an array; a null `np` is `none`.
pub record Root : Type 0 where
  pub kind : RootKind
  pub slot : ℕ
  pub np : Option ℕ

-- The cells from `len` on are stale, those from `cap` on do not exist.
pub record Shadow : Type 0 where
  pub cells : ℕ → Root
  pub len : ℕ
  pub cap : ℕ

abbrev pub grown : ℕ → ℕ
grown cap = if cap == 0 then 64 else cap * 2

-- `grows` is the answer of `realloc`; without memory the program exits.
unfoldable pub shadow_stack_grow : Bool → Shadow → Option Shadow
shadow_stack_grow true s = some (record s { cap = grown s.cap })
shadow_stack_grow false s = none

abbrev pub write_root : Shadow → Root → Shadow
write_root s r = record s { cells = update s.cells s.len r; len = s.len + 1 }

unfoldable pub push_root : Bool → Shadow → Root → Option Shadow
push_root grows s r =
    if leb s.cap s.len
    then (do t ← shadow_stack_grow grows s; some (write_root t r))
    else some (write_root s r)

abbrev pub root : RootKind → ℕ → Option ℕ → Root
root kind slot np = record { kind = kind; slot = slot; np = np }

abbrev pub gc_root_push_ptr : Bool → Shadow → ℕ → Option Shadow
gc_root_push_ptr grows s slot = push_root grows s (root RootKind.root_ptr slot none)

abbrev pub gc_root_push_value : Bool → Shadow → ℕ → Option Shadow
gc_root_push_value grows s slot = push_root grows s (root RootKind.root_value slot none)

abbrev pub gc_root_push_value_volatile : Bool → Shadow → ℕ → Option Shadow
gc_root_push_value_volatile grows s slot =
    push_root grows s (root RootKind.root_value_volatile slot none)

abbrev pub gc_root_push_value_array : Bool → Shadow → ℕ → ℕ → Option Shadow
gc_root_push_value_array grows s slot np =
    push_root grows s (root RootKind.root_value_array slot (some np))

abbrev pub gc_root_push_callframe_array : Bool → Shadow → ℕ → ℕ → Option Shadow
gc_root_push_callframe_array grows s slot np =
    push_root grows s (root RootKind.root_callframe_array slot (some np))

unfoldable pub gc_root_pop : Shadow → Shadow
gc_root_pop s = record s { len = s.len - 1 }

unfoldable pub gc_root_pop_to : Shadow → ℕ → Shadow
gc_root_pop_to s watermark = record s { len = watermark }

unfoldable pub gc_root_watermark : Shadow → ℕ
gc_root_watermark s = s.len
