-- ===== src/Gc/Dirty.antt =====
-- reference/shen-gc/gc.c: the remembered sets of the write barrier, `gc_dirty_vectors_*` and
-- `gc_dirty_defuns_*`.
pub mod Defuns
pub mod Laws
use fx_ui.Base.{
  ℕ, zero, suc, ◌+◌, ◌*◌, ◌/◌, ◌%◌, Bool, true, false, List, [], ◌∷◌, ◌++◌, leb, ltb, ◌==◌,
  if◌then◌else◌, length, get_or, set, replicate,
}
use fx_ui.Base.Int.{ℤ, pos, negsuc}

abbrev pub dirty_vectors_max : ℕ
dirty_vectors_max = 8192

-- The first `dirty_vectors_count` addresses; `cap` is the length of the array they stand in.
pub record DirtyVectors : Type 0 where
  pub vectors : List ℕ
  pub cap : ℕ
  pub overflow : Bool
  pub fired : ℕ

abbrev pub mem : List ℕ → ℕ → Bool
mem [] x = false
mem (y ∷ ys) x = if y == x then true else mem ys x

abbrev pub grown : ℕ → ℕ
grown cap =
    let nc = if cap == 0 then 256 else cap * 2 in
    if ltb dirty_vectors_max nc then dirty_vectors_max else nc

abbrev pub overflowed : DirtyVectors → DirtyVectors
overflowed d = record d { overflow = true }

abbrev pub appended : DirtyVectors → ℕ → DirtyVectors
appended d a = record d { vectors = d.vectors ++ a ∷ []; fired = d.fired + 1 }

-- `grows` is the answer of `realloc`: whether it finds the memory.
abbrev pub add_new : Bool → DirtyVectors → ℕ → DirtyVectors
add_new grows d a =
    if leb d.cap (length d.vectors)
    then (if grows then appended (record d { cap = grown d.cap }) a else overflowed d)
    else appended d a

unfoldable pub gc_dirty_vectors_add : Bool → DirtyVectors → ℕ → DirtyVectors
gc_dirty_vectors_add grows d a =
    if d.overflow
    then d
    else if mem d.vectors a
    then d
    else if leb dirty_vectors_max (length d.vectors)
    then overflowed d
    else add_new grows d a

unfoldable pub gc_dirty_vectors_clear : DirtyVectors → DirtyVectors
gc_dirty_vectors_clear d = record d { vectors = []; overflow = false }

abbrev pub defun_table_cap : ℕ
defun_table_cap = 4096

-- A `uint64_t` is the list of its 64 bits, the lowest first.
abbrev pub Word : Type 0
Word = List Bool

pub record DirtyDefuns : Type 0 where
  pub words : List Word
  pub fired : ℕ

abbrev pub word_of : DirtyDefuns → ℕ → Word
word_of d n = get_or d.words (n / 64) []

abbrev pub bit_of : DirtyDefuns → ℕ → Bool
bit_of d n = get_or (word_of d n) (n % 64) false

abbrev pub set_bit : DirtyDefuns → ℕ → DirtyDefuns
set_bit d n = record {
  words = set d.words (n / 64) (set (word_of d n) (n % 64) true);
  fired = d.fired + 1;
}

-- An index out of range is ignored, and tests as clean.
unfoldable pub gc_dirty_defuns_mark : DirtyDefuns → ℤ → DirtyDefuns
gc_dirty_defuns_mark d (negsuc n) = d
gc_dirty_defuns_mark d (pos n) =
    if leb defun_table_cap n then d else if bit_of d n then d else set_bit d n

unfoldable pub gc_dirty_defuns_test : DirtyDefuns → ℤ → Bool
gc_dirty_defuns_test d (negsuc n) = false
gc_dirty_defuns_test d (pos n) = if leb defun_table_cap n then false else bit_of d n

unfoldable pub gc_dirty_defuns_clear : DirtyDefuns → DirtyDefuns
gc_dirty_defuns_clear d = record d { words = replicate 64 (replicate 64 false) }
