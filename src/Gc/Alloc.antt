-- ===== src/Gc/Alloc.antt =====
-- reference/shen-gc/gc.c: the object headers and `gcalloc_internal`, which cuts objects off the open
-- page.
--
-- An address is the number of its word. The allocation watcher is left out.
pub mod Header
pub mod Laws
pub mod Given
use fx_ui.Base.{
  ℕ, zero, suc, ◌+◌, ◌-◌, ◌*◌, ◌/◌, ◌%◌, ◌^◌, Bool, ◌&&◌, Option, none, some, leb, ltb, ◌==◌,
  if◌then◌else◌,
}
use fx_ui.Gc.Pages.{Heap, pagewords, allocatepage}

-- `wordbytes` is `sizeof(uintptr_t)`.
abbrev pub wordbytes : ℕ
wordbytes = 8

-- `MAKE_HEADER`: the fields do not overlap while `words` has 24 bits, so their `|` is a sum.
unfoldable pub make_header : (words ty : ℕ) → ℕ
make_header words ty = ty * 2 ^ 25 % 2 ^ 64 + words * 2 + 1

-- `FORWARDED`, `HEADER_TYPE` and `HEADER_WORDS`.
unfoldable pub forwarded : ℕ → Bool
forwarded hdr = hdr % 2 == 0

unfoldable pub header_type : ℕ → ℕ
header_type hdr = hdr / 2 ^ 25 % 2 ^ 20

unfoldable pub header_words : ℕ → ℕ
header_words hdr = hdr / 2 % 2 ^ 24

abbrev pub Memory : Type 0
Memory = ℕ → ℕ

-- `freep` is `at`, in the page that `heap` has open; `heap.freewords` is `freewords`.
pub record Arena : Type 0 where
  pub heap : Heap
  pub at : ℕ
  pub mem : Memory

unfoldable pub write : Memory → ℕ → ℕ → Memory
write mem a v = λ x. if x == a then v else mem x

-- `memset(a, 0, n * WORDBYTES)`
unfoldable pub clear : Memory → ℕ → ℕ → Memory
clear mem a n = λ x. if leb a x && ltb x (a + n) then 0 else mem x

-- On `size_t`; the sum wraps.
unfoldable pub words_for : ℕ → ℕ
words_for bytes = (bytes + (wordbytes - 1)) % 2 ^ 64 / wordbytes + 1

abbrev pub with_filler : Arena → Memory
with_filler s =
    if s.heap.freewords == 0 then s.mem else write s.mem s.at (make_header s.heap.freewords 0)

-- The rest of the open page gets a header of its own, and no words are free.
unfoldable pub close_page : Arena → Arena
close_page s = record s { heap = record (s.heap) { freewords = 0 }; mem = with_filler s }

-- `words` has the header in it: the header, a zeroed body, and `freep` behind the object.
unfoldable pub place : (words type_tag : ℕ) → Arena → Arena
place words type_tag s = record {
  heap = record (s.heap) {
    freewords = if ltb words pagewords then s.heap.freewords - words else 0;
  };
  at = s.at + words;
  mem = clear (write s.mem s.at (make_header words type_tag)) (s.at + 1) (words - 1);
}

-- `endless` when the rounds given do not end the loop, `died` for the exits.
pub data Alloc : Type 0 where
  object : ℕ → Arena → Alloc
  died : Alloc
  endless : Alloc

abbrev pub pages_for : ℕ → ℕ
pages_for words = (words + pagewords - 1) / pagewords

-- `collect` is the collector on the pages, and `moved` what `allocatepage` leaves in memory.
module _ (collect : Heap → Heap) (moved : Heap → Memory → Memory) (reallocs : Bool) where
  -- `allocatepage`, after the page is closed.
  abbrev pub opened : Arena → Option Heap → Option Arena
  opened s none = none
  opened s (some h) = some (record { heap = h; at = h.freep * pagewords; mem = moved s.heap s.mem })

  abbrev pub more_pages : ℕ → Arena → Option Arena
  more_pages words s =
      let c = close_page s in opened c (allocatepage collect reallocs c.heap (pages_for words))

  abbrev pub and_open : (Arena → Alloc) → Option Arena → Alloc
  and_open more none = Alloc.died
  and_open more (some s) = more s

  -- `while (words > freewords) …`, then the object.
  unfoldable pub take_words : ℕ → (words type_tag : ℕ) → Arena → Alloc
  take_words zero words type_tag s = Alloc.endless
  take_words (suc rounds) words type_tag s =
      let again = and_open (take_words rounds words type_tag) (more_pages words s) in
      if ltb s.heap.freewords words then again else Alloc.object (s.at + 1) (place words type_tag s)

  unfoldable pub gcalloc_internal : (rounds bytes type_tag : ℕ) → Arena → Alloc
  gcalloc_internal rounds bytes type_tag s =
      if ltb 16777215 (words_for bytes)
      then Alloc.died
      else take_words rounds (words_for bytes) type_tag s
