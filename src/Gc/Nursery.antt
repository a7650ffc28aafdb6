-- ===== src/Gc/Nursery.antt =====
-- reference/shen-gc/gc.c: `gc_alloc`, which takes a small object off the nursery and any other off
-- the old generation, and `gc_alloc_oldgen`.
--
-- The counters and the allocation watcher are left out. Addresses in the nursery are bytes, as in
-- the source; the memory is by words.
pub mod Retry
pub mod Laws
use fx_ui.Base.{
  ℕ, zero, suc, ◌+◌, ◌-◌, ◌*◌, ◌/◌, ◌%◌, ◌^◌, Bool, true, false, not, ◌&&◌, Option, none, some, leb,
  ltb, ◌==◌, if◌then◌else◌,
}
use fx_ui.Gc.Pages.{Heap, pagebytes, object_page, grow_heap}
use fx_ui.Gc.Alloc.{
  wordbytes, make_header, write, clear, words_for, Memory, Arena, Alloc, gcalloc_internal,
}

abbrev pub nursery_bytes : ℕ
nursery_bytes = 2 * 1024 * 1024

abbrev pub nursery_scavenge_free_lowater : ℕ
nursery_scavenge_free_lowater = nursery_bytes / 8

-- `nursery_cur` and `nursery_end`; `arena` is the old generation and the memory of both.
pub record Space : Type 0 where
  pub cur : ℕ
  pub limit : ℕ
  pub arena : Arena

-- `(size_t)(nursery_end - nursery_cur)`
abbrev pub free_bytes : Space → ℕ
free_bytes s = (s.limit + 2 ^ 64 - s.cur) % 2 ^ 64

abbrev pub straddles : Space → ℕ → Bool
straddles s total = ltb s.cur s.limit && not ((s.cur + total - 1) / pagebytes == s.cur / pagebytes)

abbrev pub skip_page : Space → Space
skip_page s = record s { cur = (s.cur / pagebytes + 1) * pagebytes }

-- The header, the zeroed body and the mark of the page; an object lies on one page here.
unfoldable pub bump : (words type_tag : ℕ) → Space → Space
bump words type_tag s = record s {
  cur = s.cur + words * wordbytes;
  arena = record (s.arena) {
    heap = record (s.arena.heap) {
      type_page = λ p. if p == s.cur / pagebytes then object_page else s.arena.heap.type_page p;
    };
    mem =
        clear (write s.arena.mem (s.cur / wordbytes) (make_header words type_tag))
          (s.cur / wordbytes + 1) (words - 1);
  };
}

-- `full`: the code goes on to the old generation.
pub data Tried : Type 0 where
  object : ℕ → Space → Tried
  full : Space → Tried
  endless : Tried

abbrev pub low : Space → Bool
low s = not s.arena.heap.in_scavenge && leb (free_bytes s) nursery_scavenge_free_lowater

-- `collect_nursery` is the scavenge.
module _ (collect_nursery : Space → Space) where
  -- From `nursery_retry` on; `nursery_tried` is `tried`.
  unfoldable pub nursery_retry : (rounds words type_tag : ℕ) → (tried : Bool) → Space → Tried
  nursery_retry zero words type_tag tried s = Tried.endless
  nursery_retry (suc rounds) words type_tag tried s =
      let skipped = nursery_retry rounds words type_tag tried (skip_page s) in
      let again = nursery_retry rounds words type_tag true (collect_nursery s) in
      if straddles s (words * wordbytes)
      then skipped
      else if leb (words * wordbytes) (free_bytes s)
      then Tried.object (s.cur / wordbytes + 1) (bump words type_tag s)
      else if tried
      then Tried.full s
      else again

  unfoldable pub from_nursery : (rounds words type_tag : ℕ) → Space → Tried
  from_nursery rounds words type_tag s =
      if low s
      then nursery_retry rounds words type_tag true (collect_nursery s)
      else nursery_retry rounds words type_tag false s

abbrev pub fits_nursery : ℕ → Bool
fits_nursery bytes = leb bytes (nursery_bytes / 8) && leb (words_for bytes * wordbytes) pagebytes

abbrev pub over_threshold : Heap → Bool
over_threshold h = ltb (h.heappages / 4) h.allocatedpages

-- `grow_heap(1)`, whose failure is ignored.
abbrev pub after_growth : Arena → Option Heap → Arena
after_growth a none = a
after_growth a (some h) = record a { heap = h }

-- `collect` is the collector of `collect(…)`, on the old generation.
unfoldable pub relieve : (Arena → Arena) → Bool → Arena → Arena
relieve collect reallocs a =
    let after = collect a in
    if ltb 0 a.heap.allocatedpages && over_threshold a.heap && not a.heap.in_scavenge
    then (if over_threshold after.heap
        then after_growth after (grow_heap reallocs after.heap 1)
        else after)
    else a

-- `died` for the exits, `endless` when the rounds given do not end a loop.
pub data Request : Type 0 where
  object : ℕ → Space → Request
  died : Request
  endless : Request

abbrev pub in_space : Space → Alloc → Request
in_space s (Alloc.object p a) = Request.object p (record s { arena = a })
in_space s Alloc.died = Request.died
in_space s Alloc.endless = Request.endless

module _ (collect_nursery : Space → Space) (collect : Arena → Arena) (collect_pages : Heap → Heap)
    (moved : Heap → Memory → Memory) (reallocs : Bool) where
  -- Without the nursery.
  unfoldable pub gc_alloc_oldgen : (rounds bytes type_tag : ℕ) → Space → Request
  gc_alloc_oldgen rounds bytes type_tag s = in_space s (
      gcalloc_internal collect_pages moved reallocs rounds bytes type_tag
        (relieve collect reallocs s.arena))

  abbrev pub or_oldgen : (rounds bytes type_tag : ℕ) → Tried → Request
  or_oldgen rounds bytes type_tag (Tried.object p s) = Request.object p s
  or_oldgen rounds bytes type_tag (Tried.full s) = gc_alloc_oldgen rounds bytes type_tag s
  or_oldgen rounds bytes type_tag Tried.endless = Request.endless

  unfoldable pub gc_alloc : (rounds bytes type_tag : ℕ) → Space → Request
  gc_alloc rounds bytes type_tag s =
      if fits_nursery bytes
      then or_oldgen rounds bytes type_tag
          (from_nursery collect_nursery rounds (words_for bytes) type_tag s)
      else gc_alloc_oldgen rounds bytes type_tag s
