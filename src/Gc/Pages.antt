-- ===== src/Gc/Pages.antt =====
-- reference/shen-gc/gc.c: `allocatepage`, the scan for free pages, and `grow_heap`.
--
-- A page is its number. The log of page transitions is left out.
pub mod Scan
pub mod Claim
use fx_ui.Base.{
  ℕ, zero, suc, ◌+◌, ◌-◌, ◌*◌, ◌/◌, Bool, true, false, ◌&&◌, ◌||◌, not, Option, none, some, leb,
  ltb, ◌==◌, if◌then◌else◌,
}
use fx_ui.Gc.Queue.{Queue, queue}

abbrev pub pagewords : ℕ
pagewords = 64

abbrev pub pagebytes : ℕ
pagebytes = 512

-- The tags of `space` and of `type_page`.
abbrev pub nursery_tag : ℕ
nursery_tag = 3

abbrev pub object_page : ℕ
object_page = 0

abbrev pub continued_page : ℕ
continued_page = 1

-- `freep` is the page where `freep` points to its first word.
pub record Heap : Type 0 where
  pub firstheappage : ℕ
  pub lastheappage : ℕ
  pub heappages : ℕ
  pub heap_mmap_size : ℕ
  pub allocatedpages : ℕ
  pub freepage : ℕ
  pub freep : ℕ
  pub freewords : ℕ
  pub current_space : ℕ
  pub next_space : ℕ
  pub in_scavenge : Bool
  pub space : ℕ → ℕ
  pub type_page : ℕ → ℕ
  pub pages : Queue

abbrev pub next_page : Heap → ℕ → ℕ
next_page h page = if page == h.lastheappage then h.firstheappage else page + 1

abbrev pub page_is_free : Heap → ℕ → Bool
page_is_free h page =
    not (h.space page == h.current_space)
    && not (h.space page == h.next_space)
    && not (h.space page == nursery_tag)

-- The first page of the run and the page at which the scan stopped.
abbrev pub restart : Heap → ℕ → ℕ → ℕ
restart h page free = if page == h.firstheappage then 0 else free

-- `while (allpages--)`: `free` pages before `page` are free, from `first` on.
unfoldable pub scan_pages : Heap → (wanted rounds page free first : ℕ) → Option (ℕ × ℕ)
scan_pages h wanted zero page free first = none
scan_pages h wanted (suc rounds) page free first =
    let next = next_page h page in
    let start = if free == 0 then page else first in
    let longer = scan_pages h wanted rounds next (restart h next (free + 1)) start in
    let again = scan_pages h wanted rounds next 0 first in
    if page_is_free h page
    then (if free + 1 == wanted then some (start, page) else longer)
    else again

-- A semi-space allocation goes to the Cheney queue while a collection runs.
abbrev pub collecting : Heap → Bool
collecting h = not (h.current_space == h.next_space) || h.in_scavenge

abbrev pub in_run : (first wanted page : ℕ) → Bool
in_run first wanted page = leb first page && ltb page (first + wanted)

-- The run of `wanted` pages from `first` on is taken; the scan stopped at `last`.
unfoldable pub claim_run : Heap → (wanted first last : ℕ) → Heap
claim_run h wanted first last = record h {
  freep = first;
  pages = if collecting h then queue h.pages first else h.pages;
  freewords = wanted * pagewords;
  allocatedpages = h.allocatedpages + wanted;
  freepage = next_page h last;
  space = λ p. if in_run first wanted p then h.next_space else h.space p;
  type_page = λ p.
      if p == first
      then object_page
      else if in_run first wanted p
      then continued_page
      else h.type_page p;
}

-- With `scan_pages` from `freepage` over all pages; without a run `freepage` is back where it was.
abbrev pub claimed : Heap → ℕ → Option (ℕ × ℕ) → Option Heap
claimed h wanted none = none
claimed h wanted (some (first, last)) = some (claim_run h wanted first last)

unfoldable pub oldgen_collect_lastresort : Heap → ℕ
oldgen_collect_lastresort h = h.heappages / 2

-- The first test of `allocatepage`, and the one that is repeated after the collection.
abbrev pub over_limit : Heap → ℕ → Bool
over_limit h wanted = leb (oldgen_collect_lastresort h) (h.allocatedpages + wanted)

abbrev pub triggers : Heap → ℕ → Bool
triggers h wanted = h.current_space == h.next_space && not h.in_scavenge && over_limit h wanted

abbrev pub new_heappages : Heap → ℕ → ℕ
new_heappages h wanted =
    let double = h.heappages * 2 in
    let needed = (h.allocatedpages + wanted + 512) * 2 in
    if ltb double needed then needed else double

-- The bookkeeping for the new pages, up to page `last`.
abbrev pub with_pages : Heap → (heappages last : ℕ) → Heap
with_pages h heappages last = record h {
  lastheappage = last;
  heappages = heappages;
  space = λ p. if leb (h.lastheappage + 1) p && leb p last then 0 else h.space p;
  type_page = λ p. if leb (h.lastheappage + 1) p && leb p last then 0 else h.type_page p;
  pages = record (h.pages) {
    link = λ p. if leb (h.lastheappage + 1) p && leb p last then 0 else h.pages.link p;
    queued = λ p. if leb (h.lastheappage + 1) p && leb p last then false else h.pages.queued p;
  };
}

-- `reallocs`: the tables of the pages find memory. `none` is the result -1.
unfoldable pub grow_heap : Bool → Heap → ℕ → Option Heap
grow_heap reallocs h wanted =
    let n = new_heappages h wanted in
    if leb (n * pagebytes + pagebytes - 1) h.heap_mmap_size && reallocs
    then some (with_pages h n (h.firstheappage + n - 1))
    else none

-- One pass from `retry` on: a heap, or the heap that must grow.
pub data Attempt : Type 0 where
  allocated short : Heap → Attempt

abbrev pub or_short : Heap → Option Heap → Attempt
or_short h none = Attempt.short h
or_short h (some h') = Attempt.allocated h'

abbrev pub scan_heap : Heap → ℕ → Attempt
scan_heap h wanted = or_short h (claimed h wanted (scan_pages h wanted h.heappages h.freepage 0 0))

-- `collect` is the collector.
unfoldable pub attempt : (Heap → Heap) → Heap → ℕ → Attempt
attempt collect h wanted =
    let after = collect h in
    if triggers h wanted
    then (if over_limit after wanted then Attempt.short after else scan_heap after wanted)
    else scan_heap h wanted

abbrev pub second : Attempt → Option Heap
second (Attempt.allocated h) = some h
second (Attempt.short h) = none

abbrev pub with_growth : (Heap → Heap) → ℕ → Option Heap → Option Heap
with_growth collect wanted none = none
with_growth collect wanted (some h) = second (attempt collect h wanted)

abbrev pub first_attempt : (Heap → Heap) → Bool → ℕ → Attempt → Option Heap
first_attempt collect reallocs wanted (Attempt.allocated h) = some h
first_attempt collect reallocs wanted (Attempt.short h) =
    with_growth collect wanted (grow_heap reallocs h wanted)

-- The heap grows once at most; `none` is the exit for want of memory.
unfoldable pub allocatepage : (Heap → Heap) → Bool → Heap → ℕ → Option Heap
allocatepage collect reallocs h wanted =
    first_attempt collect reallocs wanted (attempt collect h wanted)
