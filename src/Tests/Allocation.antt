-- ===== src/Tests/Allocation.antt =====
-- An object on an open page, and the closing of the page.
use fx_ui.Base.{ℕ, ◌+◌, ◌*◌, ◌≤◌, refl, arith, true}
use fx_ui.Gc.Pages.{pagewords}
use fx_ui.Gc.Alloc.{
  Arena, Memory, make_header, close_page, gcalloc_internal, words_for, wordbytes, header_words,
  forwarded,
}
use fx_ui.Gc.Alloc.Laws.{Walk, ends, hops, IsOpen, close_page-Walk}
use fx_ui.Gc.Alloc.Given.{Given, gcalloc_internal_lem}
use fx_ui.Gc.Nursery.{Space}
use fx_ui.Tests.Collector.{small_heap}

-- Page 10 with one object of two words.
abbrev two_words : Memory
two_words x = make_header 2 1

abbrev page_ten : Arena
page_ten = record {
  heap = record small_heap { freep = 10; freewords = 62 };
  at = 642;
  mem = two_words;
}

two_words_there : Walk two_words 640 642
unfolding make_header header_words forwarded
two_words_there = hops 640 642 refl (omega arith) (ends 642)

page_ten-IsOpen : IsOpen page_ten
page_ten-IsOpen = record {
  start = 640;
  walks = two_words_there;
  few = omega arith;
  fits = λ h. omega arith;
}

gcalloc_internal_lem_example :
    Given (words_for 24) 2 page_ten (gcalloc_internal (λ h. h) (λ h mem. mem) true 2 24 2 page_ten)
    × (24 + wordbytes ≤ words_for 24 * wordbytes)
gcalloc_internal_lem_example =
    gcalloc_internal_lem (λ h. h) (λ h mem. mem) true 0 24 2 page_ten (omega arith) (omega arith)
      page_ten-IsOpen

close_page-Walk_example : Walk (close_page page_ten).mem 640 (640 + pagewords)
unfolding page_ten-IsOpen
close_page-Walk_example = close_page-Walk page_ten page_ten-IsOpen (omega arith)

-- A nursery of two pages with 16 bytes left on the first.
abbrev two_pages : Space
two_pages = record { cur = 4592; limit = 5120; arena = page_ten }

abbrev scavenge : Space → Space
scavenge s = record s { cur = 4096; limit = 5120 }

abbrev four_words : ℕ
four_words = 4

-- A nursery of two megabytes, nearly empty.
abbrev roomy : Space
roomy = record { cur = 4592; limit = 2101248; arena = page_ten }
