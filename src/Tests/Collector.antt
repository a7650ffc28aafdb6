-- ===== src/Tests/Collector.antt =====
-- Runs of the collector's sets, queue and shadow stack.
use fx_ui.Base.{
  ℕ, ◌≡◌, refl, true, false, none, [], ◌∷◌, ◌==◌, ltb, if◌then◌else◌, arith, replicate,
}
use fx_ui.Gc.Dirty.{DirtyVectors, gc_dirty_vectors_add, DirtyDefuns}
use fx_ui.Gc.Dirty.Laws.{Better, gc_dirty_vectors_add_lem}
use fx_ui.Gc.Queue.{Queue, queue}
use fx_ui.Gc.Queue.Laws.{Represents, queue_lem}
use fx_ui.Gc.Pages.{Heap, claim_run, allocatepage, attempt, scan_pages, oldgen_collect_lastresort}
use fx_ui.Gc.Pages.Claim.{Prepared, IsHeap, Taken, allocatepage_lem}
use fx_ui.Gc.Roots.{
  RootKind, Root, root, Shadow, push_root, write_root, shadow_stack_grow, gc_root_pop_to,
  gc_root_watermark,
}
use fx_ui.Gc.Roots.Laws.{roots, IsInside, push, gc_root_pop_to_lem}

abbrev one_vector : DirtyVectors
one_vector = record { vectors = 4096 ∷ []; cap = 256; overflow = false; fired = 1 }

gc_dirty_vectors_add_lem_example :
    Better one_vector 8192 (gc_dirty_vectors_add true one_vector 8192)
gc_dirty_vectors_add_lem_example =
    gc_dirty_vectors_add_lem true one_vector 8192 ((refl, tt), omega arith, omega arith)

abbrev clean : DirtyDefuns
clean = record { words = replicate 64 (replicate 64 false); fired = 0 }

abbrev marked : ℕ
marked = 65

abbrev unmarked : ℕ
unmarked = 66

-- Page 5 is queued.
abbrev one_page : Queue
one_page = record { head = 5; tail = 5; link = λ p. 0; queued = λ p. p == 5 }

queue_lem_example :
    (one_page.queued 6 ≡ true → queue one_page 6 ≡ one_page)
    × (one_page.queued 6 ≡ false → Represents (queue one_page 6) (5 ∷ 6 ∷ []))
queue_lem_example =
    queue_lem one_page 6 (5 ∷ []) (omega arith)
      ((refl, (refl, refl)), (refl, tt), ((omega arith, refl), tt))

abbrev a_root : Root
a_root = root RootKind.root_value 64 none

abbrev no_roots : Shadow
no_roots = record { cells = λ i. a_root; len = 0; cap = 0 }

abbrev one_root : Shadow
one_root = write_root (record no_roots { cap = 64 }) a_root

gc_root_pop_to_lem_example :
    (roots (gc_root_pop_to one_root (gc_root_watermark no_roots)) ≡ roots no_roots)
    × IsInside (gc_root_pop_to one_root (gc_root_watermark no_roots))
unfolding push_root shadow_stack_grow gc_root_watermark
gc_root_pop_to_lem_example =
    gc_root_pop_to_lem (push true a_root ∷ []) no_roots one_root (omega arith) tt refl

-- Eight pages from 8 on, the first two in use.
abbrev pub small_heap : Heap
small_heap = record {
  firstheappage = 8;
  lastheappage = 15;
  heappages = 8;
  heap_mmap_size = 0;
  allocatedpages = 2;
  freepage = 8;
  freep = 0;
  freewords = 0;
  current_space = 1;
  next_space = 1;
  in_scavenge = false;
  space = λ p. if ltb p 10 then 1 else 0;
  type_page = λ p. 0;
  pages = one_page;
}

abbrev one_taken : Heap
one_taken = claim_run small_heap 1 10 10

allocatepage_lem_example :
    (g : Heap) × Prepared (λ h. h) false 1 small_heap g × IsHeap g × Taken 1 g one_taken
unfolding allocatepage attempt scan_pages oldgen_collect_lastresort
allocatepage_lem_example =
    allocatepage_lem (λ h. h) false small_heap one_taken 1 (λ g i. i)
      (refl, omega arith, (omega arith, omega arith)) (omega arith) refl
