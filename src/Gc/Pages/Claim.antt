-- ===== src/Gc/Pages/Claim.antt =====
-- reference/shen-gc/gc.c: what `allocatepage` takes.
use fx_ui.Base.{
  ℕ, ◌+◌, ◌-◌, ◌*◌, ◌≤◌, ◌≡◌, refl, Bool, Option, none, some, arith, if◌then◌else◌, Holds, Holds-at,
  if-cases,
}
use fx_ui.Gc.Pages.{
  Heap, scan_pages, in_run, claim_run, claimed, over_limit, triggers, new_heappages, with_pages,
  grow_heap, Attempt, or_short, scan_heap, attempt, second, with_growth, first_attempt,
  allocatepage, pagewords,
}
use fx_ui.Gc.Pages.Scan.{RunIsFree, InHeap, Found, none-Counted, scan_pages-Found}

-- The pages of the heap follow one another, and the scan starts at one of them.
abbrev pub IsHeap : Heap → Type 0
IsHeap h =
    (h.lastheappage + 1 ≡ h.firstheappage + h.heappages) × (1 ≤ h.heappages) × InHeap h h.freepage

-- `h` is `g` with `wanted` pages taken: free ones of the heap that follow one another, and no page
-- besides changes its space.
abbrev pub Taken : ℕ → Heap → Heap → Type 0
Taken wanted g h =
    (g.firstheappage ≤ h.freep)
    × (h.freep + wanted ≤ g.lastheappage + 1)
    × RunIsFree g h.freep wanted
    × ((p : ℕ) → h.space p ≡ (if in_run h.freep wanted p then g.next_space else g.space p))
    × (h.freewords ≡ wanted * pagewords)
    × (h.allocatedpages ≡ g.allocatedpages + wanted)

claim_run-Taken :
    (g : Heap) (wanted : ℕ) (r : ℕ × ℕ)
    → Found g wanted r
    → Taken wanted g (claim_run g wanted r.0 r.1)
unfolding claim_run
claim_run-Taken g wanted r f =
    let sum = f.0 in let high = f.2 in (f.1, omega (arith, sum, high), f.3, λ p. refl, refl, refl)

scan-Found :
    (g : Heap) (wanted : ℕ)
    → 1 ≤ wanted
    → IsHeap g
    → Holds (Found g wanted) (scan_pages g wanted g.heappages g.freepage 0 0)
scan-Found g wanted pos h =
    let pages = h.0 in
    let some_page = h.1 in
    scan_pages-Found g wanted (omega (arith, pages, some_page)) g.heappages g.freepage 0 0 h.2
      (none-Counted g wanted (omega (arith, pages, some_page)) g.freepage 0) pos

new_heappages-le : (g : Heap) (wanted : ℕ) → g.heappages * 2 ≤ new_heappages g wanted
new_heappages-le g wanted = ground arith

with_pages-IsHeap :
    (g : Heap) (n : ℕ)
    → IsHeap g
    → g.heappages * 2 ≤ n
    → IsHeap (with_pages g n (g.firstheappage + n - 1))
with_pages-IsHeap g n h more =
    let pages = h.0 in
    let some_page = h.1 in
    let high = h.2.1 in
    (
      omega (arith, more, some_page),
      omega (arith, more, some_page),
      (h.2.0, omega (arith, more, pages, some_page, high)),
    )

-- A heap that collections and growth can lead to.
pub data Prepared (collect : Heap → Heap) (reallocs : Bool) (wanted : ℕ) (h : Heap)
    : Heap → Type 0 where
  as_is : Prepared collect reallocs wanted h h
  collected :
      {g : Heap}
      → Prepared collect reallocs wanted h g
      → Prepared collect reallocs wanted h (collect g)
  enlarged :
      {g g' : Heap}
      → Prepared collect reallocs wanted h g
      → grow_heap reallocs g wanted ≡ some g'
      → Prepared collect reallocs wanted h g'

module _ (collect : Heap → Heap) (kept : (h : Heap) → IsHeap h → IsHeap (collect h))
    (reallocs : Bool) (wanted : ℕ) where
  grow_heap-IsHeap : (g : Heap) → IsHeap g → Holds IsHeap (grow_heap reallocs g wanted)
  unfolding grow_heap
  grow_heap-IsHeap g h =
      let n = new_heappages g wanted in
      let last = g.firstheappage + n - 1 in
      if-cases (Holds IsHeap) _ (some (with_pages g n last)) none
        (λ _. with_pages-IsHeap g n h (new_heappages-le g wanted)) (λ _. tt)

  -- A heap that the pages are taken of.
  abbrev pub Allocated : Heap → Heap → Type 0
  Allocated h h' = (g : Heap) × Prepared collect reallocs wanted h g × IsHeap g × Taken wanted g h'

  abbrev Good : Heap → Attempt → Type 0
  Good h (Attempt.allocated h') = Allocated h h'
  Good h (Attempt.short g) = Prepared collect reallocs wanted h g × IsHeap g

  or_short-Good :
      (h g : Heap) (o : Option (ℕ × ℕ))
      → Prepared collect reallocs wanted h g
      → IsHeap g
      → Holds (Found g wanted) o
      → Good h (or_short g (claimed g wanted o))
  or_short-Good h g none p i f = (p, i)
  or_short-Good h g (some (first, last)) p i f = (g, p, i, claim_run-Taken g wanted (first, last) f)

  module _ (pos : 1 ≤ wanted) where
    scan_heap-Good :
        (h g : Heap) → Prepared collect reallocs wanted h g → IsHeap g → Good h (scan_heap g wanted)
    scan_heap-Good h g p i = or_short-Good h g _ p i (scan-Found g wanted pos i)

    attempt-Good :
        (h g : Heap)
        → Prepared collect reallocs wanted h g
        → IsHeap g
        → Good h (attempt collect g wanted)
    unfolding attempt
    attempt-Good h g p i =
        if-cases (Good h) (triggers g wanted) _ _
          (λ _.
            if-cases (Good h) (over_limit (collect g) wanted) _ _ (λ _. (collected p, kept g i))
              (λ _. scan_heap-Good h (collect g) (collected p) (kept g i)))
          (λ _. scan_heap-Good h g p i)

    second-Allocated : (h : Heap) (a : Attempt) → Good h a → Holds (Allocated h) (second a)
    second-Allocated h (Attempt.allocated h') a = a
    second-Allocated h (Attempt.short g) a = tt

    with_growth-Allocated :
        (h g : Heap) (o : Option Heap)
        → grow_heap reallocs g wanted ≡ o
        → Prepared collect reallocs wanted h g
        → Holds IsHeap o
        → Holds (Allocated h) (with_growth collect wanted o)
    with_growth-Allocated h g none e p i = tt
    with_growth-Allocated h g (some g') e p i =
        second-Allocated h _ (attempt-Good h g' (enlarged p e) i)

    first_attempt-Allocated :
        (h : Heap) (a : Attempt)
        → Good h a
        → Holds (Allocated h) (first_attempt collect reallocs wanted a)
    first_attempt-Allocated h (Attempt.allocated h') a = a
    first_attempt-Allocated h (Attempt.short g) a =
        with_growth-Allocated h g _ refl a.0 (grow_heap-IsHeap g a.1)

-- An allocation that does not end the program takes the pages it was asked for: pages of the heap
-- that follow one another and were free, so in neither semi-space in use nor in the nursery; they go
-- to the space that is allocated in and no other page changes. The heap it takes them of is the
-- given one, after collections and growth, of which `collect` keeps the page numbers consistent.
pub allocatepage_lem :
    (collect : Heap → Heap) (reallocs : Bool) (h h' : Heap) (wanted : ℕ)
    → ((g : Heap) → IsHeap g → IsHeap (collect g))
    → IsHeap h
    → 1 ≤ wanted
    → allocatepage collect reallocs h wanted ≡ some h'
    → (g : Heap) × Prepared collect reallocs wanted h g × IsHeap g × Taken wanted g h'
unfolding allocatepage
allocatepage_lem collect reallocs h h' wanted kept i pos e =
    Holds-at (Allocated collect kept reallocs wanted h) _ h' e (
      first_attempt-Allocated collect kept reallocs wanted pos h _
        (attempt-Good collect kept reallocs wanted pos h h as_is i))
