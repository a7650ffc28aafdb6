-- ===== src/Gc/Pages/Scan.antt =====
-- reference/shen-gc/gc.c: the scan of `allocatepage` finds free pages that follow one another.
use fx_ui.Base.{
  ℕ, zero, suc, ◌+◌, ◌≤◌, ◌<◌, ◌≡◌, ◌≢◌, ◌⊎◌, inl, inr, refl, true, arith, ◌==◌, if◌then◌else◌,
  Holds, Bool-cases, if-cases,
}
use fx_ui.Gc.Pages.{Heap, next_page, page_is_free, restart, scan_pages}

-- The `n` pages from `first` on are free.
abbrev pub RunIsFree : Heap → (first n : ℕ) → Type 0
RunIsFree h first n = (p : ℕ) → first ≤ p → p < first + n → page_is_free h p ≡ true

abbrev pub InHeap : Heap → ℕ → Type 0
InHeap h p = (h.firstheappage ≤ p) × (p ≤ h.lastheappage)

-- The pages counted so far end before `page`, unless there is none.
abbrev pub Counted : Heap → (page free first : ℕ) → Type 0
Counted h page free first =
    ((free ≡ 0) ⊎ ((first + free ≡ page) × (h.firstheappage ≤ first))) × RunIsFree h first free

-- What the scan finds.
abbrev pub Found : Heap → ℕ → ℕ × ℕ → Type 0
Found h wanted r =
    (r.0 + wanted ≡ r.1 + 1)
    × (h.firstheappage ≤ r.0)
    × (r.1 ≤ h.lastheappage)
    × RunIsFree h r.0 wanted

module _ (h : Heap) (wanted : ℕ) (some_page : h.firstheappage ≤ h.lastheappage) where
  pub next-InHeap : (page : ℕ) → InHeap h page → InHeap h (next_page h page)
  next-InHeap page i = let low = i.0 in let high = i.1 in ground arith

  pub none-Counted : (page first : ℕ) → Counted h page 0 first
  none-Counted page first = (inl refl, λ p le lt. absurd (omega arith))

  one_more-Counted :
      (page free first : ℕ)
      → Counted h page free first
      → InHeap h page
      → page_is_free h page ≡ true
      → Counted h (page + 1) (free + 1) (if free == 0 then page else first)
  one_more-Counted page free first c i e = elim (Bool-cases (free == 0)) [
    | inl z ↦
        let none_yet : free ≡ 0 = ground arith in
        rw z (
          inr (omega (arith, none_yet), i.0),
          λ p le lt. let same : p ≡ page = omega (arith, none_yet) in rw same e,
        )
    | inr z ↦ elim c.0 [
      | inl none_yet ↦ absurd (ground arith)
      | inr (sum, low) ↦ rw z (
        inr (omega (arith, sum), low),
        λ p le lt. elim (Bool-cases (p == page)) [
          | inl q ↦ let same : p ≡ page = ground arith in rw same e
          | inr q ↦ c.1 p le (let other : p ≢ page = ground arith in omega (arith, sum))
        ],
      )
    ]
  ]

  restart-Counted :
      (page free first : ℕ)
      → Counted h (page + 1) free first
      → Counted h (next_page h page) (restart h (next_page h page) free) first
  restart-Counted page free first c = elim (Bool-cases (page == h.lastheappage)) [
    | inr e ↦ rw e (
        if-cases (λ n. Counted h (page + 1) n first) (page + 1 == h.firstheappage) 0 free
          (λ _. none-Counted (page + 1) first) (λ _. c))
    | inl e ↦
        let same : (h.firstheappage == h.firstheappage) ≡ true = ground arith in
        rw (e, same) (none-Counted h.firstheappage first)
  ]

  restart-lt : (page free : ℕ) → free < wanted → restart h page free < wanted
  restart-lt page free lt =
      if-cases (λ n. n < wanted) (page == h.firstheappage) 0 free (λ _. omega arith) (λ _. lt)

  Found-here :
      (page free first : ℕ)
      → Counted h (page + 1) (free + 1) first
      → InHeap h page
      → free + 1 ≡ wanted
      → Found h wanted (first, page)
  Found-here page free first c i w = elim c.0 [
    | inl impossible ↦ absurd (omega arith)
    | inr (sum, low) ↦ (rw (← w) (omega (arith, sum)), low, i.1, rw (← w) c.1)
  ]

  pub scan_pages-Found :
      (rounds page free first : ℕ)
      → InHeap h page
      → Counted h page free first
      → free < wanted
      → Holds (Found h wanted) (scan_pages h wanted rounds page free first)
  unfolding scan_pages
  scan_pages-Found zero page free first i c lt = tt
  scan_pages-Found (suc rounds) page free first i c lt =
      let P = Holds (Found h wanted) in
      let next = next-InHeap page i in
      if-cases P (page_is_free h page) _ _
        (λ e.
          let more = one_more-Counted page free first c i e in
          if-cases P (free + 1 == wanted) _ _ (λ w. Found-here page free _ more i (ground arith))
            (λ w.
              scan_pages-Found rounds (next_page h page) _ _ next
                (restart-Counted page (free + 1) _ more)
                (restart-lt (next_page h page) (free + 1) (ground arith))))
        (λ e.
          scan_pages-Found rounds (next_page h page) 0 first next
            (none-Counted (next_page h page) first) (omega arith))
