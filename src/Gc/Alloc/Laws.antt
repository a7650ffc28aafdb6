-- ===== src/Gc/Alloc/Laws.antt =====
-- reference/shen-gc/gc.c: the open page is a chain of objects, and an allocation keeps it so.
use fx_ui.Base.{
  ℕ, ◌+◌, ◌*◌, ◌≤◌, ◌<◌, ◌≡◌, refl, Bool, false, Option, none, some, arith, ◌==◌, Holds, if-cases,
}
use fx_ui.Gc.Pages.{
  Heap, pagewords, claim_run, claimed, over_limit, triggers, grow_heap, Attempt, or_short, attempt,
  second, with_growth, first_attempt, allocatepage,
}
use fx_ui.Gc.Alloc.{make_header, forwarded, header_words, Memory, Arena, write, clear, close_page}
use fx_ui.Gc.Alloc.Header.{make_header_lem}

-- From the header at `a` on, each one leads to the next, up to `b`.
pub data Walk (mem : Memory) : ℕ → ℕ → Type 0 where
  ends : (a : ℕ) → Walk mem a a
  hops :
      (a b : ℕ)
      → forwarded (mem a) ≡ false
      → 1 ≤ header_words (mem a)
      → Walk mem (a + header_words (mem a)) b
      → Walk mem a b

Walk-le : (mem : Memory) (a b : ℕ) → Walk mem a b → a ≤ b
Walk-le mem a b (ends _) = omega arith
Walk-le mem a b (hops _ _ f one w) = omega (arith, Walk-le mem (a + header_words (mem a)) b w, one)

-- Memory with the same words before `b`, and a header at `b`.
module _ (mem mem' : Memory) (b words : ℕ) (same : (x : ℕ) → x < b → mem' x ≡ mem x)
    (live : forwarded (mem' b) ≡ false) (size : header_words (mem' b) ≡ words)
    (one : 1 ≤ words) where
  pub longer : (a : ℕ) → Walk mem a b → Walk mem' a (b + words)
  longer a (ends _) =
      hops b (b + words) live (omega (arith, size, one)) (rw size (ends (b + words)))
  longer a (hops _ _ f n w) =
      let le = Walk-le mem (a + header_words (mem a)) b w in
      let e = same a (omega (arith, le, n)) in
      hops a (b + words) (rw e f) (rw e n) (rw e (longer (a + header_words (mem a)) w))

-- What a new run of pages leaves.
module _ (collect : Heap → Heap) (reallocs : Bool) (wanted : ℕ) where
  abbrev Fresh : Heap → Type 0
  Fresh h = h.freewords ≡ wanted * pagewords

  abbrev FreshTry : Attempt → Type 0
  FreshTry (Attempt.allocated h) = Fresh h
  FreshTry (Attempt.short h) = Unit

  scan-FreshTry : (g : Heap) (o : Option (ℕ × ℕ)) → FreshTry (or_short g (claimed g wanted o))
  unfolding claim_run
  scan-FreshTry g none = tt
  scan-FreshTry g (some (a, b)) = refl

  attempt-FreshTry : (g : Heap) → FreshTry (attempt collect g wanted)
  unfolding attempt
  attempt-FreshTry g =
      if-cases FreshTry (triggers g wanted) _ _
        (λ e.
          if-cases FreshTry (over_limit (collect g) wanted) _ _ (λ f. tt)
            (λ f. scan-FreshTry (collect g) _))
        (λ e. scan-FreshTry g _)

  second-Fresh : (a : Attempt) → FreshTry a → Holds Fresh (second a)
  second-Fresh (Attempt.allocated h) f = f
  second-Fresh (Attempt.short h) f = tt

  with_growth-Fresh : (o : Option Heap) → Holds Fresh (with_growth collect wanted o)
  with_growth-Fresh none = tt
  with_growth-Fresh (some h) = second-Fresh _ (attempt-FreshTry h)

  first_attempt-Fresh :
      (a : Attempt) → FreshTry a → Holds Fresh (first_attempt collect reallocs wanted a)
  first_attempt-Fresh (Attempt.allocated h) f = f
  first_attempt-Fresh (Attempt.short h) f = with_growth-Fresh (grow_heap reallocs h wanted)

  pub allocatepage-Fresh : (h : Heap) → Holds Fresh (allocatepage collect reallocs h wanted)
  unfolding allocatepage
  allocatepage-Fresh h = first_attempt-Fresh _ (attempt-FreshTry h)

-- The open page: a chain of objects from its start to `freep`, and behind it the free words, which
-- end the page.
pub record IsOpen (s : Arena) : Type 0 where
  pub start : ℕ
  pub walks : Walk s.mem start s.at
  pub few : s.heap.freewords ≤ pagewords
  pub fits : 1 ≤ s.heap.freewords → s.at + s.heap.freewords ≡ start + pagewords

pub at_written : (mem : Memory) (a v : ℕ) → write mem a v a ≡ v
unfolding write
at_written mem a v = ground arith

pub before_written : (mem : Memory) (a v x : ℕ) → x < a → write mem a v x ≡ mem x
unfolding write
before_written mem a v x h = ground arith

pub before_cleared : (mem : Memory) (a n x : ℕ) → x < a → clear mem a n x ≡ mem x
unfolding clear
before_cleared mem a n x h = ground arith

pub at_cleared : (mem : Memory) (a n i : ℕ) → i < n → clear mem a n (a + i) ≡ 0
unfolding clear
at_cleared mem a n i h = ground arith

-- A closed page is a chain of objects to its very end.
pub close_page-Walk :
    (s : Arena) (o : IsOpen s)
    → 1 ≤ s.heap.freewords
    → Walk (close_page s).mem o.start (o.start + pagewords)
unfolding close_page
close_page-Walk s o h =
    let test : (s.heap.freewords == 0) ≡ false = ground arith in
    let hdr = make_header s.heap.freewords 0 in
    let few = o.few in
    let (live, size, kind) = make_header_lem s.heap.freewords 0 (omega arith) (omega arith) in
    let there = at_written s.mem s.at hdr in
    rw (test, ← o.fits h)
      (longer s.mem (write s.mem s.at hdr) s.at s.heap.freewords
        (λ x b. before_written s.mem s.at hdr x b) (rw there live) (rw there size) h o.start
        o.walks)
