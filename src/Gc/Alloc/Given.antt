-- ===== src/Gc/Alloc/Given.antt =====
-- reference/shen-gc/gc.c: the object that `gcalloc_internal` gives.
use fx_ui.Base.{
  ℕ, suc, ◌+◌, ◌-◌, ◌*◌, ◌^◌, ◌≤◌, ◌<◌, ◌≡◌, refl, ◌∙◌, Bool, false, Option, none, some, arith, ltb,
  Holds, if-cases,
}
use fx_ui.Gc.Pages.{Heap, pagewords}
use fx_ui.Gc.Alloc.{
  make_header, forwarded, header_type, header_words, wordbytes, Memory, Arena, write, words_for,
  close_page, place, Alloc, pages_for, opened, and_open, take_words, gcalloc_internal,
}
use fx_ui.Gc.Alloc.Header.{make_header_lem}
use fx_ui.Gc.Alloc.Laws.{
  Walk, ends, longer, allocatepage-Fresh, IsOpen, at_written, before_written, before_cleared,
  at_cleared,
}

-- A page on which an object of `words` words may be placed: one of fewer than a page's words stays on
-- a single page.
record Suits (words : ℕ) (s : Arena) : Type 0 where
  start : ℕ
  walks : Walk s.mem start s.at
  few : words < pagewords → s.heap.freewords ≤ pagewords
  fits : words < pagewords → 1 ≤ s.heap.freewords → s.at + s.heap.freewords ≡ start + pagewords

-- The object at `p`, of which the memory is `mem`: its header stands in front of it, has the number
-- of words and the type, and is no forwarding pointer; the body is zeroed.
pub record IsObject (mem : Memory) (p words ty : ℕ) : Type 0 where
  pub behind : 1 ≤ p
  pub live : forwarded (mem (p - 1)) ≡ false
  pub size : header_words (mem (p - 1)) ≡ words
  pub kind : header_type (mem (p - 1)) ≡ ty
  pub zeroed : (i : ℕ) → i + 1 < words → mem (p + i) ≡ 0

-- The page stays open, the object ends where `freep` stands, and what stands on the page before an
-- object that needs no new page is left as it is.
pub record Placed (words ty : ℕ) (s : Arena) (p : ℕ) (s' : Arena) : Type 0 where
  pub page : IsOpen s'
  pub made : IsObject s'.mem p words ty
  pub last : s'.at + 1 ≡ p + words
  pub same : words ≤ s.heap.freewords → (p ≡ s.at + 1) × ((x : ℕ) → x < s.at → s'.mem x ≡ s.mem x)

module _ (words ty : ℕ) (one : 1 ≤ words) (small : words < 2 ^ 24) (kinds : ty < 2 ^ 20)
    (s : Arena) where
  placed_header : (place words ty s).mem s.at ≡ make_header words ty
  unfolding place
  placed_header =
      before_cleared (write s.mem s.at (make_header words ty)) (s.at + 1) (words - 1) s.at
        (omega arith)
      ∙ at_written s.mem s.at (make_header words ty)

  placed_before : (x : ℕ) → x < s.at → (place words ty s).mem x ≡ s.mem x
  unfolding place
  placed_before x h =
      before_cleared (write s.mem s.at (make_header words ty)) (s.at + 1) (words - 1) x
        (omega arith)
      ∙ before_written s.mem s.at (make_header words ty) x h

  placed_body : (i : ℕ) → i + 1 < words → (place words ty s).mem (s.at + 1 + i) ≡ 0
  unfolding place
  placed_body i h =
      at_cleared (write s.mem s.at (make_header words ty)) (s.at + 1) (words - 1) i (omega arith)

  placed_last : (place words ty s).at + 1 ≡ s.at + 1 + words
  unfolding place
  placed_last = omega arith

  place-IsOpen : Suits words s → words ≤ s.heap.freewords → IsOpen (place words ty s)
  unfolding place
  place-IsOpen o room =
      let (live, size, kind) = make_header_lem words ty small kinds in
      record {
        start = o.start;
        walks =
            longer s.mem (place words ty s).mem s.at words placed_before (rw placed_header live)
              (rw placed_header size) one o.start o.walks;
        few =
            if-cases (λ n. n ≤ pagewords) (ltb words pagewords) (s.heap.freewords - words) 0
              (λ e. omega (arith, o.few (ground arith))) (λ e. omega arith);
        fits =
            if-cases (λ n. 1 ≤ n → s.at + words + n ≡ o.start + pagewords) (ltb words pagewords)
              (s.heap.freewords - words) 0
              (λ e h. omega (arith, h, o.fits (ground arith) (omega (arith, h)), room))
              (λ e h. absurd (omega (arith, h)));
      }

  place-Placed :
      (o : Arena)
      → (words ≤ o.heap.freewords → o ≡ s)
      → Suits words s
      → words ≤ s.heap.freewords
      → Placed words ty o (s.at + 1) (place words ty s)
  place-Placed o was suits room =
      let (live, size, kind) = make_header_lem words ty small kinds in
      let back : s.at + 1 - 1 ≡ s.at = omega arith in
      record {
        page = place-IsOpen suits room;
        made = record {
          behind = omega arith;
          live = rw (back, placed_header) live;
          size = rw (back, placed_header) size;
          kind = rw (back, placed_header) kind;
          zeroed = placed_body;
        };
        last = placed_last;
        same = λ h. rw (was h) (refl, placed_before);
      }

-- What an allocation that starts in `s` may end in: an object, or the exit, but no endless loop.
abbrev pub Given : (words ty : ℕ) → Arena → Alloc → Type 0
Given words ty s (Alloc.object p s') = Placed words ty s p s'
Given words ty s Alloc.died = Unit
Given words ty s Alloc.endless = ⊥

pages_for-le : (words : ℕ) → words ≤ pages_for words * pagewords
pages_for-le words = omega arith

pages_for_one : (words : ℕ) → 1 ≤ words → words < pagewords → pages_for words ≡ 1
pages_for_one words h g = omega arith

module _ (collect : Heap → Heap) (moved : Heap → Memory → Memory) (reallocs : Bool) (words ty : ℕ)
    (one : 1 ≤ words) (small : words < 2 ^ 24) (kinds : ty < 2 ^ 20) (s : Arena) where
  room-Given :
      (rounds : ℕ) (t : Arena)
      → (words ≤ s.heap.freewords → s ≡ t)
      → Suits words t
      → words ≤ t.heap.freewords
      → Given words ty s (take_words collect moved reallocs (suc rounds) words ty t)
  unfolding take_words
  room-Given rounds t was suits room =
      if-cases (Given words ty s) (ltb t.heap.freewords words) _ _ (λ e. absurd (ground arith))
        (λ e. place-Placed words ty one small kinds t s was suits room)

  opened-Given :
      (rounds : ℕ) (c : Arena) (o : Option Heap)
      → s.heap.freewords < words
      → Holds (λ h. h.freewords ≡ pages_for words * pagewords) o
      → Given words ty s (
          and_open collect moved reallocs
            (take_words collect moved reallocs (suc rounds) words ty)
            (opened collect moved reallocs c o))
  opened-Given rounds c none few f = tt
  opened-Given rounds c (some h) few f =
      room-Given rounds (record { heap = h; at = h.freep * pagewords; mem = moved c.heap c.mem })
        (λ g. absurd (omega (arith, g, few)))
        (record {
          start = h.freep * pagewords;
          walks = ends (h.freep * pagewords);
          few = λ g. let p = pages_for_one words one g in rw (f, p) (omega arith);
          fits = λ g n. let p = pages_for_one words one g in rw (f, p) (omega arith);
        })
        (rw f (pages_for-le words))

  take_words-Given :
      (rounds : ℕ)
      → IsOpen s
      → Given words ty s (take_words collect moved reallocs (suc (suc rounds)) words ty s)
  unfolding take_words
  take_words-Given rounds o =
      let suits : Suits words s = record {
        start = o.start;
        walks = o.walks;
        few = λ g. o.few;
        fits = λ g. o.fits;
      } in
      if-cases (Given words ty s) (ltb s.heap.freewords words) _ _
        (λ e.
          opened-Given rounds (close_page s) _ (ground arith)
            (allocatepage-Fresh collect reallocs (pages_for words) (close_page s).heap))
        (λ e. place-Placed words ty one small kinds s s (λ g. refl) suits (ground arith))

-- An allocation on an open page ends, in the exits or with an object: for a byte count that does not
-- wrap and a type of 20 bits, its header has its words and its type, the body has room for the bytes
-- and is zero, the page it stands on is a chain of objects up to the end of this one, and an object
-- that needs no new page stands at the old `freep` and changes no word before it.
pub gcalloc_internal_lem :
    (collect : Heap → Heap) (moved : Heap → Memory → Memory) (reallocs : Bool) (rounds bytes ty : ℕ)
    (s : Arena)
    → bytes + 8 ≤ 2 ^ 64
    → ty < 2 ^ 20
    → IsOpen s
    → Given
        (words_for bytes)
        ty
        s
        (gcalloc_internal collect moved reallocs (suc (suc rounds)) bytes ty s)
      × (bytes + wordbytes ≤ words_for bytes * wordbytes)
unfolding gcalloc_internal words_for
gcalloc_internal_lem collect moved reallocs rounds bytes ty s wraps kinds o = (
  if-cases (Given (words_for bytes) ty s) (ltb 16777215 (words_for bytes)) _ _ (λ e. tt)
      (λ e.
        take_words-Given collect moved reallocs (words_for bytes) ty (omega arith) (ground arith)
          kinds s rounds o),
  omega arith,
)
