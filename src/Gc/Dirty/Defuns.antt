-- ===== src/Gc/Dirty/Defuns.antt =====
-- reference/shen-gc/gc.c: the bitset of dirty defun slots.
use fx_ui.Base.{
  ℕ, zero, suc, ◌/◌, ◌%◌, ◌<◌, ◌≡◌, ◌≢◌, inl, inr, refl, ◌∙◌, Bool, true, false, List, [], ◌∷◌,
  arith, leb, ◌==◌, length, length-set, get_or, set, replicate, get_or-replicate,
  get_or-replicate_lt, get_or-set_self, get_or-set_ne, length-replicate, All, Bool-cases,
}
use fx_ui.Base.Int.{pos}
use fx_ui.Gc.Dirty.{
  DirtyDefuns, word_of, bit_of, set_bit, gc_dirty_defuns_mark, gc_dirty_defuns_test,
  gc_dirty_defuns_clear, defun_table_cap,
}

-- The bitset has its 64 words of 64 bits.
abbrev pub IsBitset : DirtyDefuns → Type 0
IsBitset d = (length d.words ≡ 64) × All (λ w. length w ≡ 64) d.words

All-get_or :
    (ws : List (List Bool)) (i : ℕ)
    → All (λ w. length w ≡ 64) ws
    → i < length ws
    → length (get_or ws i []) ≡ 64
All-get_or [] i h b = elim b [ ]
All-get_or (w ∷ ws) zero h b = h.0
All-get_or (w ∷ ws) (suc i) h b = All-get_or ws i h.1 (omega arith)

All-set :
    (ws : List (List Bool)) (i : ℕ) (w : List Bool)
    → All (λ w. length w ≡ 64) ws
    → length w ≡ 64
    → All (λ w. length w ≡ 64) (set ws i w)
All-set [] i w h e = tt
All-set (v ∷ ws) zero w h e = (e, h.1)
All-set (v ∷ ws) (suc i) w h e = (h.0, All-set ws i w h.1 e)

module _ (d : DirtyDefuns) (n : ℕ) (h : IsBitset d) (small : n < defun_table_cap) where
  set_bit-IsBitset : IsBitset (set_bit d n)
  set_bit-IsBitset =
      let in_words : n / 64 < length d.words = rw h.0 (omega arith) in
      let word = All-get_or d.words (n / 64) h.1 in_words in
      (
        length-set d.words (n / 64) _ ∙ h.0,
        All-set d.words (n / 64) _ h.1 (length-set (word_of d n) (n % 64) true ∙ word),
      )

  bit_of-set_bit_self : bit_of (set_bit d n) n ≡ true
  bit_of-set_bit_self =
      let in_words : n / 64 < length d.words = rw h.0 (omega arith) in
      let word = All-get_or d.words (n / 64) h.1 in_words in
      let in_word : n % 64 < length (word_of d n) = rw word (omega arith) in
      rw (get_or-set_self d.words (n / 64) (set (word_of d n) (n % 64) true) [] in_words)
        (get_or-set_self (word_of d n) (n % 64) true false in_word)

  bit_of-set_bit_ne : (m : ℕ) → n ≢ m → bit_of (set_bit d n) m ≡ bit_of d m
  bit_of-set_bit_ne m ne =
      let in_words : n / 64 < length d.words = rw h.0 (omega arith) in
      elim (Bool-cases (n / 64 == m / 64)) [
        | inl e ↦
            let same : m / 64 ≡ n / 64 = ground arith in
            let bits : n % 64 ≢ m % 64 = omega arith in
            rw
              (same, get_or-set_self d.words (n / 64) (set (word_of d n) (n % 64) true) [] in_words)
              (get_or-set_ne (word_of d n) (n % 64) (m % 64) true false bits)
        | inr e ↦
            let words : n / 64 ≢ m / 64 = ground arith in
            rw (get_or-set_ne d.words (n / 64) (m / 64) (set (word_of d n) (n % 64) true) [] words)
              refl
      ]

All-replicate : (n : ℕ) (w : List Bool) → length w ≡ 64 → All (λ w. length w ≡ 64) (replicate n w)
All-replicate zero w h = tt
All-replicate (suc n) w h = (h, All-replicate n w h)

pub clear-IsBitset : (d : DirtyDefuns) → IsBitset (gc_dirty_defuns_clear d)
unfolding gc_dirty_defuns_clear
clear-IsBitset d = (
  length-replicate 64 (replicate 64 false),
  All-replicate 64 (replicate 64 false) (length-replicate 64 false),
)

clear_lem :
    (d : DirtyDefuns) (m : ℕ) → gc_dirty_defuns_test (gc_dirty_defuns_clear d) (pos m) ≡ false
unfolding gc_dirty_defuns_test gc_dirty_defuns_clear
clear_lem d m = elim (Bool-cases (leb defun_table_cap m)) [
  | inl e ↦ rw e refl
  | inr e ↦
      let inside : m < defun_table_cap = ground arith in
      rw (e, get_or-replicate_lt 64 (m / 64) (replicate 64 false) [] (omega arith))
        (get_or-replicate 64 (m % 64) false)
]

-- Marking an entry of the table makes it, and no other entry, test as dirty; entries out of the
-- table never test as dirty; and after a clear none does.
pub gc_dirty_defuns_mark_lem :
    (d : DirtyDefuns) (n m : ℕ)
    → IsBitset d
    → n < defun_table_cap
    → IsBitset (gc_dirty_defuns_mark d (pos n))
      × (gc_dirty_defuns_test (gc_dirty_defuns_mark d (pos n)) (pos n) ≡ true)
      × (n ≢ m
          → gc_dirty_defuns_test (gc_dirty_defuns_mark d (pos n)) (pos m)
            ≡ gc_dirty_defuns_test d (pos m))
      × (gc_dirty_defuns_test (gc_dirty_defuns_clear d) (pos m) ≡ false)
unfolding gc_dirty_defuns_mark gc_dirty_defuns_test gc_dirty_defuns_clear
gc_dirty_defuns_mark_lem d n m h small =
    let inside : leb defun_table_cap n ≡ false = ground arith in
    let clean = clear_lem d m in
    elim (Bool-cases (bit_of d n)) [
      | inl e ↦ simp (inside, e) (h, refl, λ ne. refl, clean)
      | inr e ↦
          simp (inside, e)
            (
              set_bit-IsBitset d n h small,
              bit_of-set_bit_self d n h small,
              λ ne. rw (bit_of-set_bit_ne d n h small m ne) refl,
              clean,
            )
    ]
