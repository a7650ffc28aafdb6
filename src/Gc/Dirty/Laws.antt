-- ===== src/Gc/Dirty/Laws.antt =====
-- reference/shen-gc/gc.c: the remembered sets miss no write.
use fx_ui.Base.{
  ℕ, ◌≤◌, ◌<◌, ◌≡◌, ◌⊎◌, inl, inr, refl, Bool, true, false, List, [], ◌∷◌, ◌++◌, arith, leb, ◌==◌,
  if◌then◌else◌, length, length-append, Bool-cases, if-cases,
}
use fx_ui.Gc.Dirty.{
  dirty_vectors_max, DirtyVectors, mem, grown, overflowed, appended, add_new, gc_dirty_vectors_add,
}

-- The set is known, and the vector is in it; or everything must be scanned.
abbrev pub Remembers : DirtyVectors → ℕ → Type 0
Remembers d a = (d.overflow ≡ true) ⊎ (mem d.vectors a ≡ true)

abbrev pub Distinct : List ℕ → Type 0
Distinct [] = Unit
Distinct (x ∷ xs) = (mem xs x ≡ false) × Distinct xs

abbrev pub IsSmall : DirtyVectors → Type 0
IsSmall d = Distinct d.vectors × (length d.vectors ≤ d.cap) × (d.cap ≤ dirty_vectors_max)

pub mem-append :
    (xs : List ℕ) (a b : ℕ) → mem (xs ++ a ∷ []) b ≡ (if mem xs b then true else a == b)
mem-append [] a b = ground arith
mem-append (x ∷ xs) a b = elim (Bool-cases (x == b)) [
  | inl e ↦ rw e refl
  | inr e ↦ rw e (mem-append xs a b)
]

pub Distinct-append :
    (xs : List ℕ) (a : ℕ) → Distinct xs → mem xs a ≡ false → Distinct (xs ++ a ∷ [])
Distinct-append [] a h n = (refl, tt)
Distinct-append (x ∷ xs) a h n = elim (Bool-cases (x == a)) [
  | inl e ↦ cc (rw e at n)
  | inr e ↦
      let rest = rw e at n in
      let swap : (a == x) ≡ false = ground arith in
      (rw (mem-append xs a x, h.0, swap) refl, Distinct-append xs a h.1 rest)
]

mem-append_left : (xs : List ℕ) (a b : ℕ) → mem xs b ≡ true → mem (xs ++ a ∷ []) b ≡ true
mem-append_left xs a b h = rw (mem-append xs a b, h) refl

mem-append_last : (xs : List ℕ) (a : ℕ) → mem (xs ++ a ∷ []) a ≡ true
mem-append_last xs a =
    let same : (a == a) ≡ true = ground arith in
    elim (Bool-cases (mem xs a)) [
      | inl e ↦ rw (mem-append xs a a, e) refl
      | inr e ↦ rw (mem-append xs a a, e, same) refl
    ]

-- A good outcome of adding `a`.
abbrev pub Better : DirtyVectors → ℕ → DirtyVectors → Type 0
Better d a d' = IsSmall d' × Remembers d' a × ((b : ℕ) → Remembers d b → Remembers d' b)

appended-Better :
    (d : DirtyVectors) (a cap : ℕ)
    → Distinct d.vectors
    → mem d.vectors a ≡ false
    → length d.vectors < cap
    → cap ≤ dirty_vectors_max
    → Better d a (appended (record d { cap = cap }) a)
appended-Better d a cap distinct new room most =
    let long = length-append d.vectors (a ∷ []) in
    (
      (Distinct-append d.vectors a distinct new, omega (arith, long), most),
      inr (mem-append_last d.vectors a),
      λ b known. elim known [ inl o ↦ inl o | inr m ↦ inr (mem-append_left d.vectors a b m) ],
    )

overflowed-Better : (d : DirtyVectors) (a : ℕ) → IsSmall d → Better d a (overflowed d)
overflowed-Better d a h = (h, inl refl, λ b known. inl refl)

add_new-Better :
    (grows : Bool) (d : DirtyVectors) (a : ℕ)
    → IsSmall d
    → mem d.vectors a ≡ false
    → length d.vectors < dirty_vectors_max
    → Better d a (add_new grows d a)
add_new-Better true d a h new few =
    let fits = h.1 in
    let most = h.2 in
    elim (Bool-cases (leb d.cap (length d.vectors))) [
      | inr e ↦ rw e (appended-Better d a d.cap h.0 new (ground arith) most)
      | inl e ↦ rw e (appended-Better d a (grown d.cap) h.0 new (ground arith) (ground arith))
    ]
add_new-Better false d a h new few =
    let fits = h.1 in
    let most = h.2 in
    elim (Bool-cases (leb d.cap (length d.vectors))) [
      | inr e ↦ rw e (appended-Better d a d.cap h.0 new (ground arith) most)
      | inl e ↦ rw e (overflowed-Better d a h)
    ]

-- Adding a vector keeps the set duplicate-free and within its 8192 places, and misses nothing: the
-- vector and all that was remembered are remembered, one by one or by the overflow flag; also when
-- no memory is found.
pub gc_dirty_vectors_add_lem :
    (grows : Bool) (d : DirtyVectors) (a : ℕ)
    → IsSmall d
    → Better d a (gc_dirty_vectors_add grows d a)
unfolding gc_dirty_vectors_add
gc_dirty_vectors_add_lem grows d a h =
    let P = Better d a in
    if-cases P d.overflow d _ (λ o. (h, inl o, λ b known. known))
      λ o.
        if-cases P (mem d.vectors a) d _ (λ m. (h, inr m, λ b known. known))
          λ m.
            if-cases P (leb dirty_vectors_max (length d.vectors)) (overflowed d) (add_new grows d a)
              (λ f. overflowed-Better d a h) (λ f. add_new-Better grows d a h m (ground arith))
