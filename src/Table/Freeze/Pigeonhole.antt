-- ===== src/Table/Freeze/Pigeonhole.antt =====
-- `n` distinct numbers below `n` are all the numbers below `n`.
use fx_ui.Base.{
  ℕ, zero, suc, ◌≤◌, ◌<◌, ◌≡◌, ◌≢◌, ◌⊎◌, inl, inr, refl, ap, false, List, [], ◌∷◌, arith, length,
  All, ◌==◌, ==_iff, if◌then◌else◌, Bool-cases, if-cases,
}
use native.Mathlib.Decide.{ℕ_discrete}
use fx_ui.Table.Freeze.Buckets.{In}

abbrev pub AllApart : List ℕ → Type 0
AllApart [] = Unit
AllApart (x ∷ xs) = (¬ In x xs) × AllApart xs

In_dec : (a : ℕ) (xs : List ℕ) → In a xs ⊎ (¬ In a xs)
In_dec a [] = inr (λ h. h)
In_dec a (x ∷ xs) = elim (ℕ_discrete a x) [
  | yes p ↦ inl (inl p)
  | no p ↦ elim (In_dec a xs) [
    | inl q ↦ inl (inr q)
    | inr q ↦ inr (λ h. elim h [ inl r ↦ p r | inr r ↦ q r ])
  ]
]

without : ℕ → List ℕ → List ℕ
without a [] = []
without a (x ∷ xs) = if a == x then without a xs else x ∷ without a xs

apart : (a x : ℕ) → (a == x) ≡ false → a ≢ x
apart a x e p = cc ((==_iff a x).1 p)

in_tail : (b x : ℕ) (ys xs : List ℕ) → (In b ys → In b xs) → In b (x ∷ ys) → In b (x ∷ xs)
in_tail b x ys xs f (inl p) = inl p
in_tail b x ys xs f (inr q) = inr (f q)

without-In : (a b : ℕ) (xs : List ℕ) → In b (without a xs) → In b xs
unfolding without
without-In a b [] h = h
without-In a b (x ∷ xs) h = elim (Bool-cases (a == x)) [
  | inl e ↦ inr (without-In a b xs (rw e at h))
  | inr e ↦ in_tail b x (without a xs) xs (without-In a b xs) (rw e at h)
]

without-AllApart : (a : ℕ) (xs : List ℕ) → AllApart xs → AllApart (without a xs)
unfolding without
without-AllApart a [] h = tt
without-AllApart a (x ∷ xs) h =
    if-cases AllApart (a == x) (without a xs) (x ∷ without a xs) (λ _. without-AllApart a xs h.1)
      (λ _. (λ q. h.0 (without-In a x xs q), without-AllApart a xs h.1))

-- Below `suc n` and not `n`.
without-low : (n : ℕ) (xs : List ℕ) → All (λ x. x < suc n) xs → All (λ x. x < n) (without n xs)
unfolding without
without-low n [] h = tt
without-low n (x ∷ xs) h =
    if-cases (All (λ y. y < n)) (n == x) (without n xs) (x ∷ without n xs)
      (λ _. without-low n xs h.1)
      (λ e. let ne = apart n x e in let low = h.0 in (ground arith, without-low n xs h.1))

without_absent : (a : ℕ) (xs : List ℕ) → ¬ In a xs → length (without a xs) ≡ length xs
unfolding without
without_absent a [] h = refl
without_absent a (x ∷ xs) h =
    if-cases (λ ys. length ys ≡ suc (length xs)) (a == x) (without a xs) (x ∷ without a xs)
      (λ e. absurd (h (inl ((==_iff a x).0 e))))
      (λ _. ap suc (without_absent a xs (λ q. h (inr q))))

length-without : (a : ℕ) (xs : List ℕ) → AllApart xs → length xs ≤ suc (length (without a xs))
unfolding without
length-without a [] h = omega arith
length-without a (x ∷ xs) h =
    if-cases (λ ys. suc (length xs) ≤ suc (length ys)) (a == x) (without a xs) (x ∷ without a xs)
      (λ e. let gone = without_absent a xs (λ q. h.0 (rw (← (==_iff a x).0 e) q)) in omega arith)
      (λ _. let rest = length-without a xs h.1 in omega arith)

length-le : (n : ℕ) (xs : List ℕ) → AllApart xs → All (λ x. x < n) xs → length xs ≤ n
length-le zero [] a h = omega arith
length-le zero (x ∷ xs) a h = absurd (omega (arith, h.0))
length-le (suc n) xs a h = omega (
  arith,
  length-without n xs a,
  length-le n (without n xs) (without-AllApart n xs a) (without-low n xs h),
)

pub covers :
    (n : ℕ) (xs : List ℕ)
    → AllApart xs
    → All (λ x. x < n) xs
    → length xs ≡ n
    → (i : ℕ) → i < n
    → In i xs
covers n xs a h e i low = elim (In_dec i xs) [
  | inl p ↦ p
  | inr p ↦ absurd (omega (arith, length-le n (i ∷ xs) (p, a) (low, h), e))
]
