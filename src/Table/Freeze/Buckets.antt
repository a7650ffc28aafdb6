-- ===== src/Table/Freeze/Buckets.antt =====
-- reference/shen-gc/zincvm.c: the buckets of `defun_freeze` and the order in which they are filled.
use fx_ui.Base.{
  ℕ, zero, suc, ◌%◌, ◌<◌, ◌≡◌, ◌⊎◌, inl, inr, refl, true, List, [], ◌∷◌, arith, ltb, ==_iff, All,
  Bool-cases, if-cases,
}
use native.Mathlib.Decide.{ℕ_discrete}
use fx_ui.Base.Bytes.{Bytes, byte_eq, byte_eq→eq}
use fx_ui.Table.Hash.{hash_name_h0}
use fx_ui.Table.DefunTable.{boot_find}
use fx_ui.Table.Freeze.{Key, in_bucket, bucket, sift, sort_buckets, reverse_onto, order_buckets}

abbrev pub In : ℕ → List ℕ → Type 0
In a [] = ⊥
In a (x ∷ xs) = (a ≡ x) ⊎ In a xs

-- The key is found in its bucket as in the whole list.
pub boot_find-bucket :
    (buckets b : ℕ) (m : Bytes) (ks : List Key)
    → hash_name_h0 m % buckets ≡ b
    → boot_find m (bucket buckets b ks) ≡ boot_find m ks
unfolding boot_find bucket
boot_find-bucket buckets b m [] h = refl
boot_find-bucket buckets b m ((k, v) ∷ ks) h = elim (Bool-cases (byte_eq k m)) [
  | inl e ↦
      let same : in_bucket buckets b k ≡ true =
        rw (byte_eq→eq k m e) ((==_iff (hash_name_h0 m % buckets) b).1 h) in
      rw (same, e)
  | inr e ↦ elim (Bool-cases (in_bucket buckets b k)) [
    | inl f ↦ rw (f, e) (boot_find-bucket buckets b m ks h)
    | inr f ↦ rw (f, e) (boot_find-bucket buckets b m ks h)
  ]
]

pub bucket-All :
    (P : Key → Type 0) (buckets b : ℕ) (ks : List Key) → All P ks → All P (bucket buckets b ks)
unfolding bucket
bucket-All P buckets b [] h = tt
bucket-All P buckets b ((k, v) ∷ ks) h = elim (Bool-cases (in_bucket buckets b k)) [
  | inl e ↦ rw e (h.0, bucket-All P buckets b ks h.1)
  | inr e ↦ rw e (bucket-All P buckets b ks h.1)
]

sift-In : (f : ℕ → ℕ) (a t : ℕ) (os : List ℕ) → (a ≡ t) ⊎ In a os → In a (sift f t os)
unfolding sift
sift-In f a t [] h = h
sift-In f a t (o ∷ os) h = elim (Bool-cases (ltb (f o) (f t))) [
  | inr e ↦ rw e h
  | inl e ↦ rw e (elim h [
    | inl p ↦ inr (sift-In f a t os (inl p))
    | inr q ↦ elim q [ inl r ↦ inl r | inr r ↦ inr (sift-In f a t os (inr r)) ]
  ])
]

sort_buckets-In : (f : ℕ → ℕ) (n a : ℕ) → a < n → In a (sort_buckets f n)
unfolding sort_buckets
sort_buckets-In f zero a h = absurd (omega arith)
sort_buckets-In f (suc n) a h = elim (ℕ_discrete a n) [
  | yes p ↦ sift-In f a n (sort_buckets f n) (inl p)
  | no p ↦ sift-In f a n (sort_buckets f n) (inr (sort_buckets-In f n a (ground arith)))
]

reverse_onto-In : (a : ℕ) (xs out : List ℕ) → (In a xs) ⊎ (In a out) → In a (reverse_onto xs out)
unfolding reverse_onto
reverse_onto-In a [] out (inl h) = elim h [ ]
reverse_onto-In a [] out (inr h) = h
reverse_onto-In a (x ∷ xs) out (inl (inl h)) = reverse_onto-In a xs (x ∷ out) (inr (inl h))
reverse_onto-In a (x ∷ xs) out (inl (inr h)) = reverse_onto-In a xs (x ∷ out) (inl h)
reverse_onto-In a (x ∷ xs) out (inr h) = reverse_onto-In a xs (x ∷ out) (inr (inr h))

-- Every bucket is filled.
pub order_buckets-In : (f : ℕ → ℕ) (n a : ℕ) → a < n → In a (order_buckets f n)
unfolding order_buckets
order_buckets-In f n a h = reverse_onto-In a (sort_buckets f n) [] (inl (sort_buckets-In f n a h))

sift-All : (P : ℕ → Type 0) (f : ℕ → ℕ) (t : ℕ) (os : List ℕ) → P t → All P os → All P (sift f t os)
unfolding sift
sift-All P f t [] p h = (p, tt)
sift-All P f t (o ∷ os) p h =
    if-cases (All P) (ltb (f o) (f t)) _ _ (λ _. (h.0, sift-All P f t os p h.1)) (λ _. (p, h))

sort_buckets-All :
    (P : ℕ → Type 0) (f : ℕ → ℕ) (n : ℕ) → ((a : ℕ) → a < n → P a) → All P (sort_buckets f n)
unfolding sort_buckets
sort_buckets-All P f zero h = tt
sort_buckets-All P f (suc n) h =
    sift-All P f n (sort_buckets f n) (h n (omega arith))
      (sort_buckets-All P f n (λ a l. h a (omega arith)))

reverse_onto-All :
    (P : ℕ → Type 0) (xs out : List ℕ) → All P xs → All P out → All P (reverse_onto xs out)
unfolding reverse_onto
reverse_onto-All P [] out h g = g
reverse_onto-All P (x ∷ xs) out h g = reverse_onto-All P xs (x ∷ out) h.1 (h.0, g)

pub order_buckets-low : (f : ℕ → ℕ) (n : ℕ) → All (λ b. b < n) (order_buckets f n)
unfolding order_buckets
order_buckets-low f n =
    reverse_onto-All (λ b. b < n) (sort_buckets f n) []
      (sort_buckets-All (λ b. b < n) f n (λ a h. h)) tt
