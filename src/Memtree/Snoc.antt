-- ===== src/Memtree/Snoc.antt =====
-- Lists of children with one more at the end, for `add_child` of src/fsmem.c.
use boss.Prelude.{ℕ, ◌≡◌, refl, sym, inl, inr, ◌⊎◌, List, [], ◌∷◌, ◌++◌}
use boss.Memtree.Chains.{Has, here, there, Nodup, last_of}

pub Has-same : (k : ℕ) (xs ys : List ℕ) → xs ≡ ys → Has k xs → Has k ys
Has-same k xs ys e i = rw (sym e) i

pub Has-new : (n : ℕ) (xs : List ℕ) → Has n (xs ++ n ∷ [])
Has-new n [] = here refl
Has-new n (x ∷ xs) = there (Has-new n xs)

pub Has-old : (k n : ℕ) (xs : List ℕ) → Has k xs → Has k (xs ++ n ∷ [])
Has-old k n [] i = elim i [ ]
Has-old k n (x ∷ xs) (here e) = here e
Has-old k n (x ∷ xs) (there i) = there (Has-old k n xs i)

pub Has-snoc : (k n : ℕ) (xs : List ℕ) → Has k (xs ++ n ∷ []) → Has k xs ⊎ (k ≡ n)
Has-snoc k n [] (here e) = inr (sym e)
Has-snoc k n [] (there h) = elim h [ ]
Has-snoc k n (x ∷ xs) (here e) = inl (here e)
Has-snoc k n (x ∷ xs) (there h) = elim (Has-snoc k n xs h) [ inl i ↦ inl (there i) | inr e ↦ inr e ]

pub Nodup-snoc : (n : ℕ) (xs : List ℕ) → Nodup xs → ¬ Has n xs → Nodup (xs ++ n ∷ [])
Nodup-snoc n [] d h = ((λ i. elim i [ ]), tt)
Nodup-snoc n (x ∷ xs) (a, d) h = (
  λ i. elim (Has-snoc x n xs i) [ inl j ↦ a j | inr e ↦ h (here e) ],
  Nodup-snoc n xs d (λ i. h (there i)),
)

pub last-snoc : (n : ℕ) (xs : List ℕ) → last_of (xs ++ n ∷ []) ≡ n
last-snoc n [] = refl
last-snoc n (x ∷ []) = refl
last-snoc n (x ∷ y ∷ ys) = last-snoc n (y ∷ ys)
