-- ===== src/Memtree/Without.antt =====
-- Lists of children without one of them, for `remove` of src/fsmem.c.
use boss.Prelude.{
  ℕ, ◌≡◌, ◌≢◌, refl, ◌∙◌, sym, ap, false, inl, inr, Bool-cases, List, [], ◌∷◌, ◌==◌, if◌then◌else◌,
  arith,
}
use boss.Memtree.{MemNode}
use boss.Memtree.Chains.{Has, here, there, Nodup, Chain, last_of, Chain-same, Has-last}

-- The list without the first `n`, and the node before that one, `p` if there is none.
abbrev pub without : ℕ → List ℕ → List ℕ
without n [] = []
without n (x ∷ xs) = if x == n then xs else x ∷ without n xs

abbrev pub before : ℕ → ℕ → List ℕ → ℕ
before n p [] = p
before n p (x ∷ xs) = if x == n then p else before n x xs

Has-cons : (k x : ℕ) (ys xs : List ℕ) → (Has k ys → Has k xs) → Has k (x ∷ ys) → Has k (x ∷ xs)
Has-cons k x ys xs f (here e) = here e
Has-cons k x ys xs f (there i) = there (f i)

not_cons : (n x : ℕ) (ys : List ℕ) → x ≢ n → ¬ Has n ys → ¬ Has n (x ∷ ys)
not_cons n x ys ne a (here e) = ne e
not_cons n x ys ne a (there i) = a i

pub Has-eq : (k x : ℕ) (xs : List ℕ) → k ≡ x → Has k xs → Has x xs
Has-eq k x xs e i = rw (sym e) i

pub Has-tail : (n x : ℕ) (xs : List ℕ) → x ≢ n → Has n (x ∷ xs) → Has n xs
Has-tail n x xs ne (here e) = absurd (ne e)
Has-tail n x xs ne (there i) = i

pub Has-without : (k n : ℕ) (xs : List ℕ) → Has k (without n xs) → Has k xs
Has-without k n [] i = i
Has-without k n (x ∷ xs) i = elim (Bool-cases (x == n)) [
  | inl e ↦ there (rw e at i)
  | inr e ↦ Has-cons k x (without n xs) xs (Has-without k n xs) (rw e at i)
]

pub without-Has : (k n : ℕ) (xs : List ℕ) → k ≢ n → Has k xs → Has k (without n xs)
without-Has k n [] ne i = i
without-Has k n (x ∷ xs) ne (here e) =
    let far : (x == n) ≡ false = ground (arith, e, ne) in rw far (here e)
without-Has k n (x ∷ xs) ne (there i) = elim (Bool-cases (x == n)) [
  | inl e ↦ rw e i
  | inr e ↦ rw e (there (without-Has k n xs ne i))
]

pub Nodup-without : (n : ℕ) (xs : List ℕ) → Nodup xs → Nodup (without n xs)
Nodup-without n [] d = tt
Nodup-without n (x ∷ xs) (a, d) = elim (Bool-cases (x == n)) [
  | inl e ↦ rw e d
  | inr e ↦ rw e (λ i. a (Has-without x n xs i), Nodup-without n xs d)
]

pub not_without : (n : ℕ) (xs : List ℕ) → Nodup xs → ¬ Has n (without n xs)
not_without n [] d i = elim i [ ]
not_without n (x ∷ xs) (a, d) i = elim (Bool-cases (x == n)) [
  | inl e ↦ let at : x ≡ n = ground arith in a (rw at (rw e at i))
  | inr e ↦ not_cons n x (without n xs) (ground arith) (not_without n xs d) (rw e at i)
]

-- The node before one in a list is the head or one further on.
pub Has-before : (n p : ℕ) (xs : List ℕ) → Has (before n p xs) (p ∷ xs)
Has-before n p [] = here refl
Has-before n p (x ∷ xs) = elim (Bool-cases (x == n)) [
  | inl e ↦ rw e (here refl)
  | inr e ↦ rw e (there (Has-before n x xs))
]

-- Linking past a node takes it out of the chain.
pub Chain-without :
    (nodes nodes' : ℕ → MemNode) (n p x : ℕ) (xs : List ℕ)
    → Chain nodes p (x ∷ xs)
    → Nodup (x ∷ xs)
    → x ≢ n
    → Has n xs
    → ((k : ℕ) → k ≢ before n x xs → (nodes' k).next ≡ (nodes k).next)
    → (nodes' (before n x xs)).next ≡ (nodes n).next
    → Chain nodes' p (without n (x ∷ xs))
Chain-without nodes nodes' n p x [] c d ne i e q = elim i [ ]
Chain-without nodes nodes' n p x (y ∷ ys) (a, b, (a', b', c)) (fresh, d) ne i e q =
    let far : (x == n) ≡ false = ground (arith, ne) in
    elim (Bool-cases (y == n)) [
      | inl at ↦
          let same : y ≡ n = ground arith in
          let past : (nodes' x).next ≡ (nodes y).next =
            rw at at q ∙ ap (λ j. (nodes j).next) (sym same) in
          let rest =
            Chain-same nodes nodes' (nodes y).next ys
              (λ k j. e k (λ t. fresh (there (Has-eq k x ys (rw at at t) j)))) c in
          rw (far, at, past) (a, b, rest)
      | inr other ↦
          let on = Has-tail n y ys (ground arith) i in
          let after : before n x (y ∷ ys) ≡ before n y ys = rw other refl in
          let past : (nodes' (before n y ys)).next ≡ (nodes n).next =
            ap (λ j. (nodes' j).next) (sym after) ∙ q in
          let kept : (nodes' x).next ≡ (nodes x).next =
            e x (λ t. fresh (Has-eq _ x (y ∷ ys) (sym (t ∙ after)) (Has-before n y ys))) in
          let rest =
            Chain-without nodes nodes' n (nodes x).next y ys (a', b', c) d (ground arith) on
              (λ k t. e k (λ u. t (u ∙ after))) past in
          rw (far, kept) (a, b, rest)
    ]

alone :
    (n x y : ℕ) (ys : List ℕ) → y ≡ n → Nodup (y ∷ ys) → last_of (y ∷ ys) ≡ n → last_of (x ∷ ys) ≡ x
alone n x y [] e d l = refl
alone n x y (z ∷ zs) e (a, d) l = absurd (a (Has-eq _ y (z ∷ zs) (l ∙ sym e) (Has-last z zs)))

not_alone :
    (n x y : ℕ) (ys : List ℕ) → y ≡ n → last_of (y ∷ ys) ≢ n → last_of (x ∷ ys) ≡ last_of (y ∷ ys)
not_alone n x y [] e l = absurd (l e)
not_alone n x y (z ∷ zs) e l = refl

-- The last node of what is left.
pub last-without-before :
    (n x : ℕ) (xs : List ℕ)
    → Nodup (x ∷ xs)
    → x ≢ n
    → last_of (x ∷ xs) ≡ n
    → last_of (without n (x ∷ xs)) ≡ before n x xs
last-without-before n x [] d ne e = absurd (ne e)
last-without-before n x (y ∷ ys) (a, d) ne e =
    let far : (x == n) ≡ false = ground (arith, ne) in
    elim (Bool-cases (y == n)) [
      | inl at ↦ rw (far, at) (alone n x y ys (ground arith) d e)
      | inr other ↦
          let rest : last_of (y ∷ without n ys) ≡ before n y ys =
            rw other at (last-without-before n y ys d (ground arith) e) in
          rw (far, other) rest
    ]

pub last-without :
    (n x : ℕ) (xs : List ℕ)
    → x ≢ n
    → last_of (x ∷ xs) ≢ n
    → last_of (without n (x ∷ xs)) ≡ last_of (x ∷ xs)
last-without n x [] ne e = let far : (x == n) ≡ false = ground (arith, ne) in rw far refl
last-without n x (y ∷ ys) ne e =
    let far : (x == n) ≡ false = ground (arith, ne) in
    elim (Bool-cases (y == n)) [
      | inl at ↦ rw (far, at) (not_alone n x y ys (ground arith) e)
      | inr other ↦
          let rest : last_of (y ∷ without n ys) ≡ last_of (y ∷ ys) =
            rw other at (last-without n y ys (ground arith) e) in
          rw (far, other) rest
    ]
