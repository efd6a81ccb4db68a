-- ===== src/Memtree/Chains.antt =====
-- Lists of nodes linked by `next`, and the search along them, in src/fsmem.c.
use boss.Prelude.{
  ℕ, zero, suc, ◌<◌, ◌≡◌, ◌≢◌, refl, ◌∙◌, sym, false, some, List, [], ◌∷◌, ◌++◌, length, ◌==◌,
  if◌then◌else◌, ℤ, pos, negsuc, arith,
}
use boss.Text.{strcasecmp}
use boss.Memtree.{MemNode, Memfs, find_child, says_equal}

pub data Has (k : ℕ) : List ℕ → Type 0 where
  here : {x : ℕ} {xs : List ℕ} → x ≡ k → Has k (x ∷ xs)
  there : {x : ℕ} {xs : List ℕ} → Has k xs → Has k (x ∷ xs)

abbrev pub Nodup : List ℕ → Type 0
Nodup [] = Unit
Nodup (x ∷ xs) = (¬ Has x xs) × Nodup xs

-- The nodes from `p` on, up to the null pointer.
abbrev pub Chain : (ℕ → MemNode) → ℕ → List ℕ → Type 0
Chain nodes p [] = p ≡ 0
Chain nodes p (x ∷ xs) = (p ≡ x) × (x ≢ 0) × Chain nodes (nodes x).next xs

-- The last of the nodes, 0 for none.
abbrev pub last_of : List ℕ → ℕ
last_of [] = 0
last_of (x ∷ []) = x
last_of (x ∷ y ∷ ys) = last_of (y ∷ ys)

-- The first node of that name, ignoring case, 0 for none.
abbrev pub first_named : (ℕ → MemNode) → List ℕ → List ℕ → ℕ
first_named nodes name [] = 0
first_named nodes name (x ∷ xs) =
    if says_equal (strcasecmp (nodes x).name name) then x else first_named nodes name xs

pub Chain-same :
    (nodes nodes' : ℕ → MemNode) (p : ℕ) (xs : List ℕ)
    → ((k : ℕ) → Has k xs → (nodes' k).next ≡ (nodes k).next)
    → Chain nodes p xs
    → Chain nodes' p xs
Chain-same nodes nodes' p [] e c = c
Chain-same nodes nodes' p (x ∷ xs) e (a, b, c) = (
  a,
  b,
  Chain-same nodes nodes' (nodes' x).next xs (λ k h. e k (there h)) (rw (e x (here refl)) c),
)

pub Has-last : (y : ℕ) (ys : List ℕ) → Has (last_of (y ∷ ys)) (y ∷ ys)
Has-last y [] = here refl
Has-last y (z ∷ zs) = there (Has-last z zs)

-- A node is linked to the end of a list that is not empty.
pub Chain-append :
    (nodes nodes' : ℕ → MemNode) (p x n : ℕ) (xs : List ℕ)
    → Chain nodes p (x ∷ xs)
    → Nodup (x ∷ xs)
    → n ≢ 0
    → ((k : ℕ) → Has k (x ∷ xs) → k ≢ last_of (x ∷ xs) → (nodes' k).next ≡ (nodes k).next)
    → (nodes' (last_of (x ∷ xs))).next ≡ n
    → (nodes' n).next ≡ 0
    → Chain nodes' p ((x ∷ xs) ++ n ∷ [])
Chain-append nodes nodes' p x n [] (a, b, c) d n0 e l z = (a, b, (l, n0, z))
Chain-append nodes nodes' p x n (y ∷ ys) (a, b, c) (fresh, d) n0 e l z =
    let next = e x (here refl) (λ q. fresh (rw q (Has-last y ys))) in
    (
      a,
      b,
      Chain-append nodes nodes' (nodes' x).next y n ys (rw next c) d n0 (λ k h. e k (there h)) l z,
    )

found_or_next :
    (fuel : ℕ) (s : Memfs) (x : ℕ) (name xs : List ℕ)
    → (x == 0) ≡ false
    → find_child fuel s (s.nodes x).next name ≡ some (first_named s.nodes name xs)
    → (z : ℤ) → strcasecmp (s.nodes x).name name ≡ z
    → find_child (suc fuel) s x name
      ≡ some (if says_equal z then x else first_named s.nodes name xs)
unfolding find_child
found_or_next fuel s x name xs e rest (pos zero) h = rw (e, find_child, h, find_child) refl
found_or_next fuel s x name xs e rest (pos (suc k)) h = rw (e, find_child, h, find_child) rest
found_or_next fuel s x name xs e rest (negsuc k) h = rw (e, find_child, h, find_child) rest

-- The loop of `find_entry` finds the first child of that name.
pub find_child-first :
    (fuel : ℕ) (s : Memfs) (p : ℕ) (name xs : List ℕ)
    → Chain s.nodes p xs
    → length xs < fuel
    → find_child fuel s p name ≡ some (first_named s.nodes name xs)
unfolding find_child
find_child-first zero s p name xs c h = absurd (omega arith)
find_child-first (suc fuel) s p name [] c h = rw (c, find_child)
find_child-first (suc fuel) s p name (x ∷ xs) (a, b, c) h =
    let some_node : (x == 0) ≡ false = ground (arith, b) in
    let rest = find_child-first fuel s (s.nodes x).next name xs c (omega arith) in
    rw a (found_or_next fuel s x name xs some_node rest (strcasecmp (s.nodes x).name name) refl)

pub Chain-full :
    (nodes : ℕ → MemNode) (p x : ℕ) (xs ys : List ℕ) → ys ≡ x ∷ xs → Chain nodes p ys → p ≢ 0
Chain-full nodes p x xs [] e c z = absurd cc
Chain-full nodes p x xs (y ∷ ys) e (a, b, c) z = b (sym a ∙ z)
