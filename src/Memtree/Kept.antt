-- ===== src/Memtree/Kept.antt =====
-- What names stand for after `open` of src/fsmem.c has created a node.
use boss.Prelude.{
  ℕ, ◌≡◌, ◌≢◌, refl, ◌∙◌, sym, ap, Bool, true, false, inl, inr, Bool-cases, List, [], ◌∷◌, ◌++◌,
  ◌==◌, arith, pos,
}
use boss.Text.{strcmp, strcasecmp}
use boss.Text.Compare.{IsText, strcmp-zero_iff}
use boss.Memtree.{MemNode, Memfs, says_equal}
use boss.Memtree.Chains.{Has, first_named}
use boss.Memtree.Tree.{IsTree, lookup, Leads, stay, step, lookup_live}
use boss.Memtree.Fresh.{created, name_other, is_dir_other, parent_old, name_new}
use boss.Memtree.Create.{kids_with, kids_d, kids_other, apart}

-- Names that stay the same are found at the same place.
first_named_same :
    (nodes nodes' : ℕ → MemNode) (name xs : List ℕ)
    → ((k : ℕ) → Has k xs → (nodes' k).name ≡ (nodes k).name)
    → first_named nodes' name xs ≡ first_named nodes name xs
first_named_same nodes nodes' name [] e = refl
first_named_same nodes nodes' name (x ∷ xs) e =
    rw (e x (Has.here refl), first_named_same nodes nodes' name xs (λ k h. e k (Has.there h))) refl

-- With one more node at the end, the first of that name is as before if there was one, and otherwise
-- the last node if it has the name.
first_named-old :
    (nodes : ℕ → MemNode) (name xs : List ℕ) (n : ℕ)
    → first_named nodes name xs ≢ 0
    → first_named nodes name (xs ++ n ∷ []) ≡ first_named nodes name xs
first_named-old nodes name [] n h = absurd (h refl)
first_named-old nodes name (x ∷ xs) n h =
    elim (Bool-cases (says_equal (strcasecmp (nodes x).name name))) [
      | inl e ↦ rw e refl
      | inr e ↦ rw e (first_named-old nodes name xs n (λ z. h (rw e z)))
    ]

first_named-new :
    (nodes : ℕ → MemNode) (name xs : List ℕ) (n : ℕ)
    → ((k : ℕ) → Has k xs → k ≢ 0)
    → first_named nodes name xs ≡ 0
    → strcasecmp (nodes n).name name ≡ pos 0
    → first_named nodes name (xs ++ n ∷ []) ≡ n
first_named-new nodes name [] n ne h e = rw e refl
first_named-new nodes name (x ∷ xs) n ne h e =
    elim (Bool-cases (says_equal (strcasecmp (nodes x).name name))) [
      | inl q ↦ absurd (ne x (Has.here refl) (rw q at h))
      | inr q ↦ rw q (first_named-new nodes name xs n (λ k i. ne k (Has.there i)) (rw q at h) e)
    ]

pub Leads-snoc :
    (kids : ℕ → List ℕ) (s : Memfs) (x d t : ℕ) (names : List (List ℕ)) (word : List ℕ)
    → Leads kids s x names d
    → (s.nodes d).is_dir ≡ true
    → lookup kids s d word ≡ t
    → t ≢ 0
    → Leads kids s x (names ++ word ∷ []) t
Leads-snoc kids s x d t [] word stay dd e ne = step dd (λ z. ne (sym e ∙ z)) (rw e stay)
Leads-snoc kids s x d t (name ∷ names) word (step a b more) dd e ne =
    step a b (Leads-snoc kids s (lookup kids s x name) d t names word more dd e ne)

pub Leads-live :
    (live : ℕ → Bool) (kids : ℕ → List ℕ) (s : Memfs) (x d : ℕ) (names : List (List ℕ))
    → IsTree live kids s
    → live x ≡ true
    → Leads kids s x names d
    → live d ≡ true
Leads-live live kids s x d [] ok l stay = l
Leads-live live kids s x d (name ∷ names) ok l (step a b more) =
    Leads-live live kids s (lookup kids s x name) d names ok (lookup_live live kids s x name ok l b)
      more

module _ (live : ℕ → Bool) (kids : ℕ → List ℕ) (s : Memfs) (ok : IsTree live kids s) (d n h : ℕ)
    (dir : Bool) (name : List ℕ) (dl : live d ≡ true) (dd : (s.nodes d).is_dir ≡ true) (n0 : n ≢ 0)
    (nl : live n ≡ false) where
  abbrev s' : Memfs
  s' = created d n h dir name s

  abbrev kids' : ℕ → List ℕ
  kids' = kids_with d n kids

  old : (k : ℕ) → live k ≡ true → k ≢ n
  old k l = apart live kids s ok d n h dir name dl dd n0 nl k l

  new : n ≢ d
  new e = old d dl (sym e)

  now_d : kids' d ≡ kids d ++ n ∷ []
  now_d = kids_d live kids s ok d n h dir name dl dd n0 nl

  first_kept :
      (x : ℕ) (word : List ℕ)
      → live x ≡ true
      → first_named s.nodes word (kids x) ≢ 0
      → first_named s'.nodes word (kids' x) ≡ first_named s.nodes word (kids x)
  first_kept x word l ne =
      let names =
        first_named_same s.nodes s'.nodes word (kids x)
          (λ k i. name_other d n h dir name s k (old k (ok.kid_live x k i))) in
      elim (Bool-cases (x == d)) [
        | inl e ↦
            let at : x ≡ d = ground arith in
            ap (first_named s'.nodes word)
              (ap kids' at ∙ now_d ∙ ap (λ y. kids y ++ n ∷ []) (sym at))
            ∙ first_named-old s'.nodes word (kids x) n (λ z. ne (sym names ∙ z))
            ∙ names
        | inr e ↦
            ap (first_named s'.nodes word)
              (kids_other live kids s ok d n h dir name dl dd n0 nl x (old x l) (ground arith))
            ∙ names
      ]

  lookup_kept :
      (x : ℕ) (word : List ℕ)
      → live x ≡ true
      → lookup kids s x word ≢ 0
      → lookup kids' s' x word ≡ lookup kids s x word
  lookup_kept x word l ne = elim (Bool-cases (says_equal (strcmp word (b'.' ∷ [])))) [
    | inl e ↦ rw e refl
    | inr e ↦ elim (Bool-cases (says_equal (strcmp word (b'.' ∷ b'.' ∷ [])))) [
      | inl e' ↦ rw (e, e') (parent_old d n h dir name s new x (old x l))
      | inr e' ↦ rw (e, e') (first_kept x word l (λ z. ne (rw (e, e') z)))
    ]
  ]

  pub Leads-kept :
      (x t : ℕ) (names : List (List ℕ))
      → live x ≡ true
      → Leads kids s x names t
      → Leads kids' s' x names t
  Leads-kept x t [] l stay = stay
  Leads-kept x t (word ∷ names) l (step a b more) =
      let kept = lookup_kept x word l b in
      step (is_dir_other d n h dir name s x (old x l) ∙ a) (λ z. b (sym kept ∙ z))
        (rw kept
          (Leads-kept (lookup kids s x word) t names (lookup_live live kids s x word ok l b) more))

  pub lookup_new :
      says_equal (strcmp name (b'.' ∷ b'.' ∷ [])) ≡ false
      → IsText name
      → lookup kids s d name ≡ 0
      → lookup kids' s' d name ≡ n
  lookup_new up text z = elim (Bool-cases (says_equal (strcmp name (b'.' ∷ [])))) [
    | inl e ↦
        let d0 : d ≡ 0 = rw e at z in
        absurd (let c : live 0 ≡ true = rw (sym d0) dl in let c' = ok.not_null in cc)
    | inr e ↦
        let none_s : first_named s.nodes name (kids d) ≡ 0 = rw (e, up) at z in
        let names =
          first_named_same s.nodes s'.nodes name (kids d)
            (λ k i. name_other d n h dir name s k (old k (ok.kid_live d k i))) in
        let itself =
          ap (λ w. strcasecmp w name) (name_new d n h dir name s)
          ∙ (strcmp-zero_iff name name text text).1.1 refl in
        rw (e, up)
          (ap (first_named s'.nodes name) now_d
            ∙ first_named-new s'.nodes name (kids d) n
                (λ k i k0.
                  let c = ok.kid_live d k i in
                  let c' = ok.not_null in let c'' : live 0 ≡ true = rw (sym k0) c in cc)
                (names ∙ none_s) itself)
  ]
