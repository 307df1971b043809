-- ===== src/PoolTree/Remove/Members.antt =====
-- Which positions a tree holds after one of them is replaced by the union of its subtrees.
use mathlib.Core.Bool.{false≢true}
use shmmalloc.Base.{
  ℕ, ◌≡◌, sym, ◌∙◌, Bool, true, false, not, ◌&&◌, ◌||◌, arith, ◌==◌, inl, inr, Bool-cases, ==_iff,
}
use shmmalloc.PoolTree.Shape.{Tree, node, mem, IsDistinct, mem_top, Disjoint-sym}

-- `a` is outside a tree exactly if it is not its top and outside both subtrees.
pub node_out :
    (a p : ℕ) (l r : Tree)
    → mem a (node p l r) ≡ false
    → ((a == p) ≡ false) × (mem a l ≡ false) × (mem a r ≡ false)
node_out a p l r out = ground arith

pub under_in : (a p : ℕ) (l r : Tree) → (mem a l || mem a r) ≡ true → mem a (node p l r) ≡ true
under_in a p l r i = ground arith

pub left_in : (a p : ℕ) (l r : Tree) → mem a l ≡ true → mem a (node p l r) ≡ true
left_in a p l r i = ground arith

pub right_in : (a p : ℕ) (l r : Tree) → mem a r ≡ true → mem a (node p l r) ≡ true
right_in a p l r i = ground arith

pub node_in :
    (a p : ℕ) (l r : Tree)
    → (a == p) ≡ false
    → mem a l ≡ false
    → mem a r ≡ false
    → mem a (node p l r) ≡ false
node_in a p l r e el er = rw (e, el, er)

-- Two values of a test on `a` and `x` agree if they do where the two are equal and where not.
by_eq : (a x : ℕ) (s t : ℕ → Bool) → s x ≡ t x → ((a == x) ≡ false → s a ≡ t a) → s a ≡ t a
by_eq a x s t same differ = elim (Bool-cases (a == x)) [
  | inl e ↦ let e' : a ≡ x = ground arith in rw e' same
  | inr e ↦ differ e
]

drop_other :
    (m l r e t : Bool)
    → m ≡ (l || r)
    → (e || (m || t)) ≡ ((e || ((false || (l || r)) || t)) && true)
drop_other m l r e t h = ground arith

drop_other_right :
    (m l r e t : Bool)
    → m ≡ (l || r)
    → (e || (t || m)) ≡ ((e || (t || (false || (l || r)))) && true)
drop_other_right m l r e t h = ground arith

drop_deep :
    (n s e t k : Bool)
    → n ≡ (s && k)
    → (t ≡ true → k ≡ true)
    → (e ≡ true → k ≡ true)
    → (e || (n || t)) ≡ ((e || (s || t)) && k)
drop_deep n s e t k h ht he = ground (arith, ht, he)

drop_deep_right :
    (n s e t k : Bool)
    → n ≡ (s && k)
    → (t ≡ true → k ≡ true)
    → (e ≡ true → k ≡ true)
    → (e || (t || n)) ≡ ((e || (t || s)) && k)
drop_deep_right n s e t k h ht he = ground (arith, ht, he)

module _ (q x : ℕ) (l r t m : Tree) (members : (a : ℕ) → mem a m ≡ (mem a l || mem a r)) where
  pub members_left :
      IsDistinct (node q (node x l r) t)
      → (a : ℕ) → mem a (node q m t) ≡ (mem a (node q (node x l r) t) && not (a == x))
  members_left (qx, qt, apart, (xl, xr, lr, dl, dr), dt) a =
      by_eq a x (λ a. mem a (node q m t)) (λ a. mem a (node q (node x l r) t) && not (a == x))
        (gone (node_out q x l r qx).0 xl xr (apart x (mem_top x l r)) (members x))
        (λ e. rw e (drop_other (mem a m) (mem a l) (mem a r) (a == q) (mem a t) (members a)))
    where
      gone :
          (q == x) ≡ false
          → mem x l ≡ false
          → mem x r ≡ false
          → mem x t ≡ false
          → mem x m ≡ (mem x l || mem x r)
          → mem x (node q m t) ≡ (mem x (node q (node x l r) t) && not (x == x))
      gone e el er et em = ground arith

  pub members_right :
      IsDistinct (node q t (node x l r))
      → (a : ℕ) → mem a (node q t m) ≡ (mem a (node q t (node x l r)) && not (a == x))
  members_right (qt, qx, apart, dt, (xl, xr, lr, dl, dr)) a =
      by_eq a x (λ a. mem a (node q t m)) (λ a. mem a (node q t (node x l r)) && not (a == x))
        (gone (node_out q x l r qx).0 xl xr (Disjoint-sym t (node x l r) apart x (mem_top x l r))
          (members x))
        (λ e. rw e (drop_other_right (mem a m) (mem a l) (mem a r) (a == q) (mem a t) (members a)))
    where
      gone :
          (q == x) ≡ false
          → mem x l ≡ false
          → mem x r ≡ false
          → mem x t ≡ false
          → mem x m ≡ (mem x l || mem x r)
          → mem x (node q t m) ≡ (mem x (node q t (node x l r)) && not (x == x))
      gone e el er et em = ground arith

-- The same further up, where `x` is in a subtree.
module _ (p x : ℕ) (s t n : Tree) (members : (a : ℕ) → mem a n ≡ (mem a s && not (a == x)))
    (i : mem x s ≡ true) where
  differs : (a : ℕ) (v : Tree) → mem x v ≡ false → mem a v ≡ true → not (a == x) ≡ true
  differs a v out j = elim (Bool-cases (a == x)) [
    | inl e ↦ let e' : a ≡ x = ground arith in absurd (false≢true (sym out ∙ (rw (← e') j)))
    | inr e ↦ rw e
  ]

  top_differs : (a : ℕ) → mem p s ≡ false → (a == p) ≡ true → not (a == x) ≡ true
  top_differs a out e = elim (Bool-cases (a == x)) [
    | inl e' ↦ absurd (false≢true (sym out ∙ (rw (← (==_iff a p).0 e, (==_iff a x).0 e') i)))
    | inr e' ↦ rw e'
  ]

  pub members_in_left :
      IsDistinct (node p s t) → (a : ℕ) → mem a (node p n t) ≡ (mem a (node p s t) && not (a == x))
  members_in_left (ps, pt, apart, ds, dt) a =
      drop_deep (mem a n) (mem a s) (a == p) (mem a t) (not (a == x)) (members a)
        (differs a t (apart x i)) (top_differs a ps)

  pub members_in_right :
      IsDistinct (node p t s) → (a : ℕ) → mem a (node p t n) ≡ (mem a (node p t s) && not (a == x))
  members_in_right (pt, ps, apart, dt, ds) a =
      drop_deep_right (mem a n) (mem a s) (a == p) (mem a t) (not (a == x)) (members a)
        (differs a t (Disjoint-sym t s apart x i)) (top_differs a ps)

  -- What is gone from `s` was in `s`.
  pub kept_in : (a : ℕ) → mem a n ≡ true → mem a s ≡ true
  kept_in a j = let e = members a in ground arith

  pub kept_out : (a : ℕ) → mem a s ≡ false → mem a n ≡ false
  kept_out a j = members a ∙ (rw j)
