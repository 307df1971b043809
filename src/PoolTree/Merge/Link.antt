-- ===== src/PoolTree/Merge/Link.antt =====
-- The end of shm_tree_merge: `a` takes the merged tree `m` as a child beside its left child `l`.
use mathlib.Core.Bool.{false≢true}
use shmmalloc.Base.{
  ℕ, suc, ◌+◌, ◌≡◌, ◌≢◌, refl, ◌∙◌, ap, true, false, ◌||◌, arith, ltb, ◌==◌, if◌then◌else◌, inl,
  inr, Bool-cases,
}
use shmmalloc.Position.{shm_null}
use shmmalloc.PoolTree.{TreeNode, Heap, shm_tree_link}
use shmmalloc.PoolTree.Shape.{
  Tree, leaf, node, top, count, mem, Below, IsHeap, Disjoint-sym, HasRoot, IsTree, Disjoint,
  IsDistinct, HasRoot-same, IsTree-same,
}

module _ (h : Heap) (a r : ℕ) (ne : a ≢ r) where
  pub link-other : (q : ℕ) → q ≢ a → q ≢ r → shm_tree_link h a r q ≡ h q
  unfolding shm_tree_link
  link-other q qa qr = ground arith

  pub link-child : shm_tree_link h a r r ≡ record (h r) { root = a }
  unfolding shm_tree_link
  link-child = ground arith

  pub link-root : (shm_tree_link h a r a).root ≡ (h a).root
  unfolding shm_tree_link
  link-root = ground arith

  pub link-left : (shm_tree_link h a r a).left ≡ (
      if (h a).left == shm_null
      then r
      else if ltb (h (h a).left).rank (h r).rank
      then r
      else (h a).left)
  unfolding shm_tree_link
  link-left = ground arith

  pub link-right : (shm_tree_link h a r a).right ≡ (
      if (h a).left == shm_null
      then shm_null
      else if ltb (h (h a).left).rank (h r).rank
      then (h a).left
      else r)
  unfolding shm_tree_link
  link-right = ground arith

-- The tree that results: a left child of smaller rank than `m` goes to the right.
abbrev pub linked : Heap → ℕ → Tree → Tree → Tree
linked h a leaf m = node a m leaf
linked h a (node p x y) m =
    if ltb (h p).rank (h (top m)).rank then node a m (node p x y) else node a (node p x y) m

-- What shm_tree_merge has in hand when it comes to the link.
pub record Parts (h : Heap) (a : ℕ) (l m : Tree) : Type 0 where
  pub a_ne : a ≢ shm_null
  pub left : (h a).left ≡ top l
  pub root_l : HasRoot h a l
  pub tree_l : IsTree h l
  pub tree_m : IsTree h m
  pub a_out_l : mem a l ≡ false
  pub a_out_m : mem a m ≡ false
  pub apart : Disjoint l m
  pub distinct_m : IsDistinct m

module _ (h : Heap) (a r : ℕ) (l x y : Tree) (p : Parts h a l (node r x y)) where
  link_ne : a ≢ r
  link_ne = ground (arith, p.a_out_m)

  -- The positions of `l` keep their nodes.
  link-l : (q : ℕ) → mem q l ≡ true → shm_tree_link h a r q ≡ h q
  link-l q m = link-other h a r link_ne q (ground (arith, p.a_out_l)) (ground (arith, p.apart q))

  -- So do those under `r`.
  link-x : (q : ℕ) → mem q x ≡ true → shm_tree_link h a r q ≡ h q
  link-x q m =
      link-other h a r link_ne q (ground (arith, p.a_out_m)) (ground (arith, p.distinct_m.0))

  link-y : (q : ℕ) → mem q y ≡ true → shm_tree_link h a r q ≡ h q
  link-y q m =
      link-other h a r link_ne q (ground (arith, p.a_out_m)) (ground (arith, p.distinct_m.1))

  link-IsTree-l : IsTree (shm_tree_link h a r) l × HasRoot (shm_tree_link h a r) a l
  link-IsTree-l = (IsTree-same l link-l p.tree_l, HasRoot-same a l link-l p.root_l)

  link-IsTree-m : IsTree (shm_tree_link h a r) (node r x y) × ((shm_tree_link h a r r).root ≡ a)
  link-IsTree-m =
      let (ne, el, er, hl, hr, il, ir) = p.tree_m in
      let at : shm_tree_link h a r r ≡ record (h r) { root = a } = link-child h a r link_ne in
      (
        (
          ne,
          ap (λ (n : TreeNode). n.left) at ∙ el,
          ap (λ (n : TreeNode). n.right) at ∙ er,
          HasRoot-same r x link-x hl,
          HasRoot-same r y link-y hr,
          IsTree-same x link-x il,
          IsTree-same y link-y ir,
        ),
        ap (λ (n : TreeNode). n.root) at,
      )

-- The link makes one tree of `a`, `l` and `m`.
pub link-IsTree :
    (h : Heap) (a r : ℕ) (l x y : Tree)
    → Parts h a l (node r x y)
    → IsTree (shm_tree_link h a r) (linked h a l (node r x y))
link-IsTree h a r leaf x y p =
    let (im, rm) = link-IsTree-m h a r leaf x y p in
    let ne = link_ne h a r leaf x y p in
    (p.a_ne, link-left h a r ne ∙ (rw p.left), link-right h a r ne ∙ (rw p.left), rm, tt, im, tt)
link-IsTree h a r (node q u v) x y p =
    let l = node q u v in
    let (im, rm) = link-IsTree-m h a r l x y p in
    let (il, rl) = link-IsTree-l h a r l x y p in
    let ne = link_ne h a r l x y p in
    let q_ne : (q == shm_null) ≡ false = ground (arith, p.tree_l.0) in
    elim (Bool-cases (ltb (h q).rank (h r).rank)) [
      | inl lower ↦ rw lower (
        p.a_ne,
        link-left h a r ne ∙ (rw (p.left, q_ne, lower)),
        link-right h a r ne ∙ (rw (p.left, q_ne, lower)),
        rm,
        rl,
        im,
        il,
      )
      | inr upper ↦ rw upper (
        p.a_ne,
        link-left h a r ne ∙ (rw (p.left, q_ne, upper)),
        link-right h a r ne ∙ (rw (p.left, q_ne, upper)),
        rl,
        rm,
        il,
        im,
      )
    ]

pub mem-linked :
    (h : Heap) (a : ℕ) (l m : Tree) (q : ℕ)
    → mem q (linked h a l m) ≡ (q == a || (mem q l || mem q m))
mem-linked h a leaf m q = ground arith
mem-linked h a (node p x y) m q = ground arith

pub top-linked : (h : Heap) (a : ℕ) (l m : Tree) → top (linked h a l m) ≡ a
top-linked h a leaf m = refl
top-linked h a (node p x y) m = ground arith

pub count-linked :
    (h : Heap) (a : ℕ) (l m : Tree) → count (linked h a l m) ≡ suc (count l + count m)
count-linked h a leaf m = omega arith
count-linked h a (node p x y) m = ground arith

pub linked-IsHeap :
    (h : Heap) (a : ℕ) (l m : Tree)
    → Below a l
    → Below a m
    → IsHeap l
    → IsHeap m
    → IsHeap (linked h a l m)
linked-IsHeap h a leaf m bl bm hl hm = (bm, (λ q e. absurd (false≢true e)), hm, tt)
linked-IsHeap h a (node p x y) m bl bm hl hm = elim (Bool-cases (ltb (h p).rank (h (top m)).rank)) [
  | inl e ↦ rw e (bm, bl, hm, hl)
  | inr e ↦ rw e (bl, bm, hl, hm)
]

pub linked-IsDistinct :
    (h : Heap) (a : ℕ) (l m : Tree)
    → mem a l ≡ false
    → mem a m ≡ false
    → Disjoint l m
    → IsDistinct l
    → IsDistinct m
    → IsDistinct (linked h a l m)
linked-IsDistinct h a leaf m al am apart dl dm = (am, refl, (λ q e. refl), dm, tt)
linked-IsDistinct h a (node p x y) m al am apart dl dm =
    elim (Bool-cases (ltb (h p).rank (h (top m)).rank)) [
      | inl e ↦ rw e (am, al, Disjoint-sym (node p x y) m apart, dm, dl)
      | inr e ↦ rw e (al, am, apart, dl, dm)
    ]
