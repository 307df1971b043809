-- ===== src/RbTree/Balance.antt =====
-- The colour rules of the trees of src/rbtree.h, on the trees of RbTree/Ghost.
use shmmalloc.Base.{
  ◌≢◌, ℕ, suc, ◌+◌, ◌≤◌, ◌≡◌, refl, sym, ap, ◌∙◌, ◌⊎◌, inl, inr, arith, List, ◌∷◌, ◌++◌,
  append_assoc, subst, append-nil, [],
}
use shmmalloc.RbTree.{Colour, red, black, Rb}
use shmmalloc.RbTree.Side.{Side, lft, rgt}
use shmmalloc.RbTree.Ghost.{
  Tree, tip, fork, Way, top, step, fork_at, plug, inorder, count, root_of, Stores,
}

abbrev pub IsBlack : Tree → Type 0
IsBlack tip = Unit
IsBlack (fork red l x r) = ⊥
IsBlack (fork black l x r) = Unit

abbrev pub IsRed : Tree → Type 0
IsRed tip = ⊥
IsRed (fork red l x r) = Unit
IsRed (fork black l x r) = ⊥

abbrev pub IsBlackStep : Way → Type 0
IsBlackStep top = ⊥
IsBlackStep (step d red up x other) = ⊥
IsBlackStep (step d black up x other) = Unit

-- Every way down to a leaf has `n` black nodes, and no red node has a red child.
abbrev pub Balanced : ℕ → Tree → Type 0
Balanced n tip = n ≡ 0
Balanced n (fork red l x r) = IsBlack l × IsBlack r × Balanced n l × Balanced n r
Balanced n (fork black l x r) = (m : ℕ) × (n ≡ suc m) × Balanced m l × Balanced m r

abbrev pub IsBalanced : Tree → Type 0
IsBalanced tree = IsBlack tree × ((n : ℕ) × Balanced n tree)

-- The same of the way up from a gap for a tree with `n` black nodes on every way down.
abbrev pub BalancedWay : ℕ → Way → Type 0
BalancedWay n top = Unit
BalancedWay n (step d red up x other) =
    IsBlack other × Balanced n other × IsBlackStep up × BalancedWay n up
BalancedWay n (step d black up x other) = Balanced n other × BalancedWay (suc n) up

pub Balanced-red :
    (d : Side) (n : ℕ) (a : Tree) (x : ℕ) (b : Tree)
    → IsBlack a
    → IsBlack b
    → Balanced n a
    → Balanced n b
    → Balanced n (fork_at d red a x b)
Balanced-red lft n a x b ba bb ha hb = (ba, bb, ha, hb)
Balanced-red rgt n a x b ba bb ha hb = (bb, ba, hb, ha)

pub Balanced-black :
    (d : Side) (n : ℕ) (a : Tree) (x : ℕ) (b : Tree)
    → Balanced n a
    → Balanced n b
    → Balanced (suc n) (fork_at d black a x b)
Balanced-black lft n a x b ha hb = (n, refl, ha, hb)
Balanced-black rgt n a x b ha hb = (n, refl, hb, ha)

pub red-Balanced :
    (d : Side) (n : ℕ) (a : Tree) (x : ℕ) (b : Tree)
    → Balanced n (fork_at d red a x b)
    → IsBlack a × IsBlack b × Balanced n a × Balanced n b
red-Balanced lft n a x b h = h
red-Balanced rgt n a x b (bb, ba, hb, ha) = (ba, bb, ha, hb)

pub black-Balanced :
    (d : Side) (n : ℕ) (a : Tree) (x : ℕ) (b : Tree)
    → Balanced (suc n) (fork_at d black a x b)
    → Balanced n a × Balanced n b
black-Balanced lft n a x b (m, e, ha, hb) =
    let same : m ≡ n = omega (arith, e) in
    (subst (λ k. Balanced k a) same ha, subst (λ k. Balanced k b) same hb)
black-Balanced rgt n a x b (m, e, hb, ha) =
    let same : m ≡ n = omega (arith, e) in
    (subst (λ k. Balanced k a) same ha, subst (λ k. Balanced k b) same hb)

-- Another black tree and another node on the way up.
pub BalancedWay-other :
    (d : Side) (c : Colour) (n : ℕ) (up : Way) (p w : ℕ) (a b : Tree)
    → BalancedWay n (step d c up p a)
    → IsBlack b
    → Balanced n b
    → BalancedWay n (step d c up w b)
BalancedWay-other d red n up p w a b (ba, ha, bs, hu) bb hb = (bb, hb, bs, hu)
BalancedWay-other d black n up p w a b (ha, hu) bb hb = (hb, hu)

pub sibling-Balanced :
    (d : Side) (c : Colour) (n : ℕ) (up : Way) (p : ℕ) (w : Tree)
    → BalancedWay n (step d c up p w)
    → Balanced n w
sibling-Balanced d red n up p w (bw, hw, bs, hu) = hw
sibling-Balanced d black n up p w (hw, hu) = hw

pub IsBlack-fork_at : (d : Side) (a : Tree) (x : ℕ) (b : Tree) → IsBlack (fork_at d black a x b)
IsBlack-fork_at lft a x b = tt
IsBlack-fork_at rgt a x b = tt

pub IsRed-fork_at : (d : Side) (a : Tree) (x : ℕ) (b : Tree) → IsRed (fork_at d red a x b)
IsRed-fork_at lft a x b = tt
IsRed-fork_at rgt a x b = tt

pub red-nonzero :
    {K : Type 0} (key : ℕ → K) (t : Rb K) (p : ℕ) (tree : Tree)
    → IsRed tree
    → Stores key t p tree
    → root_of tree ≢ 0
red-nonzero key t p tip is_red h e = is_red
red-nonzero key t p (fork c l x r) is_red (nx, cx, hl, hr) e = nx e

pub plug-IsBalanced :
    (n : ℕ) (path : Way) (tree : Tree)
    → BalancedWay n path
    → Balanced n tree
    → IsBlack tree ⊎ IsBlackStep path
    → IsBalanced (plug path tree)
plug-IsBalanced n top tree hp h (inl b) = (b, (n, h))
plug-IsBalanced n top tree hp h (inr none) = absurd none
plug-IsBalanced n (step d red up x other) tree hp h (inr none) = absurd none
plug-IsBalanced n (step d red up x other) tree (bo, ho, bu, hu) h (inl b) =
    plug-IsBalanced n up (fork_at d red tree x other) hu (Balanced-red d n tree x other b bo h ho)
      (inr bu)
plug-IsBalanced n (step d black up x other) tree (ho, hu) h b =
    plug-IsBalanced (suc n) up (fork_at d black tree x other) hu
      (Balanced-black d n tree x other h ho) (inl (IsBlack-fork_at d tree x other))

-- The positions on the left of a gap, and those on the right.
abbrev pub before : Way → List ℕ
before top = []
before (step lft c up x other) = before up
before (step rgt c up x other) = before up ++ (inorder other ++ (x ∷ []))

abbrev pub after : Way → List ℕ
after top = []
after (step lft c up x other) = x ∷ (inorder other ++ after up)
after (step rgt c up x other) = after up

pub inorder-plug :
    (path : Way) (tree : Tree)
    → inorder (plug path tree) ≡ before path ++ (inorder tree ++ after path)
inorder-plug top tree = sym (append-nil (inorder tree))
inorder-plug (step lft c up x other) tree =
    inorder-plug up (fork c tree x other)
    ∙ ap (λ l. before up ++ l) (append_assoc (inorder tree) (x ∷ inorder other) (after up))
inorder-plug (step rgt c up x other) tree =
    let start = inorder other in
    let rest = inorder tree ++ after up in
    inorder-plug up (fork c other x tree)
    ∙ ap (λ l. before up ++ l)
        (append_assoc start (x ∷ inorder tree) (after up) ∙ sym (append_assoc start (x ∷ []) rest))
    ∙ sym (append_assoc (before up) (start ++ (x ∷ [])) rest)

-- The positions of the whole depend on those of the part only.
pub plug-inorder :
    (path : Way) (a b : Tree)
    → inorder a ≡ inorder b
    → inorder (plug path a) ≡ inorder (plug path b)
plug-inorder path a b e =
    inorder-plug path a ∙ ap (λ l. before path ++ (l ++ after path)) e ∙ sym (inorder-plug path b)

pub inorder-fork_at :
    (d : Side) (c c2 : Colour) (a a2 : Tree) (x : ℕ) (b b2 : Tree)
    → inorder a ≡ inorder a2
    → inorder b ≡ inorder b2
    → inorder (fork_at d c a x b) ≡ inorder (fork_at d c2 a2 x b2)
inorder-fork_at lft c c2 a a2 x b b2 ea eb =
    ap (λ l. l ++ (x ∷ inorder b)) ea ∙ ap (λ l. inorder a2 ++ (x ∷ l)) eb
inorder-fork_at rgt c c2 a a2 x b b2 ea eb =
    ap (λ l. l ++ (x ∷ inorder a)) eb ∙ ap (λ l. inorder b2 ++ (x ∷ l)) ea

abbrev pub depth : Way → ℕ
depth top = 0
depth (step d c up x other) = suc (depth up)

pub count-fork_at :
    (d : Side) (c : Colour) (a : Tree) (x : ℕ) (b : Tree)
    → count (fork_at d c a x b) ≡ suc (count a + count b)
count-fork_at lft c a x b = refl
count-fork_at rgt c a x b = omega arith

pub depth-count : (path : Way) (tree : Tree) → depth path + count tree ≤ count (plug path tree)
depth-count top tree = omega arith
depth-count (step d c up x other) tree =
    omega (arith, depth-count up (fork_at d c tree x other), count-fork_at d c tree x other)
