-- ===== src/RbTree/Ghost/Frame.antt =====
-- What a write leaves of the trees of RbTree/Ghost that do not hold the node.
use shmmalloc.Base.{ℕ, suc, ◌≤◌, ◌<◌, ◌≡◌, ◌≢◌, ap, ◌∙◌, ◌⊎◌, arith}
use shmmalloc.RbTree.{Colour, Rb}
use shmmalloc.RbTree.Side.{Side, lft, rgt}
use shmmalloc.RbTree.Ghost.{
  Tree, tip, fork, Way, top, step, root_of, fork_at, All, AllWay, cell_at, Stores, Around, Within,
  Outside,
}

-- The label of `w` is none of a tree with labels from `lo` on and below `hi`.
abbrev pub Beyond : (ℕ → ℕ) → ℕ → ℕ → ℕ → Type 0
Beyond label w lo hi = (label w < lo) ⊎ (hi ≤ label w)

pub Within-le : (label : ℕ → ℕ) (lo hi : ℕ) (tree : Tree) → Within label lo hi tree → lo ≤ hi
Within-le label lo hi tip h = h
Within-le label lo hi (fork c l x r) (hl, hr) =
    omega (arith, Within-le label lo (label x) l hl, Within-le label (suc (label x)) hi r hr)

label_ne : (label : ℕ → ℕ) (w x : ℕ) → (label w < label x) ⊎ (label x < label w) → w ≢ x
label_ne label w x h e = let same : label w ≡ label x = ap label e in omega (arith, h, same)

pub All-Within :
    (label : ℕ → ℕ) (w lo hi : ℕ) (tree : Tree)
    → Within label lo hi tree
    → Beyond label w lo hi
    → All (λ n. w ≢ n) tree
All-Within label w lo hi tip h out = tt
All-Within label w lo hi (fork c l x r) (hl, hr) out =
    let le = Within-le label lo (label x) l hl in
    let ri = Within-le label (suc (label x)) hi r hr in
    (
      label_ne label w x (omega (arith, le, ri, out)),
      All-Within label w lo (label x) l hl (omega (arith, le, ri, out)),
      All-Within label w (suc (label x)) hi r hr (omega (arith, le, ri, out)),
    )

-- A node of the gap is none of the way up.
pub AllWay-Outside :
    (label : ℕ → ℕ) (w lo hi : ℕ) (path : Way)
    → Outside label lo hi path
    → lo ≤ label w
    → label w < hi
    → AllWay (λ n. w ≢ n) path
AllWay-Outside label w lo hi top h p q = tt
AllWay-Outside label w lo hi (step lft c up x other) (end, le, hw, ho) p q =
    let ri = Within-le label (suc (label x)) end other hw in
    (
      label_ne label w x (omega (arith, le)),
      All-Within label w (suc (label x)) end other hw (omega (arith, le)),
      AllWay-Outside label w lo end up ho p (omega (arith, le, ri)),
    )
AllWay-Outside label w lo hi (step rgt c up x other) (start, lt, hw, ho) p q =
    let ri = Within-le label start (label x) other hw in
    (
      label_ne label w x (omega (arith, lt)),
      All-Within label w start (label x) other hw (omega (arith, lt)),
      AllWay-Outside label w start hi up ho (omega (arith, lt, ri)) q,
    )

pub All-map : (P Q : ℕ → Type 0) (tree : Tree) → ((n : ℕ) → P n → Q n) → All P tree → All Q tree
All-map P Q tip f a = tt
All-map P Q (fork c l x r) f (ax, al, ar) = (f x ax, All-map P Q l f al, All-map P Q r f ar)

pub AllWay-map :
    (P Q : ℕ → Type 0) (path : Way) → ((n : ℕ) → P n → Q n) → AllWay P path → AllWay Q path
AllWay-map P Q top f a = tt
AllWay-map P Q (step d c up x other) f (ax, ao, au) =
    (f x ax, All-map P Q other f ao, AllWay-map P Q up f au)

pub All-zip :
    (P Q R : ℕ → Type 0) (tree : Tree)
    → ((n : ℕ) → P n → Q n → R n)
    → All P tree
    → All Q tree
    → All R tree
All-zip P Q R tip f a b = tt
All-zip P Q R (fork c l x r) f (ax, al, ar) (bx, bl, br) =
    (f x ax bx, All-zip P Q R l f al bl, All-zip P Q R r f ar br)

pub AllWay-zip :
    (P Q R : ℕ → Type 0) (path : Way)
    → ((n : ℕ) → P n → Q n → R n)
    → AllWay P path
    → AllWay Q path
    → AllWay R path
AllWay-zip P Q R top f a b = tt
AllWay-zip P Q R (step d c up x other) f (ax, ao, au) (bx, bo, bu) =
    (f x ax bx, All-zip P Q R other f ao bo, AllWay-zip P Q R up f au bu)

module _ {K : Type 0} (key : ℕ → K) where
  pub Stores-frame :
      (t out : Rb K) (parent : ℕ) (tree : Tree)
      → All (λ n. out.nodes n ≡ t.nodes n) tree
      → Stores key t parent tree
      → Stores key out parent tree
  Stores-frame t out parent tip same h = tt
  Stores-frame t out parent (fork c l x r) (ex, el, er) (nz, at, hl, hr) =
      (nz, ex ∙ at, Stores-frame t out x l el hl, Stores-frame t out x r er hr)

  pub Around-frame :
      (t out : Rb K) (path : Way) (gap : ℕ)
      → AllWay (λ n. out.nodes n ≡ t.nodes n) path
      → out.root ≡ t.root
      → Around key t path gap
      → Around key out path gap
  Around-frame t out top gap same root h = root ∙ h
  Around-frame t out (step d c up x other) gap (ex, eo, eu) root (nz, at, ho, hu) =
      (nz, ex ∙ at, Stores-frame t out x other eo ho, Around-frame t out up x eu root hu)

  -- A fork by its sides.
  pub Stores-fork_at :
      (d : Side) (t : Rb K) (p : ℕ) (c : Colour) (a : Tree) (x : ℕ) (b : Tree)
      → Stores key t p (fork_at d c a x b)
      → (x ≢ 0)
        × (t.nodes x ≡ cell_at key d p c x (root_of a) (root_of b))
        × Stores key t x a
        × Stores key t x b
  Stores-fork_at lft t p c a x b h = h
  Stores-fork_at rgt t p c a x b (nz, at, hb, ha) = (nz, at, ha, hb)

  pub fork_at-Stores :
      (d : Side) (t : Rb K) (p : ℕ) (c : Colour) (a : Tree) (x : ℕ) (b : Tree)
      → x ≢ 0
      → t.nodes x ≡ cell_at key d p c x (root_of a) (root_of b)
      → Stores key t x a
      → Stores key t x b
      → Stores key t p (fork_at d c a x b)
  fork_at-Stores lft t p c a x b nz at ha hb = (nz, at, ha, hb)
  fork_at-Stores rgt t p c a x b nz at ha hb = (nz, at, hb, ha)
