-- ===== src/RbTree/Insert/Start.antt =====
-- rbtree_insert of src/rbtree.h up to its loop, on the trees of RbTree/Ghost.
use shmmalloc.Base.{
  ℕ, suc, ◌+◌, ◌^◌, ◌<◌, ◌≡◌, ◌≢◌, refl, ap, ◌∙◌, arith, subst, Option, some, Bool, true, false,
  ne→==, eq→==, ◌==◌, if◌then◌else◌, u32, guard, ◌>>=◌,
}
use shmmalloc.RbTree.{
  Sign, is_negative, Colour, red, black, Node, Rb, set_p, set_left, set_right, set_color,
}
use shmmalloc.RbTree.Side.{Side, lft, rgt, set_child}
use shmmalloc.RbTree.Ghost.{
  Tree, tip, fork, Way, top, step, parent_of, plug, count, All, AllWay, cell,
}
use shmmalloc.RbTree.Ghost.Frame.{All-map, Stores-frame}
use shmmalloc.RbTree.Update.{insert_walk, rbtree_node_init, rbtree_fix_insert, rbtree_insert}
use shmmalloc.RbTree.Balance.{IsBalanced}
use shmmalloc.RbTree.Turn.{IsAt}
use shmmalloc.RbTree.Insert.Walk.{Chosen}
use shmmalloc.RbTree.Insert.Attach.{relabel, attach}

abbrev IsTip : Tree → Type 0
IsTip tip = Unit
IsTip (fork c l x r) = ⊥

-- The memory holds a red-black tree with the nodes of `tree`: the links of every node, its colour
-- and key are those of the tree, no node stands twice in it, the colour rules hold, and the header
-- counts the nodes.
pub record IsRbTree {K : Type 0} (key : ℕ → K) (t : Rb K) (tree : Tree) : Type 0 where
  pub label : ℕ → ℕ
  pub at : IsAt key label t top tree
  pub balanced : IsBalanced tree
  pub counted : t.size ≡ count tree

-- `new` is a node of no tree that knows its position and has its key.
pub record IsFresh {K : Type 0} (key : ℕ → K) (t : Rb K) (new : ℕ) (tree : Tree) : Type 0 where
  pub node : new ≢ 0
  pub self : (t.nodes new).s ≡ new
  pub value : (t.nodes new).v ≡ key new
  pub absent : All (λ n. new ≢ n) tree

pub fork_ne : (c : Colour) (l : Tree) (x : ℕ) (r : Tree) → tip ≢ fork c l x r
fork_ne c l x r e = subst IsTip e tt

pub AllWay-plug :
    (P : ℕ → Type 0) (path : Way) (tree : Tree)
    → All P (plug path tree)
    → AllWay P path × All P tree
AllWay-plug P top tree h = (tt, h)
AllWay-plug P (step lft c up x other) tree h =
    let (hu, (px, ht, ho)) = AllWay-plug P up (fork c tree x other) h in ((px, ho, hu), ht)
AllWay-plug P (step rgt c up x other) tree h =
    let (hu, (px, ho, ht)) = AllWay-plug P up (fork c other x tree) h in ((px, ho, hu), ht)

module _ {K : Type 0} (key : ℕ → K) where
  abbrev named : ℕ → K → Node K
  named s v = record { s = s; p = 0; left = 0; right = 0; v = v; color = red }

  pub prepared : Rb K → ℕ → Rb K
  prepared t new = record (rbtree_node_init t new) { size = u32 (t.size + 1) }

  pub prepared-new :
      (t : Rb K) (new : ℕ) (tree : Tree)
      → IsFresh key t new tree
      → (prepared t new).nodes new ≡ cell key 0 red new 0 0
  unfolding prepared rbtree_node_init
  prepared-new t new tree fresh =
      rw (eq→== new new refl)
        (ap (λ s. named s (t.nodes new).v) fresh.self ∙ ap (named new) fresh.value)

  pub prepared-old : (t : Rb K) (new n : ℕ) → new ≢ n → (prepared t new).nodes n ≡ t.nodes n
  unfolding prepared rbtree_node_init
  prepared-old t new n h = rw (ne→== new n h) refl

  pub prepared-root : (t : Rb K) (new : ℕ) → (prepared t new).root ≡ t.root
  unfolding prepared rbtree_node_init
  prepared-root t new = refl

  pub prepared-size :
      (t : Rb K) (new : ℕ) → t.size + 1 < 2 ^ 32 → (prepared t new).size ≡ suc t.size
  unfolding prepared rbtree_node_init
  prepared-size t new h = omega (arith, h)

  pub prepared-IsAt :
      (label : ℕ → ℕ) (t : Rb K) (new : ℕ) (tree : Tree)
      → All (λ n. new ≢ n) tree
      → IsAt key label t top tree
      → IsAt key label (prepared t new) top tree
  prepared-IsAt label t new tree away at = record {
    lo = at.lo;
    hi = at.hi;
    stores =
        Stores-frame key t (prepared t new) 0 tree
          (All-map (λ n. new ≢ n) (λ n. (prepared t new).nodes n ≡ t.nodes n) tree
            (prepared-old t new) away)
          at.stores;
    around = prepared-root t new ∙ at.around;
    within = at.within;
    outside = tt;
  }

module _ {K : Type 0} (cmp : K → K → Sign) (key : ℕ → K) where
  -- The new node becomes the right or the left child of `node`.
  hang : Bool → Rb K → ℕ → ℕ → ℕ → Rb K
  hang below t0 node s new =
      let t1 = if below then set_right t0 node s else set_left t0 node s in
      set_p t1 new (t1.nodes node).s

  -- rbtree_insert from the initialised node on.
  pub insert_from : Rb K → ℕ → ℕ → ℕ → Option (Rb K)
  insert_from t0 root fuel new =
      let s = (t0.nodes new).s in
      let first = record (set_color t0 new black) { root = s } in
      guard (s == new) (
        if root == 0
        then some first
        else insert_walk cmp fuel t0 (t0.nodes new).v 0 root >>= λ node.
            rbtree_fix_insert fuel
              (hang (is_negative (cmp (t0.nodes node).v (t0.nodes new).v)) t0 node s new) new)

  pub insert_as_from :
      (t : Rb K) (new : ℕ)
      → rbtree_insert cmp t new ≡ insert_from (prepared key t new) t.root (t.size + 2) new
  unfolding rbtree_insert insert_from prepared hang
  insert_as_from t new = refl

  pub from_first :
      (t0 : Rb K) (root fuel new : ℕ)
      → root ≡ 0
      → (t0.nodes new).s ≡ new
      → insert_from t0 root fuel new
        ≡ some (record (set_color t0 new black) { root = (t0.nodes new).s })
  unfolding insert_from
  from_first t0 root fuel new e sn = rw (e, eq→== (t0.nodes new).s new sn) refl

  from_node :
      (t0 : Rb K) (root fuel new x : ℕ) (below : Bool)
      → root ≢ 0
      → (t0.nodes new).s ≡ new
      → (t0.nodes new).v ≡ key new
      → insert_walk cmp fuel t0 (key new) 0 root ≡ some x
      → (t0.nodes x).v ≡ key x
      → is_negative (cmp (key x) (key new)) ≡ below
      → insert_from t0 root fuel new ≡ rbtree_fix_insert fuel (hang below t0 x new new) new
  unfolding insert_from
  from_node t0 root fuel new x below nr sn vn walk vx e =
      rw (sn, eq→== new new refl, ne→== root 0 nr, vn, walk, vx, e) refl

  abbrev hung : Side → Rb K → ℕ → ℕ → Rb K
  hung d t0 x new = set_p (set_child d t0 x new) new ((set_child d t0 x new).nodes x).s

  hang-left : (t0 : Rb K) (x new : ℕ) → hang false t0 x new new ≡ hung lft t0 x new
  unfolding hang
  hang-left t0 x new = refl

  hang-right : (t0 : Rb K) (x new : ℕ) → hang true t0 x new new ≡ hung rgt t0 x new
  unfolding hang
  hang-right t0 x new = refl

  -- From the gap on: the insertion is the loop of rbtree_fix_insert from the attached node.
  pub from_gap :
      (label : ℕ → ℕ) (t0 : Rb K) (root fuel new : ℕ) (path : Way)
      → root ≢ 0
      → new ≢ 0
      → t0.nodes new ≡ cell key 0 red new 0 0
      → IsAt key label t0 path tip
      → AllWay (λ n. new ≢ n) path
      → Chosen cmp key (key new) path
      → parent_of path ≢ 0
      → insert_walk cmp fuel t0 (key new) 0 root ≡ some (parent_of path)
      → (label2 : ℕ → ℕ) × (t2 : Rb K) × (insert_from t0 root fuel new
          ≡ rbtree_fix_insert fuel t2 new)
        × IsAt key label2 t2 path (fork red tip new tip)
        × (t2.size ≡ t0.size)
  from_gap label t0 root fuel new top nr nn cn at away chosen np walk = absurd (np refl)
  from_gap label t0 root fuel new (step lft c up x other) nr nn cn at away (e, chosen) np walk =
      let (nx, cx, so, hu) = at.around in
      (
        relabel label new at.lo,
        hung lft t0 x new,
        from_node t0 root fuel new x false nr (ap (λ n. n.s) cn) (ap (λ n. n.v) cn) walk
              (ap (λ n. n.v) cx) e
            ∙ ap (λ t2. rbtree_fix_insert fuel t2 new) (hang-left t0 x new),
        attach key label lft c t0 up x other new at nn cn away,
        refl,
      )
  from_gap label t0 root fuel new (step rgt c up x other) nr nn cn at away (e, chosen) np walk =
      let (nx, cx, so, hu) = at.around in
      (
        relabel label new at.lo,
        hung rgt t0 x new,
        from_node t0 root fuel new x true nr (ap (λ n. n.s) cn) (ap (λ n. n.v) cn) walk
              (ap (λ n. n.v) cx) e
            ∙ ap (λ t2. rbtree_fix_insert fuel t2 new) (hang-right t0 x new),
        attach key label rgt c t0 up x other new at nn cn away,
        refl,
      )
