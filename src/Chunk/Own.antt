-- ===== src/Chunk/Own.antt =====
-- The keys of the chunk pools of src/shm_chunk.c: their order is strict, and they are the values in
-- the nodes of the tree.
use shmmalloc.Base.{
  ℕ, ◌≡◌, sym, ap, ◌∙◌, arith, true, false, List, [], ◌∷◌, ◌++◌, ◌==◌, if◌then◌else◌,
}
use shmmalloc.RbTree.{Sign, is_negative, Colour, Rb, Node}
use shmmalloc.RbTree.Ghost.{Tree, tip, fork, root_of, Stores}
use shmmalloc.RbTree.Extremes.{IsStrict}
use shmmalloc.RbTree.Sorted.{AllIn, AllIn-zip, NotBelow, Sorted, split-Sorted, join-Sorted}
use shmmalloc.RbTree.Insert.Start.{IsRbTree}
use shmmalloc.Chunk.Pool.{chunk_tree_compare}
use shmmalloc.Chunk.Order.{sign_nat, chunk_tree_compare-eq-lexicographic}
use shmmalloc.Chunk.Available.{FitsInt, chunk_tree_compare-IsWeakOrder}

lexicographic_asym :
    (i m j n : ℕ)
    → is_negative (if m == n then sign_nat i j else sign_nat m n) ≡ true
    → is_negative (if n == m then sign_nat j i else sign_nat n m) ≡ false
lexicographic_asym i m j n e = ground (arith, e)

lexicographic_irreflexive :
    (i m : ℕ) → is_negative (if m == m then sign_nat i i else sign_nat m m) ≡ false
lexicographic_irreflexive i m = ground arith

pub chunk_tree_compare-IsStrict : IsStrict chunk_tree_compare FitsInt
chunk_tree_compare-IsStrict = record {
  weak = chunk_tree_compare-IsWeakOrder;
  asym = λ a b (ai, am) (bi, bm) e.
      let lex = chunk_tree_compare-eq-lexicographic in
      rw (lex b a bi ai bm am) (
        lexicographic_asym a.index a.maxsize b.index b.maxsize
          (ap is_negative (sym (lex a b ai bi am bm)) ∙ e));
  irreflexive = λ a (ai, am).
      rw (chunk_tree_compare-eq-lexicographic a a ai ai am am)
        (lexicographic_irreflexive a.index a.maxsize);
}

abbrev pub own : {K : Type 0} → Rb K → ℕ → K
own t n = (t.nodes n).v

all_unit : (xs : List ℕ) → AllIn (λ n. Unit) xs
all_unit [] = tt
all_unit (x ∷ xs) = (tt, all_unit xs)

module _ {K : Type 0} (cmp : K → K → Sign) where
  abbrev named : ℕ → Colour → ℕ → ℕ → ℕ → K → Node K
  named p c x l r v = record { s = x; p = p; left = l; right = r; v = v; color = c }

  -- The keys of a tree are the values in its nodes.
  Stores-own :
      (key : ℕ → K) (t : Rb K) (p : ℕ) (tree : Tree) → Stores key t p tree → Stores (own t) t p tree
  Stores-own key t p tip h = tt
  Stores-own key t p (fork c l x r) (nx, cx, hl, hr) = (
    nx,
    cx ∙ ap (named p c x (root_of l) (root_of r)) (sym (ap (λ n. n.v) cx)),
    Stores-own key t x l hl,
    Stores-own key t x r hr,
  )

  pub IsRbTree-own :
      (key : ℕ → K) (t : Rb K) (tree : Tree) → IsRbTree key t tree → IsRbTree (own t) t tree
  IsRbTree-own key t tree rb = record {
    label = rb.label;
    at = record {
      lo = rb.at.lo;
      hi = rb.at.hi;
      stores = Stores-own key t 0 tree rb.at.stores;
      around = rb.at.around;
      within = rb.at.within;
      outside = tt;
    };
    balanced = rb.balanced;
    counted = rb.counted;
  }

  same_test :
      (key key2 : ℕ → K) (a b : ℕ)
      → key2 a ≡ key a
      → key2 b ≡ key b
      → NotBelow cmp key a b
      → NotBelow cmp key2 a b
  same_test key key2 a b ea eb h =
      ap (λ k. is_negative (cmp k (key2 b))) ea ∙ ap (λ k. is_negative (cmp (key a) k)) eb ∙ h

  pub Sorted-keys :
      (key key2 : ℕ → K) (xs : List ℕ)
      → AllIn (λ n. key2 n ≡ key n) xs
      → Sorted cmp key xs
      → Sorted cmp key2 xs
  Sorted-keys key key2 [] e h = tt
  Sorted-keys key key2 (x ∷ xs) (ex, es) (hx, h) = (
    AllIn-zip (λ y. key2 y ≡ key y) (λ y. NotBelow cmp key y x) (λ y. NotBelow cmp key2 y x) xs
        (λ y ey b. same_test key key2 y x ey ex b) es hx,
    Sorted-keys key key2 xs es h,
  )

  pub without-Sorted :
      (key : ℕ → K) (left : List ℕ) (n : ℕ) (right : List ℕ)
      → Sorted cmp key (left ++ (n ∷ right))
      → Sorted cmp key (left ++ right)
  without-Sorted key left n right h =
      let (sl, (nr, sr), across) = split-Sorted cmp key left (n ∷ right) h in
      join-Sorted cmp key left right sl sr (
        AllIn-zip (λ x. AllIn (λ y. NotBelow cmp key y x) (n ∷ right)) (λ x. Unit)
          (λ x. AllIn (λ y. NotBelow cmp key y x) right) left (λ x (a, b) u. b) across
          (all_unit left))
