-- ===== src/RbTree/Sorted.antt =====
-- Lists of positions of src/rbtree.h in the order of their keys.
use shmmalloc.Base.{ℕ, ◌≡◌, false, List, [], ◌∷◌, ◌++◌}
use shmmalloc.RbTree.{Sign, is_negative}

abbrev pub AllIn : (ℕ → Type 0) → List ℕ → Type 0
AllIn P [] = Unit
AllIn P (x ∷ xs) = P x × AllIn P xs

pub AllIn-split : (P : ℕ → Type 0) (xs ys : List ℕ) → AllIn P (xs ++ ys) → AllIn P xs × AllIn P ys
AllIn-split P [] ys h = (tt, h)
AllIn-split P (x ∷ xs) ys (px, h) = let (a, b) = AllIn-split P xs ys h in ((px, a), b)

pub AllIn-join : (P : ℕ → Type 0) (xs ys : List ℕ) → AllIn P xs → AllIn P ys → AllIn P (xs ++ ys)
AllIn-join P [] ys a b = b
AllIn-join P (x ∷ xs) ys (px, a) b = (px, AllIn-join P xs ys a b)

pub AllIn-zip :
    (P Q R : ℕ → Type 0) (xs : List ℕ)
    → ((n : ℕ) → P n → Q n → R n)
    → AllIn P xs
    → AllIn Q xs
    → AllIn R xs
AllIn-zip P Q R [] f a b = tt
AllIn-zip P Q R (x ∷ xs) f (px, a) (qx, b) = (f x px qx, AllIn-zip P Q R xs f a b)

module _ {K : Type 0} (cmp : K → K → Sign) (key : ℕ → K) where
  abbrev pub NotBelow : ℕ → ℕ → Type 0
  NotBelow a b = is_negative (cmp (key a) (key b)) ≡ false

  -- No later key is below an earlier one.
  abbrev pub Sorted : List ℕ → Type 0
  Sorted [] = Unit
  Sorted (x ∷ xs) = AllIn (λ y. NotBelow y x) xs × Sorted xs

  -- No key of the second list is below one of the first.
  abbrev pub Across : List ℕ → List ℕ → Type 0
  Across xs ys = AllIn (λ x. AllIn (λ y. NotBelow y x) ys) xs

  pub split-Sorted : (xs ys : List ℕ) → Sorted (xs ++ ys) → Sorted xs × Sorted ys × Across xs ys
  split-Sorted [] ys h = (tt, h, tt)
  split-Sorted (x ∷ xs) ys (hx, h) =
      let (a, b) = AllIn-split (λ y. NotBelow y x) xs ys hx in
      let (sx, sy, across) = split-Sorted xs ys h in ((a, sx), sy, (b, across))

  pub join-Sorted : (xs ys : List ℕ) → Sorted xs → Sorted ys → Across xs ys → Sorted (xs ++ ys)
  join-Sorted [] ys sx sy across = sy
  join-Sorted (x ∷ xs) ys (hx, sx) sy (ax, across) =
      (AllIn-join (λ y. NotBelow y x) xs ys hx ax, join-Sorted xs ys sx sy across)
