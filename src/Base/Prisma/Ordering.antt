-- ===== src/Base/Prisma/Ordering.antt =====
-- `orderBy` of a query: the rows that were found, put in order; equal rows stay in the order in which
-- they were found.
use mathlib.Core.Path.{◌≡◌, sym, subst}
use mathlib.Core.Logic.{◌↔◌, inl, inr}
use mathlib.Core.Bool.{Bool, true, false}
use mathlib.Core.List.{List, [], ◌∷◌, Memᴰ, Perm}
use mathlib.Core.List.Perm
use realworld_tutorial.Base.Calls.{ok}
use realworld_tutorial.Base.Prisma.{FindsMany}
use realworld_tutorial.Base.Tests.{if◌then◌else◌, Bool-cases}
use realworld_tutorial.Base.Lists.{All, All-mem, All-of_mem, keep}

module _ {A : Type 0} (R : A → A → Type 0) where
  -- Each member stands before those behind it.
  abbrev pub IsOrdered : List A → Type 0
  IsOrdered [] = Unit
  IsOrdered (x ∷ xs) = All (λ y. R x y) xs × IsOrdered xs

module _ {A : Type 0} (before : A → A → Bool) where
  abbrev pub insert_ordered : A → List A → List A
  insert_ordered a [] = a ∷ []
  insert_ordered a (x ∷ xs) = if before x a then x ∷ insert_ordered a xs else a ∷ x ∷ xs

  unfoldable pub order_by : List A → List A
  order_by [] = []
  order_by (x ∷ xs) = insert_ordered x (order_by xs)

  insert_ordered-Perm : (a : A) (xs : List A) → Perm (insert_ordered a xs) (a ∷ xs)
  insert_ordered-Perm a [] = Perm.refl (a ∷ [])
  insert_ordered-Perm a (x ∷ xs) = elim (Bool-cases (before x a)) [
    | inl e ↦ rw e (Perm.trans (Perm.cons x (insert_ordered-Perm a xs)) (Perm.swap a x xs))
    | inr e ↦ rw e (Perm.refl (a ∷ x ∷ xs))
  ]

  pub order_by-Perm : (xs : List A) → Perm (order_by xs) xs
  unfolding order_by
  order_by-Perm [] = Perm.refl []
  order_by-Perm (x ∷ xs) =
      Perm.trans (insert_ordered-Perm x (order_by xs)) (Perm.cons x (order_by-Perm xs))

  mem-cons_of :
      (x b : A) (xs ys : List A) → (Memᴰ b xs → Memᴰ b ys) → Memᴰ b (x ∷ xs) → Memᴰ b (x ∷ ys)
  mem-cons_of x b xs ys f (Memᴰ.head e) = Memᴰ.head e
  mem-cons_of x b xs ys f (Memᴰ.tail m) = Memᴰ.tail (f m)

  mem_swap : (x a b : A) (xs : List A) → Memᴰ b (x ∷ a ∷ xs) → Memᴰ b (a ∷ x ∷ xs)
  mem_swap x a b xs (Memᴰ.head e) = Memᴰ.tail (Memᴰ.head e)
  mem_swap x a b xs (Memᴰ.tail (Memᴰ.head e)) = Memᴰ.head e
  mem_swap x a b xs (Memᴰ.tail (Memᴰ.tail m)) = Memᴰ.tail (Memᴰ.tail m)

  insert_ordered-mem :
      (a : A) (xs : List A) (b : A) → Memᴰ b (insert_ordered a xs) ↔ Memᴰ b (a ∷ xs)
  insert_ordered-mem a [] b = (λ m. m, λ m. m)
  insert_ordered-mem a (x ∷ xs) b =
      let (to, from) = insert_ordered-mem a xs b in
      elim (Bool-cases (before x a)) [
        | inl e ↦ rw e (
          λ m. mem_swap x a b xs (mem-cons_of x b (insert_ordered a xs) (a ∷ xs) to m),
          λ m. mem-cons_of x b (a ∷ xs) (insert_ordered a xs) from (mem_swap a x b xs m),
        )
        | inr e ↦ rw e (λ m. m, λ m. m)
      ]

  pub order_by-mem : (xs : List A) (b : A) → Memᴰ b (order_by xs) ↔ Memᴰ b xs
  unfolding order_by
  order_by-mem [] b = (λ m. m, λ m. m)
  order_by-mem (x ∷ xs) b =
      let (to, from) = insert_ordered-mem x (order_by xs) b in
      let (up, down) = order_by-mem xs b in
      (
        λ m. mem-cons_of x b (order_by xs) xs up (to m),
        λ m. from (mem-cons_of x b xs (order_by xs) down m),
      )

  module _ (R : A → A → Type 0) where
    module _ (yes_R : (x y : A) → before x y ≡ true → R x y)
        (no_R : (x y : A) → before x y ≡ false → R y x)
        (trans_R : (x y z : A) → R x y → R y z → R x z) where
      insert_ordered-All :
          (x a : A) (xs : List A)
          → R x a
          → All (λ y. R x y) xs
          → All (λ y. R x y) (insert_ordered a xs)
      insert_ordered-All x a xs h hs =
          All-of_mem (λ y. R x y) (insert_ordered a xs)
            (λ b m. under b ((insert_ordered-mem a xs b).0 m))
        where
          under : (b : A) → Memᴰ b (a ∷ xs) → R x b
          under b (Memᴰ.head e) = subst (λ z. R x z) (sym e) h
          under b (Memᴰ.tail m) = All-mem (λ y. R x y) xs b hs m

      insert_ordered-IsOrdered :
          (a : A) (xs : List A) → IsOrdered R xs → IsOrdered R (insert_ordered a xs)
      insert_ordered-IsOrdered a [] h = (tt, tt)
      insert_ordered-IsOrdered a (x ∷ xs) (h, hs) = elim (Bool-cases (before x a)) [
        | inl e ↦ rw e (insert_ordered-All x a xs (yes_R x a e) h, insert_ordered-IsOrdered a xs hs)
        | inr e ↦ rw e (
          (
            no_R x a e,
            All-of_mem (λ y. R a y) xs
                (λ b m. trans_R a x b (no_R x a e) (All-mem (λ y. R x y) xs b h m)),
          ),
          (h, hs),
        )
      ]

      pub order_by-IsOrdered : (xs : List A) → IsOrdered R (order_by xs)
      unfolding order_by
      order_by-IsOrdered [] = tt
      order_by-IsOrdered (x ∷ xs) = insert_ordered-IsOrdered x (order_by xs) (order_by-IsOrdered xs)

module _ {A : Type 0} (p : A → Bool) (R : A → A → Type 0) (rows : List A) where
  -- The rows that pass a test, each as often as the table has it, in an order.
  pub record IsListing (listing : List A) : Type 0 where
    pub members : (r : A) → Memᴰ r listing ↔ (Memᴰ r rows × (p r ≡ true))
    pub as_often : Perm listing (keep p rows)
    pub ordered : IsOrdered R listing

  module _ (before : A → A → Bool) (yes_R : (x y : A) → before x y ≡ true → R x y)
      (no_R : (x y : A) → before x y ≡ false → R y x)
      (trans_R : (x y z : A) → R x y → R y z → R x z) where
    pub order_by-IsListing :
        (found : List A) → FindsMany p rows (ok found) → IsListing (order_by before found)
    order_by-IsListing found (as_often, members) = record {
      members = λ r. (
        λ m. (members r).0 ((order_by-mem before found r).0 m),
        λ m. (order_by-mem before found r).1 ((members r).1 m),
      );
      as_often = Perm.trans (order_by-Perm before found) as_often;
      ordered = order_by-IsOrdered before R yes_R no_R trans_R found;
    }
