-- ===== src/Base/Collect.antt =====
-- Lists of outcomes and of calls: `Promise.all`, and the rows that one query selects, answer with all
-- the values or throw.
use mathlib.Core.List.{List, [], ◌∷◌, map}
use realworld_tutorial.Base.Calls.{Exception, Outcome, ok, err, M}

abbrev pub cons_outcome {ℓ} : {B : Type ℓ} → Outcome B → Outcome (List B) → Outcome (List B)
cons_outcome (ok x) (ok xs) = ok (x ∷ xs)
cons_outcome (ok x) (err e) = err e
cons_outcome (err e) xs = err e

abbrev pub collect {ℓ κ} : {A : Type ℓ} {B : Type κ} → (A → Outcome B) → List A → Outcome (List B)
collect f [] = ok []
collect f (x ∷ xs) = cons_outcome (f x) (collect f xs)

-- `Promise.all`: each call is made, also where one before it throws; here one after another.
abbrev pub promise_all {ℓ κ} : {S : Type ℓ} {A : Type κ} → List (M S A) → M S (List A)
promise_all [] s = (ok [], s)
promise_all (m ∷ ms) s =
    let (r, t) = m s in let (rs, u) = promise_all ms t in (cons_outcome r rs, u)

module _ {ℓ κ} {A : Type ℓ} {B : Type κ} (R : A → B → Type 0) where
  -- Two lists of one length, related place by place.
  abbrev pub Each : List A → List B → Type 0
  Each [] [] = Unit
  Each [] (y ∷ ys) = ⊥
  Each (x ∷ xs) [] = ⊥
  Each (x ∷ xs) (y ∷ ys) = R x y × Each xs ys

module _ {ℓ κ} {A : Type ℓ} {B : Type κ} (R : A → B → Type 0) (E : Exception → Type 0) where
  abbrev pub EachOk : List A → Outcome (List B) → Type 0
  EachOk xs (ok ys) = Each R xs ys
  EachOk xs (err e) = E e

  abbrev pub RelatedOk : A → Outcome B → Type 0
  RelatedOk x (ok y) = R x y
  RelatedOk x (err e) = E e

  pub collect-Each :
      (f : A → Outcome B) (xs : List A) → ((x : A) → RelatedOk x (f x)) → EachOk xs (collect f xs)
  collect-Each f [] h = tt
  collect-Each f (x ∷ xs) h = go (f x) (h x) (collect f xs) (collect-Each f xs h)
    where
      go :
          (y : Outcome B)
          → RelatedOk x y
          → (ys : Outcome (List B)) → EachOk xs ys
          → EachOk (x ∷ xs) (cons_outcome y ys)
      go (ok y) r (ok ys) rs = (r, rs)
      go (ok y) r (err e) d = d
      go (err e) d ys rs = d

module _ {ℓ κ μ} {A : Type ℓ} {B : Type κ} {C : Type μ} (R : A → C → Type 0) (g : B → C) where
  pub Each-map : (xs : List A) (ys : List B) → Each (λ x y. R x (g y)) xs ys → Each R xs (map g ys)
  Each-map [] [] h = h
  Each-map [] (y ∷ ys) h = h
  Each-map (x ∷ xs) [] h = h
  Each-map (x ∷ xs) (y ∷ ys) (r, rs) = (r, Each-map xs ys rs)
