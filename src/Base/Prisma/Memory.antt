-- ===== src/Base/Prisma/Memory.antt =====
-- A table in memory and transactions that always commit: the interfaces of `Base.Prisma` can be
-- met. The examples run on it.
use Prim.Native.Nat.{ℕ, suc, ◌≤◌}
use mathlib.Core.Path.{◌≡◌, refl}
use mathlib.Core.Logic.{◌⊎◌, inl, inr}
use mathlib.Core.Bool.{Bool, false, not}
use mathlib.Core.Option.{Option, none, some}
use mathlib.Core.List.{List, [], ◌∷◌, map, Memᴰ}
use mathlib.Core.List.Perm
use native.Mathlib.Omega.{arith}
use realworld_tutorial.Base.Tests.{if◌then◌else◌, Bool-cases, Option-cases}
use realworld_tutorial.Base.Lists.{All, keep, length, append_one, some_is, keep-mem, mem-keep}
use realworld_tutorial.Base.Calls.{Exception, prisma, absent, Outcome, ok, err, M}
use realworld_tutorial.Base.Prisma.{
  Delegate, Transactor, Finds, FindsMany, DeletesOne, Creates, UpdatesOne, patch, Transacts,
}

abbrev pub duplicate : Exception
duplicate = prisma "P2002" absent

pub record Table (Row : Type 0) : Type 0 where
  pub rows : List Row
  pub next_id : ℕ

module _ {Row : Type 0} where
  abbrev pub first : (Row → Bool) → List Row → Option Row
  first p [] = none
  first p (r ∷ rs) = let rest = first p rs in if p r then some r else rest

  pub first-Finds : (p : Row → Bool) (rs : List Row) → Finds p rs (ok (first p rs))
  first-Finds p [] = tt
  first-Finds p (r ∷ rs) = elim (Bool-cases (p r)) [
    | inl e ↦ rw e (Memᴰ.head refl, e)
    | inr e ↦ rw e (later e (Option-cases (first p rs)) (first-Finds p rs))
  ]
    where
      later :
          p r ≡ false
          → ((first p rs ≡ none) ⊎ ((q : Row) × (first p rs ≡ some q)))
          → Finds p rs (ok (first p rs))
          → Finds p (r ∷ rs) (ok (first p rs))
      later e (inl n) h = rw n (e, rw n at h)
      later e (inr (q, f)) h = rw f (let (m, t) = (rw f at h) in (Memᴰ.tail m, t))

  no_clash :
      (clash : Row → Row → Bool) (r : Row) (rs : List Row)
      → some_is (λ q. clash q r) rs ≡ false
      → All (λ q. clash q r ≡ false) rs
  no_clash clash r [] e = tt
  no_clash clash r (q ∷ rs) e = elim (Bool-cases (clash q r)) [
    | inl c ↦ absurd (cc)
    | inr c ↦ (c, no_clash clash r rs (rw c at e))
  ]

  abbrev pub create_row : (Row → Row → Bool) → (ℕ → Row) → M (Table Row) Row
  create_row clash make s =
      if some_is (λ q. clash q (make s.next_id)) s.rows then (err duplicate, s) else (
        ok (make s.next_id),
        record { rows = append_one s.rows (make s.next_id); next_id = suc s.next_id },
      )

  pub create_row-Creates :
      (clash : Row → Row → Bool) (make : ℕ → Row) (s : Table Row)
      → Creates clash make s.next_id s.rows
          (create_row clash make s).0
          (create_row clash make s).1.next_id
          (create_row clash make s).1.rows
  create_row-Creates clash make s =
      elim (Bool-cases (some_is (λ q. clash q (make s.next_id)) s.rows)) [
        | inl e ↦ rw e (tt, omega arith, refl)
        | inr e ↦ rw e (
          s.next_id,
          omega arith,
          omega arith,
          refl,
          refl,
          no_clash clash (make s.next_id) s.rows e,
        )
      ]

  abbrev pub update_rows : (Row → Bool) → (Row → Row) → M (Table Row) ℕ
  update_rows p f s = (ok (length (keep p s.rows)), record s { rows = map (patch p f) s.rows })

  abbrev pub update_found : (Row → Row) → Option Row → Table Row → M (Table Row) Row
  update_found f none t s = (err (prisma "P2025" absent), s)
  update_found f (some r) t s = (ok (f r), t)

  abbrev pub update_row : (Row → Bool) → (Row → Row) → M (Table Row) Row
  update_row p f s = update_found f (first p s.rows) (update_rows p f s).1 s

  pub update_row-UpdatesOne :
      (p : Row → Bool) (f : Row → Row) (s : Table Row)
      → UpdatesOne p f s.rows (update_row p f s).0 (update_row p f s).1.rows
        × (s.next_id ≤ (update_row p f s).1.next_id)
  update_row-UpdatesOne p f s = go (first p s.rows) (first-Finds p s.rows)
    where
      go :
          (o : Option Row)
          → Finds p s.rows (ok o)
          → UpdatesOne p f s.rows
              (update_found f o (update_rows p f s).1 s).0
              (update_found f o (update_rows p f s).1 s).1.rows
            × (s.next_id ≤ (update_found f o (update_rows p f s).1 s).1.next_id)
      go none h = ((tt, refl), omega arith)
      go (some r) (m, e) = ((r, m, e, refl, refl), omega arith)

  abbrev pub delete_rows : (Row → Bool) → M (Table Row) ℕ
  delete_rows p s = (ok (length (keep p s.rows)), record s { rows = keep (λ r. not (p r)) s.rows })

  pub keep-FindsMany : (p : Row → Bool) (rs : List Row) → FindsMany p rs (ok (keep p rs))
  keep-FindsMany p rs =
      (Perm.refl (keep p rs), λ r. (keep-mem p rs r, λ h. mem-keep p rs r h.0 h.1))

  abbrev pub delete_found : Option Row → Table Row → M (Table Row) Row
  delete_found none t s = (err (prisma "P2025" absent), s)
  delete_found (some r) t s = (ok r, t)

  abbrev pub delete_row : (Row → Bool) → M (Table Row) Row
  delete_row p s = delete_found (first p s.rows) (delete_rows p s).1 s

  pub delete_row-DeletesOne :
      (p : Row → Bool) (s : Table Row)
      → DeletesOne p s.rows (delete_row p s).0 (delete_row p s).1.rows
        × (s.next_id ≤ (delete_row p s).1.next_id)
  delete_row-DeletesOne p s = go (first p s.rows) (first-Finds p s.rows)
    where
      go :
          (o : Option Row)
          → Finds p s.rows (ok o)
          → DeletesOne p s.rows
              (delete_found o (delete_rows p s).1 s).0
              (delete_found o (delete_rows p s).1 s).1.rows
            × (s.next_id ≤ (delete_found o (delete_rows p s).1 s).1.next_id)
      go none h = ((tt, refl), omega arith)
      go (some r) (m, e) = ((m, e, refl), omega arith)

  abbrev pub memory : (clash : Row → Row → Bool) → Delegate Row clash
  memory clash = record {
    Store = Table Row;
    rows = λ s. s.rows;
    next_id = λ s. s.next_id;
    find_first = λ p s. ok (first p s.rows);
    find_many = λ p s. ok (keep p s.rows);
    delete = delete_row;
    find_many_lem = λ p s. keep-FindsMany p s.rows;
    delete_lem = delete_row-DeletesOne;
    create = create_row clash;
    update_many = update_rows;
    update = update_row;
    delete_many = delete_rows;
    find_first_lem = λ p s. first-Finds p s.rows;
    create_lem = create_row-Creates clash;
    update_many_lem = λ p f s. ((refl, refl), omega arith);
    update_lem = update_row-UpdatesOne;
    delete_many_lem = λ p s. ((refl, refl), omega arith);
  }

module _ {S : Type 0} (Same : S → S → Type 0) (same_self : (s : S) → Same s s) where
  abbrev pub commit_or_restore : {V A : Type 0} → S → Outcome A × (S × V) → Outcome A × (S × V)
  commit_or_restore s (ok a, u) = (ok a, u)
  commit_or_restore s (err e, u) = (err e, (s, u.1))

  pub commit_or_restore-Transacts :
      {V A : Type 0} (s : S) (r : Outcome A × (S × V)) → Transacts Same s r (commit_or_restore s r)
  commit_or_restore-Transacts s (ok a, u) = inl (refl, refl)
  commit_or_restore-Transacts s (err e, u) = (refl, same_self s, refl)

  abbrev pub committing : Transactor S Same
  committing = record {
    transact = λ V A m u. commit_or_restore u.0 (m u);
    transact_lem = λ V A m s v. commit_or_restore-Transacts s (m (s, v));
  }
