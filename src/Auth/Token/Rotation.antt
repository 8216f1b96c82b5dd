-- ===== src/Auth/Token/Rotation.antt =====
-- What further requests do to a refresh token that was exchanged.
use mathlib.Core.List.{Memᴰ}
use realworld_tutorial.Base.{
  ℕ, ◌<◌, String, ◌≡◌, sym, ap, ◌∙◌, subst, ◌≢◌, inl, inr, and_true, none, arith, ◌==◌, is_none, ok,
  All, All-of_mem, All-mem, All-map, append_one, keep_pos, mem-append_one_inv,
}
use realworld_tutorial.Base.Prisma.{Delegate, Transactor, patch}
use realworld_tutorial.Auth.Token.{
  RefreshTokenRow, TokenPair, clash, Same, Draws, is_unused, set_replaced, issue_tokens, exchange,
  rotate, revoke, remove_expired_tokens,
}
use realworld_tutorial.Auth.Token.Evolution.{Evolves, Evolves-refl, Evolves-trans}
use realworld_tutorial.Auth.Token.Operations.{
  exchange-Evolves, issue_tokens-Evolves, rotate-Evolves, revoke-Evolves, remove_expired-Evolves,
}
use realworld_tutorial.Auth.Token.Exchange.{Exchanged, exchange-Exchanged}

module _ (db : Delegate RefreshTokenRow clash) where
  open db use {Store, rows, next_id}

  -- Every row with the id `n`, which has been drawn, is marked as replaced.
  pub record Spent (n : ℕ) (s : Store) : Type 0 where
    pub drawn : n < next_id s
    pub replaced : All (λ r. r.id ≡ n → r.replaced_by_id ≢ none) (rows s)

  pub Evolves-Spent : (n : ℕ) (s t : Store) → Evolves db s t → Spent n s → Spent n t
  Evolves-Spent n s t e h = record {
    drawn = omega (arith, e.next, h.drawn);
    replaced = All-of_mem _ (rows t) marked;
  }
    where
      marked : (r : RefreshTokenRow) → Memᴰ r (rows t) → r.id ≡ n → r.replaced_by_id ≢ none
      marked r m is = elim (All-mem _ (rows t) r e.each m) [
        | inl new ↦ absurd (omega (arith, h.drawn))
        | inr (q, mq, g) ↦
            let was = All-mem _ (rows s) q h.replaced mq (sym g.same_id ∙ is) in
            λ e'. was (sym (g.keeps_replaced was) ∙ e')
      ]

  module _ (hash : String → String) (sign : ℕ → String) (ttl_days : ℕ)
      (tx : Transactor Store (Same db)) where
    -- One request to the token service, or the part of a rotation that follows its checks.
    pub data ServiceStep : Store → Store → Type 0 where
      issues :
          (uid : ℕ) (d : Draws) (s : Store)
          → ServiceStep s (issue_tokens db hash sign ttl_days uid d s).1
      rotates :
          (raw : String) (d : Draws) (s : Store)
          → ServiceStep s (rotate db hash sign ttl_days tx raw d s).1
      exchanges :
          (q : RefreshTokenRow) (d : Draws) (s : Store)
          → ServiceStep s (exchange db hash sign ttl_days tx q d s).1
      revokes : (raw : String) (now : ℕ) (s : Store) → ServiceStep s (revoke db hash raw now s).1
      cleans : (now : ℕ) (s : Store) → ServiceStep s (remove_expired_tokens db now s).1

    pub data Reaches (s : Store) : Store → Type 0 where
      here : Reaches s s
      next : {t u : Store} → Reaches s t → ServiceStep t u → Reaches s u

    ServiceStep-Evolves : {s t : Store} → ServiceStep s t → Evolves db s t
    ServiceStep-Evolves (issues uid d s) = issue_tokens-Evolves db hash sign ttl_days uid d s
    ServiceStep-Evolves (rotates raw d s) = rotate-Evolves db hash sign ttl_days tx raw d s
    ServiceStep-Evolves (exchanges q d s) = exchange-Evolves db hash sign ttl_days tx q d s
    ServiceStep-Evolves (revokes raw now s) = revoke-Evolves db hash raw now s
    ServiceStep-Evolves (cleans now s) = remove_expired-Evolves db now s

    -- Whatever requests the service handles, a row of the table is either younger than the state it
    -- began in, or it has grown out of a row of that state: its id, its user, its hash and its
    -- expiry are the same, a replacement mark is never changed, and a revocation is never undone.
    pub Reaches-Evolves : (s t : Store) → Reaches s t → Evolves db s t
    Reaches-Evolves s t here = Evolves-refl db s
    Reaches-Evolves s u (next {t = t} r st) =
        Evolves-trans db s t u (Reaches-Evolves s t r) (ServiceStep-Evolves st)

    exchange-Spent :
        (q : RefreshTokenRow) (d : Draws) (s : Store) (pair : TokenPair) (t : Store)
        → q.id < next_id s
        → exchange db hash sign ttl_days tx q d s ≡ (ok pair, t)
        → Spent q.id t
    exchange-Spent q d s pair t known e = record {
      drawn = omega (
        arith,
        known,
        (subst (λ x. Evolves db s x.1) e (exchange-Evolves db hash sign ttl_days tx q d s)).next,
      );
      replaced = rw x.listing (
          All-map _ (patch (is_unused q.id) (set_replaced x.fresh.id)) (append_one (rows s) x.fresh)
            (All-of_mem _ (append_one (rows s) x.fresh) (λ a _. marked a)));
    }
      where
        x : Exchanged db hash sign ttl_days q d s pair t
        x = exchange-Exchanged db hash sign ttl_days tx q d s pair t e

        marked :
            (a : RefreshTokenRow)
            → (patch (is_unused q.id) (set_replaced x.fresh.id) a).id ≡ q.id
            → (patch (is_unused q.id) (set_replaced x.fresh.id) a).replaced_by_id ≢ none
        marked a = ground arith

    -- A spent token cannot be exchanged: `markAsUsed` finds no row to mark.
    pub Spent-exchange :
        (q : RefreshTokenRow) (d : Draws) (s : Store)
        → Spent q.id s
        → (pair : TokenPair) (t : Store) → exchange db hash sign ttl_days tx q d s ≢ (ok pair, t)
    Spent-exchange q d s h pair t e =
        let x = exchange-Exchanged db hash sign ttl_days tx q d s pair t e in
        let (a, m, unused) = keep_pos (is_unused q.id) (append_one (rows s) x.fresh) x.was_unused in
        let (is, free) = and_true (a.id == q.id) (is_none a.replaced_by_id) unused in
        let same : a.id ≡ q.id = ground arith in
        let unmarked : a.replaced_by_id ≡ none = ground arith in
        elim (mem-append_one_inv (rows s) x.fresh a m) [
          | inl old ↦ All-mem _ (rows s) a h.replaced old same unmarked
          | inr new ↦
              let newest : a.id ≡ x.fresh.id = ap (λ (r : RefreshTokenRow). r.id) new in
              absurd (omega (arith, x.newer, h.drawn))
        ]

    -- Two requests that have both passed the checks for the same stored token: once the first has
    -- exchanged it, the second gets no tokens, whatever requests the service handles in between.
    pub exchange_once :
        (q : RefreshTokenRow) (d d' : Draws) (s t u : Store) (pair : TokenPair)
        → q.id < next_id s
        → exchange db hash sign ttl_days tx q d s ≡ (ok pair, t)
        → Reaches t u
        → (pair' : TokenPair) (v : Store) → exchange db hash sign ttl_days tx q d' u ≢ (ok pair', v)
    exchange_once q d d' s t u pair known e r =
        Spent-exchange q d' u
          (Evolves-Spent q.id t u (Reaches-Evolves t u r) (exchange-Spent q d s pair t known e))
