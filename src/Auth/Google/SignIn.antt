-- ===== src/Auth/Google/SignIn.antt =====
-- Whom a sign-in with Google lets through to the accounts, and what it answers.
use realworld_tutorial.Base.{
  String, ◌≡◌, ◌≢◌, refl, sym, ap, ◌∙◌, ◌↔◌, ◌⊎◌, inl, inr, true, false, Bool-cases, Option, none,
  some, List, [], ◌∷◌, arith, str_eq, eq_iff, Outcome, ok, err, M, pure, ◌>>=◌,
}
use realworld_tutorial.Auth.Resolver.{
  VerifiedIdentity, OauthCallbackResult, authenticated, confirmation_pending,
}
use realworld_tutorial.Auth.Google.{
  Claim, claim_bool, claim_text, no_claim, GoogleEmail, GoogleProfile, Exchange, exchange_failed,
  fetched, GoogleAnswer, is_verified, primary_email, not_completed, validate_primary,
  handle_request, can_activate, answer_with, callback,
}

-- Google says that the address is verified.
abbrev pub IsVouchedFor : Claim → Type 0
IsVouchedFor c = (c ≡ claim_bool true) ⊎ (c ≡ claim_text "true")

is_verified_iff : (c : Claim) → (is_verified c ≡ true) ↔ IsVouchedFor c
is_verified_iff (claim_bool true) = (λ e. inl refl, λ h. refl)
is_verified_iff (claim_bool false) = (λ e. cc, λ h. elim h [ inl e ↦ cc | inr e ↦ cc ])
is_verified_iff (claim_text s) = (
  λ e. inr (ap claim_text ((eq_iff s "true").0 e)),
  λ h. elim h [ inl e ↦ cc | inr e ↦ (eq_iff s "true").1 (cc) ],
)
is_verified_iff no_claim = (λ e. cc, λ h. elim h [ inl e ↦ cc | inr e ↦ cc ])

fetched_injective : (p q : GoogleProfile) → fetched p ≡ fetched q → p ≡ q
fetched_injective p q e = cc

module _ (tidy : String → String) where
  -- The exchange gave a profile whose first address is not empty, and this is its identity.
  pub record IsAccepted (x : Exchange) (i : VerifiedIdentity) : Type 0 where
    pub profile : GoogleProfile
    pub primary : GoogleEmail
    pub others : List GoogleEmail
    pub exchanged : x ≡ fetched profile
    pub listed : profile.emails ≡ some (primary ∷ others)
    pub addressed : primary.value ≢ ""
    pub provider : i.identifier.provider ≡ "google"
    pub account : i.identifier.provider_account_id ≡ profile.id
    pub address : i.email ≡ tidy primary.value
    pub verified : (i.email_verified ≡ true) ↔ IsVouchedFor primary.verified

  abbrev pub Admits : Exchange → Outcome VerifiedIdentity → Type 0
  Admits x (ok i) = IsAccepted x i
  Admits x (err e) = ((i : VerifiedIdentity) → IsAccepted x i → ⊥) × (e ≡ not_completed)

  can_activate-Admits : (x : Exchange) → Admits x (can_activate tidy x)
  can_activate-Admits exchange_failed = (λ i a. let e = a.exchanged in absurd (cc), refl)
  can_activate-Admits (fetched p) = go p.emails refl
    where
      same : {i : VerifiedIdentity} (a : IsAccepted (fetched p) i) → a.profile.emails ≡ p.emails
      same a =
          ap (λ (q : GoogleProfile). q.emails) (sym (fetched_injective p a.profile a.exchanged))

      apart :
          {es : Option (List GoogleEmail)} {e : GoogleEmail} {l : List GoogleEmail}
          → es ≡ some (e ∷ l)
          → es ≡ none
          → ⊥
      apart h k = absurd (cc)

      apart_nil :
          {es : Option (List GoogleEmail)} {e : GoogleEmail} {l : List GoogleEmail}
          → es ≡ some (e ∷ l)
          → es ≡ some []
          → ⊥
      apart_nil h k = absurd (cc)

      first :
          {es : Option (List GoogleEmail)} {e m : GoogleEmail} {l ms : List GoogleEmail}
          → es ≡ some (e ∷ l)
          → es ≡ some (m ∷ ms)
          → e.value ≡ m.value
      first h k = cc

      go :
          (es : Option (List GoogleEmail))
          → p.emails ≡ es
          → Admits (fetched p) (handle_request tidy (validate_primary tidy p (primary_email es)))
      go none f = (λ i a. apart a.listed (same a ∙ f), refl)
      go (some []) f = (λ i a. apart_nil a.listed (same a ∙ f), refl)
      go (some (m ∷ ms)) f = elim (Bool-cases (str_eq m.value "")) [
        | inl e ↦
            rw e (λ i a. a.addressed (first a.listed (same a ∙ f) ∙ (eq_iff m.value "").0 e), refl)
        | inr e ↦ rw e (record {
          profile = p;
          primary = m;
          others = ms;
          exchanged = refl;
          provider = refl;
          listed = f;
          addressed = λ n. let y = (eq_iff m.value "").1 n in absurd (cc);
          account = refl;
          address = refl;
          verified = is_verified_iff m.verified;
        })
      ]

  module _ {S : Type 0} (handle_oauth_callback : VerifiedIdentity → M S OauthCallbackResult)
      (s : S) where
    -- What a sign-in that ends in a certain way has done.
    abbrev pub SignsIn : Exchange → Outcome GoogleAnswer × S → Type 0
    SignsIn x (ok a, t) =
        (i : VerifiedIdentity) × IsAccepted x i
        × (handle_oauth_callback i s ≡ (ok a.result, t))
        × ((a.status ≡ 202) ↔ (a.result ≡ confirmation_pending))
        × ((a.status ≡ 200) ⊎ (a.status ≡ 202))
    SignsIn x (err e, t) =
        (((i : VerifiedIdentity) → IsAccepted x i → ⊥) × (e ≡ not_completed) × (t ≡ s))
        ⊎ ((i : VerifiedIdentity) × IsAccepted x i × (handle_oauth_callback i s ≡ (err e, t)))

    -- A sign-in comes to the accounts only if the exchange gave a profile whose first address is not
    -- empty, with the identity of that profile and address, as verified just if Google says so. It
    -- answers what they answer, with the status 202 just if a confirmation is pending, and 200 else,
    -- and throws what they throw. Any other sign-in is refused with the one 401 and changes nothing.
    pub callback_lem : (x : Exchange) → SignsIn x (callback tidy handle_oauth_callback x s)
    unfolding callback
    callback_lem x = go (can_activate tidy x) (can_activate-Admits x)
      where
        answered :
            (i : VerifiedIdentity)
            → IsAccepted x i
            → (y : Outcome OauthCallbackResult × S) → handle_oauth_callback i s ≡ y
            → SignsIn x (((λ (_ : S). y) >>= λ r. pure (answer_with tidy r)) s)
        answered i a (ok confirmation_pending, t) f = (i, a, f, (λ e. refl, λ e. refl), inr refl)
        answered i a (ok (authenticated resp), t) f =
            (i, a, f, (λ e. absurd (omega arith), λ e. cc), inl refl)
        answered i a (err e, t) f = inr (i, a, f)

        go :
            (y : Outcome VerifiedIdentity)
            → Admits x y
            → SignsIn x (
                ((λ (_ : S). (y, s)) >>= λ i.
                handle_oauth_callback i >>= λ r. pure (answer_with tidy r))
                  s)
        go (err e) (h, f) = inl (h, f, refl)
        go (ok i) a = answered i a (handle_oauth_callback i s) refl
