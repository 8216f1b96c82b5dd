-- ===== src/Email/Template/Markup.antt =====
-- The page of a link's mail has the markup of its template, whatever the URL.
use realworld_tutorial.Base.{
  ◌≡◌, refl, ap, false, [], ◌∷◌, ◌++◌, All, keep, Bool-cases, inl, inr, Codes,
}
use realworld_tutorial.Email.{escape_html}
use realworld_tutorial.Email.Escaping.{is_markup, decode-escape_html}
use realworld_tutorial.Email.Template.{build_provider_link_email_html}

keep-append : (s t : Codes) → keep is_markup (s ++ t) ≡ keep is_markup s ++ keep is_markup t
keep-append [] t = refl
keep-append (c ∷ s) t = elim (Bool-cases (is_markup c)) [
  | inl e ↦ rw e (ap (λ r. c ∷ r) (keep-append s t))
  | inr e ↦ rw e (keep-append s t)
]

keep-plain : (s : Codes) → All (λ c. is_markup c ≡ false) s → keep is_markup s ≡ []
keep-plain [] h = refl
keep-plain (c ∷ s) (e, h) = rw e (keep-plain s h)

-- The angle brackets and quotes of the page, in their order.
abbrev pub markup : Codes → Codes
markup s = keep is_markup s

pub build_provider_link_email_html-markup :
    (url : Codes)
    → markup (build_provider_link_email_html (escape_html url))
      ≡ markup (build_provider_link_email_html [])
unfolding build_provider_link_email_html
build_provider_link_email_html-markup url =
    simp (keep-append, keep-plain (escape_html url) ((decode-escape_html url).1)) refl
