-- ===== src/Email/Tests.antt =====
-- The escaping at concrete texts, and the worker with a sender that keeps the mails.
use mathlib.Core.List.{Memᴰ}
use realworld_tutorial.Base.{
  ◌≡◌, refl, false, All, codes, List, [], ◌∷◌, ◌++◌, append_one, Codes, M, ok,
}
use realworld_tutorial.Email.{replace_all, escape_html}
use realworld_tutorial.Email.Worker.{
  SendMailOptions, EmailJobHandler, article_notification_handler,
  provider_link_confirmation_handler, register_all,
}
use realworld_tutorial.Email.Worker.Delivery.{Processes, process_lem}
use realworld_tutorial.Email.Escaping.{is_markup, decode, decode-escape_html}

escaped : escape_html (codes "a&<'") ≡ codes "a&amp;&lt;&#39;"
unfolding escape_html replace_all
escaped = refl

decode-escape_html_example :
    (decode (escape_html (codes "a&<b>")) ≡ codes "a&<b>")
    × All (λ d. is_markup d ≡ false) (escape_html (codes "a&<b>"))
decode-escape_html_example = decode-escape_html (codes "a&<b>")

-- A sender that keeps what it is given, and a URL that ends with the token.
abbrev post : SendMailOptions → M (List SendMailOptions) (Unit {0})
post o sent = (ok tt, append_one sent o)

abbrev confirm_link : Codes → Codes
confirm_link token = codes "https://a.test/?token=" ++ token

abbrev both : List EmailJobHandler
both = article_notification_handler ∷ provider_link_confirmation_handler ∷ []

both-mem : (h : EmailJobHandler) → Memᴰ h both
both-mem article_notification_handler = Memᴰ.head refl
both-mem provider_link_confirmation_handler = Memᴰ.tail (Memᴰ.head refl)

process_lem_example : Processes confirm_link post (register_all both []) 5 []
process_lem_example = process_lem confirm_link post both 5 [] both-mem
