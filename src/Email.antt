-- ===== src/Email.antt =====
-- src/email/provider-link-email-template.service.ts: the escaping of a text that is put into a page.
pub mod Escaping
pub mod Queue
pub mod Template
pub mod Worker
mod Tests
use realworld_tutorial.Base.{ℕ, List, [], ◌∷◌, ◌++◌, ◌==◌, if◌then◌else◌, Codes, codes}

-- `str.replace(/c/g, entity)`, for one unit and a text without `$`
unfoldable pub replace_all : ℕ → Codes → Codes → Codes
replace_all c entity [] = []
replace_all c entity (x ∷ s) =
    let rest = replace_all c entity s in if x == c then entity ++ rest else x ∷ rest

unfoldable pub escape_html : Codes → Codes
unfolding replace_all
escape_html s = replace_all 39 (codes "&#39;") (
    replace_all 34 (codes "&quot;") (
      replace_all 62 (codes "&gt;")
        (replace_all 60 (codes "&lt;") (replace_all 38 (codes "&amp;") s))))
