-- ===== src/Email/Template.antt =====
-- src/email/templates/provider-link-email-html.template.ts: the page of the mail that asks to confirm a
-- link. The text of the template stands in the three parts around the two places for the URL.
pub mod Markup
use realworld_tutorial.Base.{List, [], ◌∷◌, ◌++◌, Codes, codes}

-- `join('\n')`
abbrev pub join_lines : List Codes → Codes
join_lines [] = []
join_lines (l ∷ []) = l
join_lines (l ∷ k ∷ ls) = l ++ (10 ∷ join_lines (k ∷ ls))

unfoldable pub page_top : List Codes
page_top =
    codes "<!DOCTYPE html>"
    ∷ codes "<html lang=\"en\">"
    ∷ codes "<head>"
    ∷ codes "  <meta charset=\"UTF-8\">"
    ∷ codes "  <meta name=\"viewport\" content=\"width=device-width, initial-scale=1.0\">"
    ∷ codes "  <title>Confirm your Google account link</title>"
    ∷ codes "</head>"
    ∷ (codes "<body style=\"margin: 0; padding: 0; background-color: #f4f6f8; font-family: "
        ++ (codes "-apple-system, BlinkMacSystemFont, 'Segoe UI', Roboto, Helvetica, Arial, "
            ++ codes "sans-serif; color: #373a3c; line-height: 1.6;\">"))
    ∷ (codes "  <table role=\"presentation\" width=\"100%\" cellspacing=\"0\" cellpadding=\"0\" "
        ++ codes "style=\"background-color: #f4f6f8; padding: 32px 16px;\">")
    ∷ codes "    <tr>"
    ∷ codes "      <td align=\"center\">"
    ∷ (codes "        <table role=\"presentation\" width=\"100%\" style=\"max-width: 580px; "
        ++ (codes
              "background-color: #ffffff; border: 1px solid #e5e7eb; border-radius: 8px; overflow: "
            ++ (codes "hidden; box-shadow: 0 4px 6px -1px rgba(0, 0, 0, 0.05);\" cellspacing=\"0\" "
                ++ codes "cellpadding=\"0\">")))
    ∷ codes "          <tr>"
    ∷ (codes "            <td style=\"padding: 28px 32px; background-color: #ffffff; "
        ++ codes "border-bottom: 2px solid #5cb85c; text-align: center;\">")
    ∷ (codes "              <h1 style=\"margin: 0; font-size: 28px; font-weight: 700; color: "
        ++ codes "#5cb85c; letter-spacing: -0.5px;\">conduit</h1>")
    ∷ (codes "              <p style=\"margin: 4px 0 0 0; font-size: 13px; color: #7f8c8d; "
        ++ codes "text-transform: uppercase; letter-spacing: 1px;\">Account Security</p>")
    ∷ codes "            </td>"
    ∷ codes "          </tr>"
    ∷ codes "          <tr>"
    ∷ codes "            <td style=\"padding: 32px;\">"
    ∷ (codes "              <h2 style=\"margin: 0 0 16px 0; font-size: 20px; font-weight: 600; "
        ++ codes "color: #2c3e50;\">Confirm your Google account link</h2>")
    ∷ codes "              <p style=\"margin: 0 0 16px 0; font-size: 15px; color: #555555;\">"
    ∷ (codes "                We received a request to sign in with Google using this email "
        ++ codes "address for your Conduit account.")
    ∷ codes "              </p>"
    ∷ (codes "              <div style=\"background-color: #f8fdf8; border-left: 4px solid "
        ++ codes "#5cb85c; padding: 14px 16px; margin: 0 0 24px 0; border-radius: 0 4px 4px 0;\">")
    ∷ codes "                <p style=\"margin: 0; font-size: 14px; color: #2e6930;\">"
    ∷ (codes "                  <strong>Your account is secure:</strong> Your existing password "
        ++ (codes "has not been changed or removed. To finish linking your Google identity, please "
            ++ codes "confirm below."))
    ∷ codes "                </p>"
    ∷ codes "              </div>"
    ∷ codes "              <div style=\"text-align: center; margin: 32px 0;\">"
    ∷ codes "                <a href=\""
    ∷ []

unfoldable pub page_middle : List Codes
page_middle =
    (codes "\" target=\"_blank\" style=\"display: inline-block; background-color: #5cb85c; color: "
      ++ (codes "#ffffff; font-size: 16px; font-weight: 600; text-decoration: none; padding: 14px "
          ++ (codes
                "32px; border-radius: 6px; box-shadow: 0 2px 4px rgba(92, 184, 92, 0.3);\">Confirm "
              ++ codes "Google account</a>")))
    ∷ codes "              </div>"
    ∷ codes "              <p style=\"margin: 0 0 8px 0; font-size: 13px; color: #7f8c8d;\">"
    ∷ (codes "                This link will expire in <strong>15 minutes</strong>. If the button "
        ++ codes "above does not work, copy and paste this URL into your browser:")
    ∷ codes "              </p>"
    ∷ (codes "              <p style=\"margin: 0 0 24px 0; font-size: 12px; word-break: break-all; "
        ++ (codes
              "background-color: #f8f9fa; border: 1px solid #e9ecef; border-radius: 4px; padding: "
            ++ codes "10px; color: #495057;\">"))
    ∷ codes "                "
    ∷ []

unfoldable pub page_end : List Codes
page_end =
    codes ""
    ∷ codes "              </p>"
    ∷ (codes "              <hr style=\"border: none; border-top: 1px solid #eef0f2; margin: 24px "
        ++ codes "0;\" />")
    ∷ codes "              <p style=\"margin: 0; font-size: 13px; color: #95a5a6;\">"
    ∷ (codes "                If you did not make this request, you can safely ignore this email. "
        ++ codes "Your Conduit account and password remain completely secure.")
    ∷ codes "              </p>"
    ∷ codes "            </td>"
    ∷ codes "          </tr>"
    ∷ codes "          <tr>"
    ∷ (codes "            <td style=\"padding: 18px 32px; background-color: #fafbfc; border-top: "
        ++ codes "1px solid #edf2f7; text-align: center;\">")
    ∷ codes "              <p style=\"margin: 0; font-size: 12px; color: #a0aec0;\">"
    ∷ codes "                &copy; Conduit &bull; RealWorld Example Application"
    ∷ codes "              </p>"
    ∷ codes "            </td>"
    ∷ codes "          </tr>"
    ∷ codes "        </table>"
    ∷ codes "      </td>"
    ∷ codes "    </tr>"
    ∷ codes "  </table>"
    ∷ codes "</body>"
    ∷ codes "</html>"
    ∷ []

unfoldable pub build_provider_link_email_html : Codes → Codes
build_provider_link_email_html escaped_url =
    join_lines page_top
    ++ (escaped_url ++ (join_lines page_middle ++ (escaped_url ++ join_lines page_end)))
