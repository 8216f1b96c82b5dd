-- ===== src/Email/Worker.antt =====
-- The worker of the mail queue: src/email/email.processor.ts, email-job.registry.ts and the handlers, with
-- provider-link-email-template.service.ts. The sender of mails and the URL's query are parameters. What
-- a job of another kind does not have is undefined.
pub mod Delivery
use realworld_tutorial.Base.{
  ℕ, Bool, false, Option, none, some, List, [], ◌∷◌, ◌++◌, leb, if◌then◌else◌, Codes, codes,
  codes_eq, Exception, error, M, pure, throw, catch_with, ◌>>=◌,
}
use realworld_tutorial.Email.{escape_html}
use realworld_tutorial.Email.Template.{join_lines, build_provider_link_email_html}
use realworld_tutorial.Email.Queue.{
  Job, JobData, link_confirmation, article_notification, ProviderLinkConfirmationJob,
  ArticleNotificationJob, article_notification_job, auth_provider_link_confirmation_job,
}

pub record SendMailOptions : Type 0 where
  pub to : Option Codes
  pub subject : Option Codes
  pub text : Option Codes
  pub html : Option Codes
  pub job_id : Option Codes

pub record ProviderLinkEmailContent : Type 0 where
  pub subject : Codes
  pub text : Codes
  pub html : Codes

pub data EmailJobHandler : Type 0 where
  article_notification_handler provider_link_confirmation_handler : EmailJobHandler

abbrev pub job_name : EmailJobHandler → Codes
job_name article_notification_handler = article_notification_job
job_name provider_link_confirmation_handler = auth_provider_link_confirmation_job

-- `handlers`, a map from names.
abbrev pub Registry : Type 0
Registry = List (Codes × EmailJobHandler)

abbrev pub register : EmailJobHandler → Registry → Registry
register h [] = (job_name h, h) ∷ []
register h ((name, g) ∷ r) =
    let rest = register h r in
    if codes_eq name (job_name h) then (name, h) ∷ r else (name, g) ∷ rest

abbrev pub get : Codes → Registry → Option EmailJobHandler
get job_name [] = none
get job_name ((name, h) ∷ r) =
    let rest = get job_name r in if codes_eq name job_name then some h else rest

-- `onModuleInit` of some handlers, one after another.
abbrev pub register_all : List EmailJobHandler → Registry → Registry
register_all [] r = r
register_all (h ∷ hs) r = register_all hs (register h r)

abbrev pub notification_field : (ArticleNotificationJob → Codes) → JobData → Option Codes
notification_field f (article_notification n) = some (f n)
notification_field f (link_confirmation d) = none

abbrev pub link_field {ℓ} : {A : Type ℓ} → (ProviderLinkConfirmationJob → A) → JobData → Option A
link_field f (link_confirmation d) = some (f d)
link_field f (article_notification n) = none

-- `Date.now() >= new Date(expiresAt).getTime()`, which no time passes that is not a number.
abbrev pub is_expired : ℕ → Option ℕ → Bool
is_expired now none = false
is_expired now (some expires_at) = leb expires_at now

-- `String(x)`
abbrev pub shown : Option Codes → Codes
shown none = codes "undefined"
shown (some s) = s

-- The lines of the text above the link, and those below it.
abbrev pub text_above : List Codes
text_above =
    codes "Conduit - Confirm your Google account link"
    ∷ []
    ∷ (codes "We received a request to sign in with Google using this email address for your "
        ++ codes "Conduit account.")
    ∷ codes "Your existing password has not been changed and remains secure."
    ∷ []
    ∷ codes "Confirm the link within 15 minutes:"
    ∷ []

abbrev pub text_below : List Codes
text_below =
    []
    ∷ codes "If you did not make this request, you can safely ignore this email."
    ∷ codes "Your Conduit account and password remain completely secure."
    ∷ []

module _ (confirm_link : Codes → Codes) where
  unfoldable pub render : Codes → ProviderLinkEmailContent
  render raw_token = record {
    subject = codes "Confirm your Google account link";
    text = join_lines (text_above ++ (confirm_link raw_token ∷ text_below));
    html = build_provider_link_email_html (escape_html (confirm_link raw_token));
  }

  module _ {S : Type 0} (send : SendMailOptions → M S (Unit {0})) where
    -- What the sender throws is logged and thrown again.
    abbrev pub deliver : SendMailOptions → M S (Unit {0})
    deliver options = catch_with (send options) throw

    abbrev pub notification_mail : Job → SendMailOptions
    notification_mail job = record {
      to = notification_field (λ n. n.to) job.payload;
      subject = notification_field (λ n. n.subject) job.payload;
      text = notification_field (λ n. n.body) job.payload;
      html = none;
      job_id = some job.opts.job_id;
    }

    abbrev pub confirmation_mail : Job → SendMailOptions
    confirmation_mail job =
        let template = render (shown (link_field (λ d. d.raw_token) job.payload)) in
        record {
          to = link_field (λ d. d.recipient) job.payload;
          subject = some template.subject;
          text = some template.text;
          html = some template.html;
          job_id = some job.opts.job_id;
        }

    abbrev pub handle : EmailJobHandler → ℕ → Job → M S (Unit {0})
    handle article_notification_handler now job = deliver (notification_mail job)
    handle provider_link_confirmation_handler now job =
        if is_expired now (link_field (λ d. d.expires_at) job.payload)
        then pure tt
        else deliver (confirmation_mail job)

    abbrev pub handle_with : Option EmailJobHandler → ℕ → Job → M S (Unit {0})
    handle_with none now job = throw (error "Unknown job name")
    handle_with (some h) now job = handle h now job

    unfoldable pub process : Registry → ℕ → Job → M S (Unit {0})
    process registry now job = handle_with (get job.name registry) now job
