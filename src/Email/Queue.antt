-- ===== src/Email/Queue.antt =====
-- src/email/email-queue.producer.ts with the jobs of src/email/interfaces, and what it relies on of the
-- queue of BullMQ, which is not part of the repository: the jobs that wait, and `add`.
pub mod JobIds
pub mod Growth
pub mod Memory
use realworld_tutorial.Base.{
  ℕ, ◌≡◌, ◌⊎◌, Bool, true, List, ◌++◌, append_one, some_is, if◌then◌else◌, Codes, codes, codes_eq,
  Outcome, ok, err, M,
}
use realworld_tutorial.Base.Decimal.{decimal}
use realworld_tutorial.Base.Prisma.{IsDatabase}

pub record ProviderLinkConfirmationJob : Type 0 where
  pub pending_id : ℕ
  pub recipient : Codes
  pub raw_token : Codes
  pub expires_at : ℕ

pub record ArticleNotificationJob : Type 0 where
  pub to : Codes
  pub recipient_username : Codes
  pub subject : Codes
  pub body : Codes
  pub event_type : Codes
  pub article_id : ℕ
  pub recipient_id : ℕ

pub record EnqueueProviderLinkEmail : Type 0 where
  pub job : ProviderLinkConfirmationJob
  pub token_hash_prefix : Codes

pub data JobData : Type 0 where
  link_confirmation : ProviderLinkConfirmationJob → JobData
  article_notification : ArticleNotificationJob → JobData

pub record JobOptions : Type 0 where
  pub attempts : ℕ
  pub backoff_type : Codes
  pub backoff_delay : ℕ
  pub job_id : Codes
  pub remove_on_complete : Bool
  pub failed_job_age : ℕ
  pub failed_job_max_count : ℕ

pub record Job : Type 0 where
  pub name : Codes
  pub payload : JobData
  pub opts : JobOptions

abbrev pub auth_provider_link_confirmation_job : Codes
auth_provider_link_confirmation_job = codes "auth-provider-link-confirmation"

abbrev pub email_job_id_prefix : Codes
email_job_id_prefix = codes "google-link-"

abbrev pub article_notification_job : Codes
article_notification_job = codes "article-notification"

abbrev pub article_notification_job_id_prefix : Codes
article_notification_job_id_prefix = codes "article-notification-"

abbrev pub event_article_favorited : Codes
event_article_favorited = codes "article.favorited"

abbrev pub event_article_created : Codes
event_article_created = codes "article.created"

-- The options of every job, with `EMAIL_QUEUE_ATTEMPTS` and the other constants.
abbrev pub email_job_options : Codes → JobOptions
email_job_options job_id = record {
  attempts = 3;
  backoff_type = codes "exponential";
  backoff_delay = 5000;
  job_id = job_id;
  remove_on_complete = true;
  failed_job_age = 86400;
  failed_job_max_count = 1000;
}

abbrev pub has_job_id : Codes → List Job → Bool
has_job_id job_id jobs = some_is (λ (j : Job). codes_eq j.opts.job_id job_id) jobs

-- A job whose id the queue has is not added again.
abbrev pub with_job : Job → List Job → List Job
with_job job jobs = if has_job_id job.opts.job_id jobs then jobs else append_one jobs job

-- `add`. Where it fails, the job may have been added all the same.
abbrev pub AddsJob : Job → List Job → Outcome (Unit {0}) → List Job → Type 0
AddsJob job before (ok _) after = after ≡ with_job job before
AddsJob job before (err e) after = IsDatabase e × ((after ≡ before) ⊎ (after ≡ with_job job before))

pub record MailQueue : Type 1 where
  pub Store : Type 0
  pub jobs : Store → List Job
  pub add : Job → M Store (Unit {0})
  pub add_lem : (job : Job) (s : Store) → AddsJob job (jobs s) (add job s).0 (jobs (add job s).1)

unfoldable pub link_confirmation_job_id : EnqueueProviderLinkEmail → Codes
link_confirmation_job_id input =
    email_job_id_prefix ++ (decimal input.job.pending_id ++ (codes "-" ++ input.token_hash_prefix))

unfoldable pub article_notification_job_id : ArticleNotificationJob → Codes
article_notification_job_id input =
    article_notification_job_id_prefix
    ++ (input.event_type
        ++ (codes "-" ++ (decimal input.article_id ++ (codes "-" ++ decimal input.recipient_id))))

abbrev pub link_confirmation_mail : EnqueueProviderLinkEmail → Job
link_confirmation_mail input = record {
  name = auth_provider_link_confirmation_job;
  payload = link_confirmation input.job;
  opts = email_job_options (link_confirmation_job_id input);
}

abbrev pub article_notification_mail : ArticleNotificationJob → Job
article_notification_mail input = record {
  name = article_notification_job;
  payload = article_notification input;
  opts = email_job_options (article_notification_job_id input);
}

module _ (q : MailQueue) where
  abbrev pub enqueue_provider_link_confirmation : EnqueueProviderLinkEmail → M q.Store (Unit {0})
  enqueue_provider_link_confirmation input = q.add (link_confirmation_mail input)

  abbrev pub enqueue_article_notification : ArticleNotificationJob → M q.Store (Unit {0})
  enqueue_article_notification input = q.add (article_notification_mail input)
