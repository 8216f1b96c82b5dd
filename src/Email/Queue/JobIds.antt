-- ===== src/Email/Queue/JobIds.antt =====
-- The ids of the jobs tell the jobs apart.
use mathlib.Core.List
use realworld_tutorial.Base.{
  ℕ, ◌<◌, ◌≡◌, true, refl, [], ◌∷◌, ◌++◌, arith, Codes, codes, All, All-imp,
}
use realworld_tutorial.Base.Decimal.{decimal, decimal_injective, decimal-IsDigits, is_digit}
use realworld_tutorial.Email.Queue.{
  ArticleNotificationJob, EnqueueProviderLinkEmail, article_notification_job_id,
  link_confirmation_job_id, article_notification_job_id_prefix,
}

-- Every unit stands behind the dash in the table of the units.
abbrev pub AfterDash : Codes → Type 0
AfterDash s = All (λ c. 45 < c) s

-- What stands before the first dash is the same in equal texts.
split_at_dash :
    (s t u v : Codes)
    → AfterDash s
    → AfterDash t
    → s ++ (codes "-" ++ u) ≡ t ++ (codes "-" ++ v)
    → (s ≡ t) × (u ≡ v)
split_at_dash [] [] u v h k e = (refl, List.tail-eq_of_cons-eq e)
split_at_dash [] (d ∷ t) u v h (k, ks) e = let f = List.head-eq_of_cons-eq e in absurd (omega arith)
split_at_dash (c ∷ s) [] u v (h, hs) k e = let f = List.head-eq_of_cons-eq e in absurd (omega arith)
split_at_dash (c ∷ s) (d ∷ t) u v (h, hs) (k, ks) e =
    let (p, r) = split_at_dash s t u v hs ks (List.tail-eq_of_cons-eq e) in
    let f = List.head-eq_of_cons-eq e in (cc, r)

decimal-AfterDash : (n : ℕ) → AfterDash (decimal n)
decimal-AfterDash n =
    All-imp (λ c. is_digit c ≡ true) (λ c. 45 < c) (decimal n) (λ c h. ground arith)
      (decimal-IsDigits n)

-- Two notifications with one job id are about one event of one article, for one recipient.
pub article_notification_job_id_injective :
    (x y : ArticleNotificationJob)
    → AfterDash x.event_type
    → AfterDash y.event_type
    → article_notification_job_id x ≡ article_notification_job_id y
    → (x.event_type ≡ y.event_type)
      × (x.article_id ≡ y.article_id)
      × (x.recipient_id ≡ y.recipient_id)
unfolding article_notification_job_id
article_notification_job_id_injective x y h k e =
    let (t, f) =
      split_at_dash x.event_type y.event_type
        (decimal x.article_id ++ (codes "-" ++ decimal x.recipient_id))
        (decimal y.article_id ++ (codes "-" ++ decimal y.recipient_id)) h k
        (List.append_cancel_left article_notification_job_id_prefix
          (x.event_type
            ++ (codes "-" ++ (decimal x.article_id ++ (codes "-" ++ decimal x.recipient_id))))
          (y.event_type
            ++ (codes "-" ++ (decimal y.article_id ++ (codes "-" ++ decimal y.recipient_id))))
          e) in
    let (a, r) =
      split_at_dash (decimal x.article_id) (decimal y.article_id) (decimal x.recipient_id)
        (decimal y.recipient_id) (decimal-AfterDash x.article_id) (decimal-AfterDash y.article_id)
        f in
    (
      t,
      decimal_injective x.article_id y.article_id a,
      decimal_injective x.recipient_id y.recipient_id r,
    )

-- No notification has the job id of a link's mail.
pub job_ids_apart :
    (x : ArticleNotificationJob) (y : EnqueueProviderLinkEmail)
    → article_notification_job_id x ≡ link_confirmation_job_id y
    → ⊥
unfolding article_notification_job_id link_confirmation_job_id
job_ids_apart x y e = let f = List.head-eq_of_cons-eq e in absurd (omega arith)
