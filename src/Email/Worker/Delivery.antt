-- ===== src/Email/Worker/Delivery.antt =====
-- What the worker does with a job.
use mathlib.Core.List.{Memᴰ}
use realworld_tutorial.Base.{
  ℕ, ◌≤◌, ◌<◌, ◌≡◌, ◌≢◌, refl, sym, ◌∙◌, subst, inl, inr, true, false, Bool-cases, none, some, List,
  [], ◌∷◌, arith, if◌then◌else◌, leb, ◌++◌, Codes, codes, codes_eq, codes_eq_iff, error, Outcome,
  ok, err, M,
}
use realworld_tutorial.Email.{escape_html}
use realworld_tutorial.Email.Template.{join_lines, build_provider_link_email_html}
use realworld_tutorial.Email.Template.Markup.{markup, build_provider_link_email_html-markup}
use realworld_tutorial.Email.Queue.{
  Job, EnqueueProviderLinkEmail, ArticleNotificationJob, article_notification_mail,
  link_confirmation_mail, article_notification_job_id, link_confirmation_job_id,
}
use realworld_tutorial.Email.Worker.{
  SendMailOptions, EmailJobHandler, article_notification_handler,
  provider_link_confirmation_handler, job_name, Registry, register, get, register_all, text_above,
  text_below, render, deliver, confirmation_mail, process,
}

-- A registry finds the handler that was registered last under a name.
get-register :
    (name : Codes) (h : EmailJobHandler) (r : Registry)
    → get name (register h r) ≡ (if codes_eq (job_name h) name then some h else get name r)
get-register name h [] = refl
get-register name h ((n, g) ∷ r) = ground (
  arith,
  codes_eq_iff n (job_name h),
  codes_eq_iff (job_name h) name,
  codes_eq_iff n name,
  get-register name h r,
)

get-register_self : (h : EmailJobHandler) (r : Registry) → get (job_name h) (register h r) ≡ some h
get-register_self h r =
    rw (get-register (job_name h) h r, (codes_eq_iff (job_name h) (job_name h)).1 refl) refl

get-register_keeps :
    (g h : EmailJobHandler) (r : Registry)
    → get (job_name h) r ≡ some h
    → get (job_name h) (register g r) ≡ some h
get-register_keeps article_notification_handler article_notification_handler r e =
    get-register_self article_notification_handler r
get-register_keeps article_notification_handler provider_link_confirmation_handler r e =
    get-register (job_name provider_link_confirmation_handler) article_notification_handler r ∙ e
get-register_keeps provider_link_confirmation_handler article_notification_handler r e =
    get-register (job_name article_notification_handler) provider_link_confirmation_handler r ∙ e
get-register_keeps provider_link_confirmation_handler provider_link_confirmation_handler r e =
    get-register_self provider_link_confirmation_handler r

get-register_all_keeps :
    (hs : List EmailJobHandler) (h : EmailJobHandler) (r : Registry)
    → get (job_name h) r ≡ some h
    → get (job_name h) (register_all hs r) ≡ some h
get-register_all_keeps [] h r e = e
get-register_all_keeps (g ∷ hs) h r e =
    get-register_all_keeps hs h (register g r) (get-register_keeps g h r e)

-- Each handler that has been registered, in whatever order, is found under its name.
get-register_all :
    (hs : List EmailJobHandler) (h : EmailJobHandler) (r : Registry)
    → Memᴰ h hs
    → get (job_name h) (register_all hs r) ≡ some h
get-register_all [] h r m = elim m [ ]
get-register_all (g ∷ hs) h r (Memᴰ.head e) =
    get-register_all_keeps hs h (register g r)
      (subst (λ k. get (job_name h) (register k r) ≡ some h) e (get-register_self h r))
get-register_all (g ∷ hs) h r (Memᴰ.tail m) = get-register_all hs h (register g r) m

get-register_all-none :
    (hs : List EmailJobHandler) (name : Codes) (r : Registry)
    → ((h : EmailJobHandler) → name ≢ job_name h)
    → get name r ≡ none
    → get name (register_all hs r) ≡ none
get-register_all-none [] name r other e = e
get-register_all-none (g ∷ hs) name r other e =
    get-register_all-none hs name (register g r) other
      (elim (Bool-cases (codes_eq (job_name g) name)) [
        | inl b ↦ absurd (other g (sym ((codes_eq_iff (job_name g) name).0 b)))
        | inr b ↦ get-register name g r ∙ rw b e
      ])

module _ (confirm_link : Codes → Codes) {S : Type 0} (send : SendMailOptions → M S (Unit {0})) where
  deliver-eq : (o : SendMailOptions) (s : S) → deliver confirm_link send o s ≡ send o s
  deliver-eq o s = go (send o s)
    where
      go :
          (y : Outcome (Unit {0}) × S)
          → (elim y.0 as (λ _. Outcome (Unit {0}) × S) [
            | ok a ↦ (ok a, y.1)
            | err e ↦ (err e, y.1)
          ])
            ≡ y
      go (ok a, t) = refl
      go (err e, t) = refl

  -- A mail to the recipient of a link, with the link.
  pub record IsConfirmation (x : EnqueueProviderLinkEmail) (o : SendMailOptions) : Type 0 where
    pub to : o.to ≡ some x.job.recipient
    pub above : Codes
    pub below : Codes
    pub text : o.text ≡ some (above ++ (confirm_link x.job.raw_token ++ below))
    pub html : Codes
    pub page : o.html ≡ some html
    pub same_markup : markup html ≡ markup (build_provider_link_email_html [])
    pub job_id : o.job_id ≡ some (link_confirmation_job_id x)

  abbrev pub notifies : ArticleNotificationJob → SendMailOptions
  notifies n = record {
    to = some n.to;
    subject = some n.subject;
    text = some n.body;
    html = none;
    job_id = some (article_notification_job_id n);
  }

  -- What the processing of a job comes to.
  pub record Processes (registry : Registry) (now : ℕ) (s : S) : Type 0 where
    pub expired :
        (x : EnqueueProviderLinkEmail)
        → x.job.expires_at ≤ now
        → process confirm_link send registry now (link_confirmation_mail x) s ≡ (ok tt, s)
    pub in_time :
        (x : EnqueueProviderLinkEmail)
        → now < x.job.expires_at
        → (o : SendMailOptions) × IsConfirmation x o
          × (process confirm_link send registry now (link_confirmation_mail x) s ≡ send o s)
    pub notification :
        (n : ArticleNotificationJob)
        → process confirm_link send registry now (article_notification_mail n) s
          ≡ send (notifies n) s
    pub unknown :
        (job : Job)
        → ((h : EmailJobHandler) → job.name ≢ job_name h)
        → process confirm_link send registry now job s ≡ (err (error "Unknown job name"), s)

  -- With both handlers registered, in whatever order, the worker sends nothing for a link that has
  -- expired, and before that one mail, to the recipient of the link and with the link in its text; the
  -- markup of its page is that of the template, whatever the link. For a notification it sends one
  -- mail with the notification's text, and for a job with another name it throws and sends nothing.
  -- What the sender throws is thrown, so that the queue can try again.
  pub process_lem :
      (hs : List EmailJobHandler) (now : ℕ) (s : S)
      → ((h : EmailJobHandler) → Memᴰ h hs)
      → Processes (register_all hs []) now s
  unfolding process render
  process_lem hs now s all = record {
    expired = λ x late.
        rw
          (get-register_all hs provider_link_confirmation_handler []
            (all provider_link_confirmation_handler))
          (let e : leb x.job.expires_at now ≡ true = ground arith in rw e refl);
    in_time = λ x early. (
      confirmation_mail confirm_link send (link_confirmation_mail x),
      record {
        to = refl;
        above = join_lines text_above ++ codes "\n";
        below = codes "\n" ++ join_lines text_below;
        text = refl;
        html = build_provider_link_email_html (escape_html (confirm_link x.job.raw_token));
        page = refl;
        same_markup = build_provider_link_email_html-markup (confirm_link x.job.raw_token);
        job_id = refl;
      },
      rw
          (get-register_all hs provider_link_confirmation_handler []
            (all provider_link_confirmation_handler))
          (let e : leb x.job.expires_at now ≡ false = ground arith in
            rw e (deliver-eq (confirmation_mail confirm_link send (link_confirmation_mail x)) s)),
    );
    notification = λ n.
        rw (get-register_all hs article_notification_handler [] (all article_notification_handler))
          (deliver-eq (notifies n) s);
    unknown = λ job other. rw (get-register_all-none hs job.name [] other refl) refl;
  }
