-- ===== src/Email/Queue/Growth.antt =====
-- How the queue grows: what the producer adds, and that nothing is lost.
use mathlib.Core.List.{Memᴰ}
use realworld_tutorial.Base.{
  ◌≡◌, refl, sym, ap, ◌∙◌, subst, ◌⊎◌, inl, inr, List, [], ◌∷◌, map, All, All-mem, All-of_mem,
  some_is-mem, mem-append_left, mem-append_one, mem-append_one_inv, Bool-cases, codes_eq,
  codes_eq_iff, Outcome, ok, err, promise_all, cons_outcome,
}
use realworld_tutorial.Base.Prisma.{IsDatabase}
use realworld_tutorial.Email.Queue.{
  Job, ArticleNotificationJob, EnqueueProviderLinkEmail, MailQueue, AddsJob, with_job, has_job_id,
  article_notification_job_id, article_notification_mail, link_confirmation_mail,
  enqueue_article_notification,
}
use realworld_tutorial.Email.Queue.JobIds.{
  AfterDash, article_notification_job_id_injective, job_ids_apart,
}

-- A job as the producer makes it.
abbrev pub IsProduced : Job → Type 0
IsProduced j =
    ((x : EnqueueProviderLinkEmail) × (j ≡ link_confirmation_mail x))
    ⊎ ((n : ArticleNotificationJob) × (j ≡ article_notification_mail n) × AfterDash n.event_type)

-- A job waits that notifies of the same event of the same article, and the same recipient.
abbrev pub IsNotified : ArticleNotificationJob → List Job → Type 0
IsNotified n jobs =
    (m : ArticleNotificationJob) × Memᴰ (article_notification_mail m) jobs
    × (m.event_type ≡ n.event_type)
    × (m.article_id ≡ n.article_id)
    × (m.recipient_id ≡ n.recipient_id)

-- No job is lost, and each job that is new has a property.
pub record Grows (P : Job → Type 0) (before after : List Job) : Type 0 where
  pub kept : (j : Job) → Memᴰ j before → Memᴰ j after
  pub added : (j : Job) → Memᴰ j after → Memᴰ j before ⊎ P j

-- An answer means that a job for each of the notifications waits.
abbrev pub AllNotified {ℓ} :
    {A : Type ℓ} → List ArticleNotificationJob → Outcome A → List Job → Type 0
AllNotified ns (ok _) jobs = All (λ n. IsNotified n jobs) ns
AllNotified ns (err e) jobs = IsDatabase e

module _ (P : Job → Type 0) where
  pub Grows-refl : (jobs : List Job) → Grows P jobs jobs
  Grows-refl jobs = record { kept = λ j m. m; added = λ j m. inl m }

  pub Grows-trans :
      (before jobs after : List Job)
      → Grows P before jobs
      → Grows P jobs after
      → Grows P before after
  Grows-trans before jobs after g h = record {
    kept = λ j m. h.kept j (g.kept j m);
    added = λ j m. elim (h.added j m) [ inl n ↦ g.added j n | inr p ↦ inr p ];
  }

  with_job-Grows : (job : Job) → P job → (jobs : List Job) → Grows P jobs (with_job job jobs)
  with_job-Grows job p jobs = elim (Bool-cases (has_job_id job.opts.job_id jobs)) [
    | inl e ↦ rw e (Grows-refl jobs)
    | inr e ↦ rw e (record {
      kept = λ j m. mem-append_left jobs (job ∷ []) j m;
      added = λ j m. elim (mem-append_one_inv jobs job j m) [
        | inl n ↦ inl n
        | inr f ↦ inr (subst P (sym f) p)
      ];
    })
  ]

  Grows-IsProduced :
      ((j : Job) → P j → IsProduced j)
      → (before after : List Job) → Grows P before after
      → All IsProduced before
      → All IsProduced after
  Grows-IsProduced f before after g h =
      All-of_mem IsProduced after
        (λ j m. elim (g.added j m) [ inl n ↦ All-mem IsProduced before j h n | inr p ↦ f j p ])

with_job-mem :
    (job : Job) (jobs : List Job)
    → (j : Job) × Memᴰ j (with_job job jobs) × (j.opts.job_id ≡ job.opts.job_id)
with_job-mem job jobs = elim (Bool-cases (has_job_id job.opts.job_id jobs)) [
  | inl e ↦
      let (j, m, f) = some_is-mem (λ (j : Job). codes_eq j.opts.job_id job.opts.job_id) jobs e in
      rw e (j, m, (codes_eq_iff j.opts.job_id job.opts.job_id).0 f)
  | inr e ↦ rw e (job, mem-append_one jobs job, refl)
]

IsNotified-Grows :
    (P : Job → Type 0) (n : ArticleNotificationJob) (before after : List Job)
    → Grows P before after
    → IsNotified n before
    → IsNotified n after
IsNotified-Grows P n before after g (m, here, t, a, r) =
    (m, g.kept (article_notification_mail m) here, t, a, r)

-- The job with a notification's id is about the same event, article and recipient.
job_id-IsNotified :
    (n : ArticleNotificationJob) (jobs : List Job)
    → AfterDash n.event_type
    → All IsProduced jobs
    → (j : Job) × Memᴰ j jobs × (j.opts.job_id ≡ article_notification_job_id n)
    → IsNotified n jobs
job_id-IsNotified n jobs d h (j, m, e) = go (All-mem IsProduced jobs j h m)
  where
    go : IsProduced j → IsNotified n jobs
    go (inl (x, f)) = absurd (job_ids_apart n x (sym e ∙ ap (λ (k : Job). k.opts.job_id) f))
    go (inr (k, f, dk)) =
        let (t, a, r) =
          article_notification_job_id_injective k n dk d
            (sym (ap (λ (i : Job). i.opts.job_id) f) ∙ e) in
        (k, subst (λ i. Memᴰ i jobs) f m, t, a, r)

module _ (q : MailQueue) (P : Job → Type 0) where
  -- What a call that puts some notifications into the queue has done.
  pub record Enqueues {A : Type 0} (ns : List ArticleNotificationJob) (s : q.Store)
      (y : Outcome A × q.Store) : Type 0 where
    pub grown : Grows P (q.jobs s) (q.jobs y.1)
    pub done : AllNotified ns y.0 (q.jobs y.1)

  pub enqueue-Enqueues :
      (n : ArticleNotificationJob) (s : q.Store)
      → P (article_notification_mail n)
      → ((j : Job) → P j → IsProduced j)
      → AfterDash n.event_type
      → All IsProduced (q.jobs s)
      → Enqueues (n ∷ []) s (enqueue_article_notification q n s)
  enqueue-Enqueues n s p f d h =
      go (q.add (article_notification_mail n) s) (q.add_lem (article_notification_mail n) s)
    where
      grown : Grows P (q.jobs s) (with_job (article_notification_mail n) (q.jobs s))
      grown = with_job-Grows P (article_notification_mail n) p (q.jobs s)

      go :
          (y : Outcome (Unit {0}) × q.Store)
          → AddsJob (article_notification_mail n) (q.jobs s) y.0 (q.jobs y.1)
          → Enqueues (n ∷ []) s y
      go (ok _, t) e = record {
        grown = subst (Grows P (q.jobs s)) (sym e) grown;
        done = (
          subst (IsNotified n) (sym e) (
              job_id-IsNotified n (with_job (article_notification_mail n) (q.jobs s)) d
                (Grows-IsProduced P f (q.jobs s) (with_job (article_notification_mail n) (q.jobs s))
                  grown h)
                (with_job-mem (article_notification_mail n) (q.jobs s))),
          tt,
        );
      }
      go (err x, t) (b, inl e) = record {
        grown = subst (Grows P (q.jobs s)) (sym e) (Grows-refl P (q.jobs s));
        done = b;
      }
      go (err x, t) (b, inr e) = record {
        grown = subst (Grows P (q.jobs s)) (sym e) grown;
        done = b;
      }

  pub promise_all-Enqueues :
      {A : Type 0} (f : A → ArticleNotificationJob) (as' : List A) (s : q.Store)
      → ((a : A) → Memᴰ a as' → P (article_notification_mail (f a)))
      → ((j : Job) → P j → IsProduced j)
      → ((a : A) → AfterDash (f a).event_type)
      → All IsProduced (q.jobs s)
      → Enqueues (map f as') s (promise_all (map (λ a. enqueue_article_notification q (f a)) as') s)
  promise_all-Enqueues f [] s p g d h = record { grown = Grows-refl P (q.jobs s); done = tt }
  promise_all-Enqueues {A} f (a ∷ as') s p g d h =
      let y = enqueue_article_notification q (f a) s in
      go y (enqueue-Enqueues (f a) s (p a (Memᴰ.head refl)) g (d a) h)
        (promise_all (map (λ a. enqueue_article_notification q (f a)) as') y.1)
        (promise_all-Enqueues f as' y.1 (λ b m. p b (Memᴰ.tail m)) g d
          (Grows-IsProduced P g (q.jobs s) (q.jobs y.1)
            ((enqueue-Enqueues (f a) s (p a (Memᴰ.head refl)) g (d a) h).grown) h))
    where
      go :
          (y : Outcome (Unit {0}) × q.Store)
          → Enqueues (f a ∷ []) s y
          → (z : Outcome (List (Unit {0})) × q.Store) → Enqueues (map f as') y.1 z
          → Enqueues (f a ∷ map f as') s (cons_outcome y.0 z.0, z.1)
      go (ok _, t) e (ok _, u) k = record {
        grown = Grows-trans P (q.jobs s) (q.jobs t) (q.jobs u) e.grown k.grown;
        done = (IsNotified-Grows P (f a) (q.jobs t) (q.jobs u) k.grown e.done.0, k.done);
      }
      go (ok _, t) e (err x, u) k = record {
        grown = Grows-trans P (q.jobs s) (q.jobs t) (q.jobs u) e.grown k.grown;
        done = k.done;
      }
      go (err x, t) e (r, u) k = record {
        grown = Grows-trans P (q.jobs s) (q.jobs t) (q.jobs u) e.grown k.grown;
        done = e.done;
      }
