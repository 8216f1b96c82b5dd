-- ===== src/Kafka/Delivery.antt =====
-- From a new article to the mails of its author's followers: src/articles/articles.service.ts announces the
-- article, the consumer of src/kafka/consumers queues the notifications and the worker of src/email sends
-- them.
use mathlib.Core.List
use mathlib.Core.List.{Memᴰ}
use realworld_tutorial.Base.{
  ℕ, ◌≡◌, refl, sym, ap, ◌∙◌, subst, ◌≢◌, ◌⊎◌, inl, inr, List, [], ◌∷◌, append_one, All,
  mem-append_one, trim, Codes, Outcome, ok, M,
}
use realworld_tutorial.Base.Prisma.{Delegate}
use realworld_tutorial.Users.{UserRow, user_clash}
use realworld_tutorial.Articles.Repository.{
  ArticleRow, slug_clash, World, ArticleEvent, article_created, article_favorited, new_article,
}
use realworld_tutorial.Articles.Service.{CreateArticleDto, ArticleResponse, create}
use realworld_tutorial.Articles.Creation.{Adds, create_lem}
use realworld_tutorial.Email.Queue.{
  Job, ArticleNotificationJob, MailQueue, article_notification_mail,
}
use realworld_tutorial.Email.Queue.Growth.{IsProduced, IsNotified}
use realworld_tutorial.Email.Worker.{SendMailOptions, EmailJobHandler, register_all, process}
use realworld_tutorial.Email.Worker.Delivery.{notifies, process_lem}
use realworld_tutorial.Kafka.{Inbox, created_notification, handle_event}
use realworld_tutorial.Kafka.Notices.{IsRecipient, notification, Tells, IsMailFor, handle_event_lem}

-- The ids are a key of the users.
abbrev pub IsUserKey : List UserRow → Type 0
IsUserKey users = (q r : UserRow) → Memᴰ q users → Memᴰ r users → q.id ≡ r.id → q ≡ r

append_one_injective :
    (xs : List ArticleEvent) (a b : ArticleEvent) → append_one xs a ≡ append_one xs b → a ≡ b
append_one_injective xs a b e =
    List.head-eq_of_cons-eq (List.append_cancel_left xs (a ∷ []) (b ∷ []) e)

payload_injective :
    (n k : ArticleNotificationJob)
    → article_notification_mail n ≡ article_notification_mail k
    → n ≡ k
payload_injective n k e = let f = ap (λ (j : Job). j.payload) e in cc

-- The article of an event with its title, and the author.
abbrev about : ArticleEvent → ℕ × Codes × ℕ
about (article_created id slug title author_id name) = (id, title, author_id)
about (article_favorited id slug title author_id user_id name) = (id, title, author_id)

fields :
    (e f : ArticleEvent)
    → e ≡ f
    → ((about e).0 ≡ (about f).0) × ((about e).1 ≡ (about f).1) × ((about e).2 ≡ (about f).2)
fields e f h = (ap (λ x. (about x).0) h, ap (λ x. (about x).1) h, ap (λ x. (about x).2) h)

module _ (udb : Delegate UserRow user_clash) (q : MailQueue) where
  -- The job of a recipient of an article about which no job waited.
  own_job :
      (s : Inbox udb q) (event : ArticleEvent) (jobs : List Job) (u : UserRow)
      → IsUserKey (udb.rows s.0)
      → Memᴰ u (udb.rows s.0)
      → ((n : ArticleNotificationJob)
          → Memᴰ (article_notification_mail n) (q.jobs s.1)
          → n.article_id ≢ (notification event u).article_id)
      → ((v : UserRow) → (notification event v).recipient_id ≡ v.id)
      → ((j : Job) → Memᴰ j jobs → Memᴰ j (q.jobs s.1) ⊎ IsMailFor udb q s event j)
      → IsNotified (notification event u) jobs
      → Memᴰ (article_notification_mail (notification event u)) jobs
  own_job s event jobs u key here fresh names added (m, there, t, a, r) =
      elim (added (article_notification_mail m) there) [
        | inl old ↦ absurd (fresh m old a)
        | inr (v, listed, rec, e) ↦
            let is : m ≡ notification event v = payload_injective m (notification event v) e in
            let same : v ≡ u = key v u listed here (
              sym (names v)
              ∙ sym (ap (λ (n : ArticleNotificationJob). n.recipient_id) is)
              ∙ r
              ∙ names u) in
            subst (λ n. Memᴰ (article_notification_mail n) jobs) (is ∙ ap (notification event) same)
              there
      ]

  -- A handler that answers has put the job of such a recipient into the queue.
  told_job :
      (s t : Inbox udb q) (event : ArticleEvent) (u : UserRow)
      → handle_event udb q event s ≡ (ok tt, t)
      → All IsProduced (q.jobs s.1)
      → ((n : ArticleNotificationJob)
          → Memᴰ (article_notification_mail n) (q.jobs s.1)
          → n.article_id ≢ (notification event u).article_id)
      → IsUserKey (udb.rows s.0)
      → Memᴰ u (udb.rows s.0)
      → ((v : UserRow) → (notification event v).recipient_id ≡ v.id)
      → IsRecipient event (udb.rows s.0) u
      → Memᴰ (article_notification_mail (notification event u)) (q.jobs t.1)
  told_job s t event u handled sound fresh key here names rec =
      let tells =
        subst (λ y. Tells udb q s event y) handled (handle_event_lem udb q s sound event) in
      own_job s event (q.jobs t.1) u key here fresh names (tells.grown.added)
        (tells.told u here rec)

  module _ (adb : Delegate ArticleRow slug_clash) (lower nfd : Codes → Codes)
      (sort : List Codes → List Codes) (url confirm_link : Codes → Codes) {S : Type 0}
      (send : SendMailOptions → M S (Unit {0})) where
    -- A job waits with which the worker sends one mail, the given one, to whomever it belongs.
    abbrev pub IsMailed : ArticleNotificationJob → List EmailJobHandler → List Job → Type 0
    IsMailed n hs jobs =
        (j : Job) × Memᴰ j jobs
        × ((at : ℕ) (m : S)
            → process confirm_link send (register_all hs []) at j m
              ≡ send (notifies confirm_link send n) m)

    mailed :
        (n : ArticleNotificationJob) (hs : List EmailJobHandler) (jobs : List Job)
        → ((h : EmailJobHandler) → Memᴰ h hs)
        → Memᴰ (article_notification_mail n) jobs
        → IsMailed n hs jobs
    mailed n hs jobs all here = (
      article_notification_mail n,
      here,
      λ at m. (process_lem confirm_link send hs at m all).notification n,
    )

    -- If a creation answers, and the consumer answers on the event that it has announced, then each
    -- follower of the user has a job of their own in the queue, with which the worker sends one mail to
    -- the follower's address, about the new article, which is stored under the user's id and with the
    -- trimmed title. The queue held only jobs that the producer made, none of them about an article
    -- with that id, the users' ids are a key, and both handlers of the worker are registered.
    pub creation_mails_followers :
        (now user_id : ℕ) (dto : CreateArticleDto) (w v : World adb udb) (resp : ArticleResponse)
        (id author_id : ℕ) (slug title name : Codes) (s t : q.Store) (hs : List EmailJobHandler)
        (u a : UserRow)
        → create adb udb lower nfd sort url now user_id dto w ≡ (ok resp, v)
        → v.events ≡ append_one w.events (article_created id slug title author_id name)
        → handle_event udb q (article_created id slug title author_id name) (v.users, s)
          ≡ (ok tt, (v.users, t))
        → All IsProduced (q.jobs s)
        → ((n : ArticleNotificationJob)
            → Memᴰ (article_notification_mail n) (q.jobs s)
            → n.article_id ≢ id)
        → IsUserKey (udb.rows w.users)
        → ((h : EmailJobHandler) → Memᴰ h hs)
        → Memᴰ u (udb.rows w.users)
        → Memᴰ a (udb.rows w.users)
        → a.id ≡ user_id
        → Memᴰ u.id a.followed_by
        → ((r : ArticleRow) × Memᴰ r (adb.rows v.articles)
            × (r.id ≡ id)
            × (r.author_id ≡ user_id)
            × (r.title ≡ trim dto.title)
            × (title ≡ r.title))
          × IsMailed (created_notification id title name u) hs (q.jobs t)
    unfolding new_article
    creation_mails_followers now user_id dto w v resp id author_id slug title name s t hs u a made
          announced handled sound fresh key all listed known is follows =
        let (row, author, base, stored, new, free, users, written, events, answer) =
          subst
            (λ (y : Outcome ArticleResponse × World adb udb).
              Adds adb udb lower nfd sort url now user_id dto w y.0 y.1)
            made (create_lem adb udb lower nfd sort url now user_id dto w) in
        let event = article_created id slug title author_id name in
        let (numbered, titled, mine) =
          fields event (article_created row.id row.slug row.title user_id author.username) (
            append_one_injective w.events event
              (article_created row.id row.slug row.title user_id author.username)
              (sym announced ∙ events)) in
        let same : udb.rows w.users ≡ udb.rows v.users = ap udb.rows (sym users) in
        (
          (
            row,
            subst (λ l. Memᴰ row l) (sym stored) (mem-append_one (adb.rows w.articles) row),
            sym numbered,
            ap (λ (r : ArticleRow). r.author_id) new,
            ap (λ (r : ArticleRow). r.title) new,
            titled,
          ),
          mailed (created_notification id title name u) hs (q.jobs t) all (
              told_job (v.users, s) (v.users, t) event u handled sound fresh
                (subst IsUserKey same key) (subst (λ l. Memᴰ u l) same listed) (λ x. refl)
                (a, subst (λ l. Memᴰ a l) same known, is ∙ sym mine, follows)),
        )
