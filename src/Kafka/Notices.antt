-- ===== src/Kafka/Notices.antt =====
-- Whom the events of the articles notify.
use mathlib.Core.List.{Memᴰ}
use realworld_tutorial.Base.{
  ℕ, ◌≡◌, refl, sym, ◌∙◌, subst, ◌≢◌, ◌↔◌, inl, inr, Bool, true, false, ◌&&◌, Option, none, some,
  List, [], ◌∷◌, map, arith, ◌==◌, Bool-cases, some_is, some_is-mem, mem-some_is, All, All-mem,
  mem-map, Codes, Outcome, ok, err, pure, ◌>>=◌, ◌>>◌, promise_all,
}
use realworld_tutorial.Base.Prisma.{Delegate, Finds, FindsMany, IsDatabase}
use realworld_tutorial.Users.{UserRow, user_clash}
use realworld_tutorial.Articles.Repository.{ArticleEvent, article_created, article_favorited}
use realworld_tutorial.Email.Queue.{
  Job, ArticleNotificationJob, MailQueue, article_notification_mail, enqueue_article_notification,
}
use realworld_tutorial.Email.Queue.JobIds.{AfterDash}
use realworld_tutorial.Email.Queue.Growth.{
  IsProduced, IsNotified, Grows, Grows-refl, Enqueues, enqueue-Enqueues, promise_all-Enqueues,
}
use realworld_tutorial.Kafka.{
  favorited_notification, created_notification, is_follower_of, Inbox, notify_found, notify_all,
  handle_article_favorited, handle_article_created, handle_event,
}

-- Whom an event is to be told: the followers of the author of a new article, and the author of an
-- article that another user marks.
abbrev pub IsRecipient : ArticleEvent → List UserRow → UserRow → Type 0
IsRecipient (article_created article_id slug title author_id author_username) users u =
    (a : UserRow) × Memᴰ a users × (a.id ≡ author_id) × Memᴰ u.id a.followed_by
IsRecipient (article_favorited article_id slug title author_id user_id username) users u =
    (u.id ≡ author_id) × (user_id ≢ author_id)

abbrev pub notification : ArticleEvent → UserRow → ArticleNotificationJob
notification (article_created article_id slug title author_id author_username) u =
    created_notification article_id title author_username u
notification (article_favorited article_id slug title author_id user_id username) u =
    favorited_notification article_id title username u

notification-AfterDash :
    (event : ArticleEvent) (u : UserRow) → AfterDash (notification event u).event_type
notification-AfterDash (article_created article_id slug title author_id author_username) u =
    omega arith
notification-AfterDash (article_favorited article_id slug title author_id user_id username) u =
    omega arith

is_follower_of_iff :
    (author_id : ℕ) (users : List UserRow) (u : UserRow)
    → (is_follower_of author_id users u ≡ true)
      ↔ ((a : UserRow) × Memᴰ a users × (a.id ≡ author_id) × Memᴰ u.id a.followed_by)
is_follower_of_iff author_id users u = (
  λ h.
      let (a, m, e) =
        some_is-mem (λ (a : UserRow). a.id == author_id && some_is (λ i. i == u.id) a.followed_by)
          users h in
      let (is, fan) = both (a.id == author_id) (some_is (λ i. i == u.id) a.followed_by) e in
      let (i, n, f) = some_is-mem (λ i. i == u.id) a.followed_by fan in
      (a, m, ground arith, subst (λ k. Memᴰ k a.followed_by) (eq i u.id f) n),
  λ (a, m, e, n).
      mem-some_is (λ (a : UserRow). a.id == author_id && some_is (λ i. i == u.id) a.followed_by)
        users a m
        (let f = mem-some_is (λ i. i == u.id) a.followed_by u.id n (ground arith) in ground arith),
)
  where
    both : (x y : Bool) → (x && y) ≡ true → (x ≡ true) × (y ≡ true)
    both x y e = ground arith

    eq : (m n : ℕ) → (m == n) ≡ true → m ≡ n
    eq m n e = ground arith

module _ (udb : Delegate UserRow user_clash) (q : MailQueue) (s : Inbox udb q) where
  -- A mail that an event calls for.
  abbrev pub IsMailFor : ArticleEvent → Job → Type 0
  IsMailFor event j =
      (u : UserRow) × Memᴰ u (udb.rows s.0)
      × IsRecipient event (udb.rows s.0) u
      × (j ≡ article_notification_mail (notification event u))

  abbrev pub AllTold : ArticleEvent → Outcome (Unit {0}) → List Job → Type 0
  AllTold event (ok _) jobs =
      (u : UserRow)
      → Memᴰ u (udb.rows s.0)
      → IsRecipient event (udb.rows s.0) u
      → IsNotified (notification event u) jobs
  AllTold event (err e) jobs = IsDatabase e

  -- What a handler that ends in a certain way has done.
  pub record Tells (event : ArticleEvent) (y : Outcome (Unit {0}) × Inbox udb q) : Type 0 where
    pub same_users : y.1.0 ≡ s.0
    pub grown : Grows (IsMailFor event) (q.jobs s.1) (q.jobs y.1.1)
    pub told : AllTold event y.0 (q.jobs y.1.1)

  produced : (event : ArticleEvent) (j : Job) → IsMailFor event j → IsProduced j
  produced event j (u, m, r, e) = inr (notification event u, e, notification-AfterDash event u)

  nothing :
      (event : ArticleEvent) (r : Outcome (Unit {0}))
      → AllTold event r (q.jobs s.1)
      → Tells event (r, s)
  nothing event r h = record {
    same_users = refl;
    grown = Grows-refl (IsMailFor event) (q.jobs s.1);
    told = h;
  }

  module _ (sound : All IsProduced (q.jobs s.1)) where
    created-Tells :
        (article_id : ℕ) (slug title : Codes) (author_id : ℕ) (name : Codes)
        → Tells
            (article_created article_id slug title author_id name)
            (handle_article_created udb q article_id title author_id name s)
    unfolding handle_article_created
    created-Tells article_id slug title author_id name =
        go (udb.find_many (is_follower_of author_id (udb.rows s.0)) s.0)
          (udb.find_many_lem (is_follower_of author_id (udb.rows s.0)) s.0)
      where
        event : ArticleEvent
        event = article_created article_id slug title author_id name

        told :
            (f : UserRow) (fs : List UserRow)
            → FindsMany (is_follower_of author_id (udb.rows s.0)) (udb.rows s.0) (ok (f ∷ fs))
            → (y : Outcome (List (Unit {0})) × q.Store)
            → Enqueues q (IsMailFor event) (map (notification event) (f ∷ fs)) s.1 y
            → Tells event (let z = ((λ (_ : q.Store). y) >> pure tt) s.1 in (z.0, (s.0, z.1)))
        told f fs (_, members) (ok _, t) e = record {
          same_users = refl;
          grown = e.grown;
          told = λ u m r.
              All-mem (λ n. IsNotified n (q.jobs t)) (map (notification event) (f ∷ fs))
                (notification event u) e.done
                (mem-map (notification event) (f ∷ fs) u
                  ((members u).1 (m, (is_follower_of_iff author_id (udb.rows s.0) u).1 r)));
        }
        told f fs h (err x, t) e = record { same_users = refl; grown = e.grown; told = e.done }

        go :
            (x : Outcome (List UserRow))
            → FindsMany (is_follower_of author_id (udb.rows s.0)) (udb.rows s.0) x
            → Tells event (
                ((λ (_ : Inbox udb q). (x, s))
                    >>= notify_all udb q (created_notification article_id title name))
                  s)
        go (err x) d = nothing event (err x) d
        go (ok []) (_, members) = nothing event (ok tt) (λ u m r.
            elim ((members u).1 (m, (is_follower_of_iff author_id (udb.rows s.0) u).1 r)) [ ])
        go (ok (f ∷ fs)) h =
            told f fs h
              (promise_all
                (map (λ u. enqueue_article_notification q (notification event u)) (f ∷ fs)) s.1)
              (promise_all-Enqueues q (IsMailFor event) (notification event) (f ∷ fs) s.1
                (λ u m.
                  let (n, r) = (h.1 u).0 m in
                  (u, n, (is_follower_of_iff author_id (udb.rows s.0) u).0 r, refl))
                (produced event) (notification-AfterDash event) sound)

    favorited-Tells :
        (article_id : ℕ) (slug title : Codes) (author_id user_id : ℕ) (name : Codes)
        → Tells
            (article_favorited article_id slug title author_id user_id name)
            (handle_article_favorited udb q article_id title author_id user_id name s)
    unfolding handle_article_favorited
    favorited-Tells article_id slug title author_id user_id name =
        elim (Bool-cases (user_id == author_id)) [
          | inl e ↦ rw e (nothing event (ok tt) (λ u m (is, other). absurd (ground arith)))
          | inr e ↦ rw e (
              go e (udb.find_first (λ u. u.id == author_id) s.0)
                (udb.find_first_lem (λ u. u.id == author_id) s.0))
        ]
      where
        event : ArticleEvent
        event = article_favorited article_id slug title author_id user_id name

        told :
            (a : UserRow)
            → a.id ≡ author_id
            → (y : Outcome (Unit {0}) × q.Store)
            → Enqueues q (IsMailFor event) (notification event a ∷ []) s.1 y
            → Tells event (y.0, (s.0, y.1))
        told a is (ok _, t) e = record {
          same_users = refl;
          grown = e.grown;
          told = λ u m r. let (n, here, x, y, z) = e.done.0 in (n, here, x, y, z ∙ is ∙ sym r.0);
        }
        told a is (err x, t) e = record { same_users = refl; grown = e.grown; told = e.done }

        go :
            (user_id == author_id) ≡ false
            → (x : Outcome (Option UserRow))
            → Finds (λ (u : UserRow). u.id == author_id) (udb.rows s.0) x
            → Tells event (
                ((λ (_ : Inbox udb q). (x, s))
                    >>= notify_found udb q (favorited_notification article_id title name))
                  s)
        go b (err x) d = nothing event (err x) d
        go b (ok none) h = nothing event (ok tt) (λ u m r.
            let f = All-mem (λ (v : UserRow). (v.id == author_id) ≡ false) (udb.rows s.0) u h m in
            let e = r.0 in absurd (ground arith))
        go b (ok (some a)) (m, e) =
            told a (ground arith) (enqueue_article_notification q (notification event a) s.1) (
              enqueue-Enqueues q (IsMailFor event) (notification event a) s.1
                (a, m, (ground arith, ground arith), refl) (produced event)
                (notification-AfterDash event a) sound)

    -- If the queue holds only jobs that the producer made, a handler that answers has seen to it that
    -- each follower of the author of a new article, and the author of an article that another user has
    -- marked, has a job in the queue for an event of that type on that article. It has added no other
    -- job and taken none away, also where it throws, and what it throws is a failure of the database or
    -- of the queue. The users are as they were.
    pub handle_event_lem : (event : ArticleEvent) → Tells event (handle_event udb q event s)
    handle_event_lem (article_created article_id slug title author_id name) =
        created-Tells article_id slug title author_id name
    handle_event_lem (article_favorited article_id slug title author_id user_id name) =
        favorited-Tells article_id slug title author_id user_id name
