-- ===== src/Kafka.antt =====
-- src/kafka/consumers/article-notification.consumer.ts: the mails that the events of the articles call
-- for. The state is the users and the queue of the mails. Kafka delivers the events.
pub mod Notices
pub mod Delivery
pub mod Config
mod Tests
use realworld_tutorial.Base.{
  ℕ, Bool, ◌&&◌, Option, none, some, List, [], ◌∷◌, ◌++◌, map, ◌==◌, some_is, if◌then◌else◌, Codes,
  codes, M, pure, reads, ◌>>=◌, ◌>>◌, promise_all,
}
use realworld_tutorial.Base.Prisma.{Delegate}
use realworld_tutorial.Users.{UserRow, user_clash}
use realworld_tutorial.Articles.Repository.{ArticleEvent, article_created, article_favorited}
use realworld_tutorial.Email.Queue.{
  ArticleNotificationJob, MailQueue, event_article_created, event_article_favorited,
  enqueue_article_notification,
}

abbrev pub favorited_notification : ℕ → Codes → Codes → UserRow → ArticleNotificationJob
favorited_notification article_id title username author = record {
  to = author.email;
  recipient_username = author.username;
  subject = username ++ codes " favorited your article";
  body =
      codes "Hello "
      ++ (author.username
          ++ (codes ", "
              ++ (username
                  ++ (codes " just favorited your article \"" ++ (title ++ codes "\".")))));
  event_type = event_article_favorited;
  article_id = article_id;
  recipient_id = author.id;
}

abbrev pub created_notification : ℕ → Codes → Codes → UserRow → ArticleNotificationJob
created_notification article_id title author_username follower = record {
  to = follower.email;
  recipient_username = follower.username;
  subject = author_username ++ codes " published a new article";
  body =
      codes "Hello "
      ++ (follower.username
          ++ (codes ", author "
              ++ (author_username
                  ++ (codes " just published a new article: \"" ++ (title ++ codes "\".")))));
  event_type = event_article_created;
  article_id = article_id;
  recipient_id = follower.id;
}

-- The `where` of `findFollowersByAuthorId`.
abbrev pub is_follower_of : ℕ → List UserRow → UserRow → Bool
is_follower_of author_id users u =
    some_is (λ (a : UserRow). a.id == author_id && some_is (λ i. i == u.id) a.followed_by) users

module _ (udb : Delegate UserRow user_clash) (q : MailQueue) where
  abbrev pub Inbox : Type 0
  Inbox = udb.Store × q.Store

  abbrev pub on_queue {ℓ} : {A : Type ℓ} → M q.Store A → M Inbox A
  on_queue m s = let (r, t) = m s.1 in (r, (s.0, t))

  abbrev pub find_followers_by_author_id : ℕ → M Inbox (List UserRow)
  find_followers_by_author_id author_id =
      reads (λ s. udb.find_many (is_follower_of author_id (udb.rows s.0)) s.0)

  abbrev pub notify_found : (UserRow → ArticleNotificationJob) → Option UserRow → M Inbox (Unit {0})
  notify_found notification none = pure tt
  notify_found notification (some author) =
      on_queue (enqueue_article_notification q (notification author))

  abbrev pub notify_all : (UserRow → ArticleNotificationJob) → List UserRow → M Inbox (Unit {0})
  notify_all notification [] = pure tt
  notify_all notification (f ∷ fs) =
      on_queue (
        promise_all (map (λ u. enqueue_article_notification q (notification u)) (f ∷ fs))
        >> pure tt)

  unfoldable pub handle_article_favorited :
      (article_id : ℕ) (title : Codes) (author_id user_id : ℕ) (username : Codes)
      → M Inbox (Unit {0})
  handle_article_favorited article_id title author_id user_id username =
      if user_id == author_id
      then pure tt
      else (reads (λ s. udb.find_first (λ u. u.id == author_id) s.0)
          >>= notify_found (favorited_notification article_id title username))

  unfoldable pub handle_article_created :
      (article_id : ℕ) (title : Codes) (author_id : ℕ) (author_username : Codes)
      → M Inbox (Unit {0})
  handle_article_created article_id title author_id author_username = do
    followers ← find_followers_by_author_id author_id
    notify_all (created_notification article_id title author_username) followers

  -- The handler for each pattern of events.
  abbrev pub handle_event : ArticleEvent → M Inbox (Unit {0})
  handle_event (article_created article_id slug title author_id author_username) =
      handle_article_created article_id title author_id author_username
  handle_event (article_favorited article_id slug title author_id user_id username) =
      handle_article_favorited article_id title author_id user_id username
