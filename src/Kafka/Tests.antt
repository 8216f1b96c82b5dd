-- ===== src/Kafka/Tests.antt =====
-- Events of the articles on users and a queue in memory.
use mathlib.Core.List.{Memᴰ}
use realworld_tutorial.Base.{
  ℕ, ◌≡◌, refl, ok, none, some, List, [], ◌∷◌, map, arith, inr, Codes, codes, String, All, M,
  append_one, ◌≢◌, sym, ap, ◌∙◌, trim,
}
use realworld_tutorial.Base.Decimal.{decimal}
use realworld_tutorial.Base.Prisma.{Delegate}
use realworld_tutorial.Base.Prisma.Memory.{memory}
use realworld_tutorial.Users.{UserRow, user_clash}
use realworld_tutorial.Articles.Repository.{
  ArticleEvent, article_created, article_favorited, ArticleRow, slug_clash, World, article_record,
  new_article,
}
use realworld_tutorial.Articles.Slug.{execute, pick_candidate, to_base_slug}
use realworld_tutorial.Articles.Tags.{set_from, normalize_tags}
use realworld_tutorial.Articles.Service.{CreateArticleDto, ArticleResponse, create, to_response}
use realworld_tutorial.Kafka.Delivery.{IsMailed, IsUserKey, creation_mails_followers}
use realworld_tutorial.Email.Queue.{
  Job, JobData, article_notification, link_confirmation, ArticleNotificationJob,
  article_notification_job_id, article_notification_mail,
}
use realworld_tutorial.Email.Worker.{
  SendMailOptions, EmailJobHandler, article_notification_handler,
  provider_link_confirmation_handler,
}
use realworld_tutorial.Email.Queue.Growth.{IsProduced}
use realworld_tutorial.Email.Queue.Memory.{mail_queue}
use realworld_tutorial.Kafka.Config.{
  KafkaEnv, private_ca, build_ssl_settings, normalize_pem, parse_kafka_config,
}
use realworld_tutorial.Kafka.{
  Inbox, favorited_notification, created_notification, handle_article_created,
  handle_article_favorited, handle_event,
}
use realworld_tutorial.Kafka.Notices.{Tells, handle_event_lem}

abbrev udb : Delegate UserRow user_clash
udb = memory user_clash

abbrev user : ℕ → String → List ℕ → UserRow
user id name followers = record {
  id = id;
  email = codes name;
  username = codes name;
  password = none;
  image = none;
  bio = none;
  followed_by = followers;
}

abbrev ann : UserRow
ann = user 7 "ann" (8 ∷ 9 ∷ [])

abbrev marked : Job
marked = article_notification_mail (favorited_notification 4 (codes "a") (codes "bob") ann)

abbrev inbox : Inbox udb mail_queue
inbox = (record { rows = ann ∷ user 8 "bob" [] ∷ user 9 "cid" [] ∷ []; next_id = 10 }, marked ∷ [])

abbrev created : ArticleEvent
created = article_created 5 (codes "b") (codes "b") 7 (codes "ann")

recipients : map (λ (j : Job). j.opts.job_id) (handle_event udb mail_queue created inbox).1.1 ≡ (
    codes "article-notification-article.favorited-4-7"
    ∷ codes "article-notification-article.created-5-8"
    ∷ codes "article-notification-article.created-5-9"
    ∷ [])
unfolding handle_article_created article_notification_job_id decimal
recipients = refl

-- The mark of another user, while the mail about the first one waits, is not mailed.
second_mark :
    (handle_event udb mail_queue
      (article_favorited 4 (codes "a") (codes "a") 7 9 (codes "cid"))
      inbox).1.1
    ≡ (marked ∷ [])
unfolding handle_article_favorited article_notification_job_id decimal
second_mark = refl

inbox-IsProduced : All IsProduced (mail_queue.jobs inbox.1)
inbox-IsProduced =
    (inr (favorited_notification 4 (codes "a") (codes "bob") ann, refl, omega arith), tt)

handle_event_lem_example :
    Tells udb mail_queue inbox created (handle_event udb mail_queue created inbox)
handle_event_lem_example = handle_event_lem udb mail_queue inbox inbox-IsProduced created

-- A new article of the user with the id 7, whom the user with the id 8 follows.
abbrev adb : Delegate ArticleRow slug_clash
adb = memory slug_clash

abbrev same : Codes → Codes
same s = s

abbrev order : List Codes → List Codes
order tags = tags

abbrev dto : CreateArticleDto
dto = record { title = codes " b "; description = []; body = []; tag_list = none }

abbrev bob : UserRow
bob = user 8 "bob" []

abbrev pair : udb.Store
pair = record { rows = ann ∷ bob ∷ []; next_id = 10 }

abbrev before : World adb udb
before = record { articles = record { rows = []; next_id = 5 }; users = pair; events = [] }

abbrev row : ArticleRow
row = record {
  id = 5;
  slug = codes "b";
  title = codes "b";
  description = [];
  body = [];
  created_at = 10;
  updated_at = 10;
  tag_list = [];
  author_id = 7;
  favorited_by = [];
}

abbrev after : World adb udb
after = record {
  articles = record { rows = row ∷ []; next_id = 6 };
  users = pair;
  events = created ∷ [];
}

abbrev answer : ArticleResponse
answer = to_response same (article_record order none row ann)

made : create adb udb same same order same 10 7 dto before ≡ (ok answer, after)
unfolding create execute pick_candidate new_article to_base_slug set_from article_record
    normalize_tags
made = refl

abbrev article_of : JobData → ℕ
article_of (article_notification n) = n.article_id
article_of (link_confirmation d) = 0

abbrev waiting : List Job
waiting = (handle_event udb mail_queue created (pair, inbox.1)).1.1

handled : handle_event udb mail_queue created (pair, inbox.1) ≡ (ok tt, (pair, waiting))
unfolding handle_article_created
handled = refl

inbox-fresh :
    (n : ArticleNotificationJob)
    → Memᴰ (article_notification_mail n) (mail_queue.jobs inbox.1)
    → n.article_id ≢ 5
inbox-fresh n (Memᴰ.head e) f =
    let g = ap (λ (j : Job). article_of j.payload) e in absurd (omega arith)
inbox-fresh n (Memᴰ.tail m) f = elim m [ ]

apart : {q r : UserRow} → q ≡ ann → r ≡ bob → q.id ≡ r.id → ⊥
apart e f i =
    let one : ◌≡◌ {A = ℕ} 7 8 =
      sym (ap (λ (x : UserRow). x.id) e) ∙ i ∙ ap (λ (x : UserRow). x.id) f in
    absurd (omega arith)

pair-IsUserKey : IsUserKey (udb.rows pair)
pair-IsUserKey q r (Memᴰ.head e) (Memᴰ.head f) i = e ∙ sym f
pair-IsUserKey q r (Memᴰ.head e) (Memᴰ.tail (Memᴰ.head f)) i = absurd (apart e f i)
pair-IsUserKey q r (Memᴰ.tail (Memᴰ.head e)) (Memᴰ.head f) i = absurd (apart f e (sym i))
pair-IsUserKey q r (Memᴰ.tail (Memᴰ.head e)) (Memᴰ.tail (Memᴰ.head f)) i = e ∙ sym f
pair-IsUserKey q r (Memᴰ.tail (Memᴰ.tail m)) n i = elim m [ ]
pair-IsUserKey q r (Memᴰ.head e) (Memᴰ.tail (Memᴰ.tail n)) i = elim n [ ]
pair-IsUserKey q r (Memᴰ.tail (Memᴰ.head e)) (Memᴰ.tail (Memᴰ.tail n)) i = elim n [ ]

-- A sender that keeps what it is given.
abbrev post : SendMailOptions → M (List SendMailOptions) (Unit {0})
post o sent = (ok tt, append_one sent o)

abbrev handlers : List EmailJobHandler
handlers = article_notification_handler ∷ provider_link_confirmation_handler ∷ []

handlers-mem : (h : EmailJobHandler) → Memᴰ h handlers
handlers-mem article_notification_handler = Memᴰ.head refl
handlers-mem provider_link_confirmation_handler = Memᴰ.tail (Memᴰ.head refl)

creation_mails_followers_example :
    ((r : ArticleRow) × Memᴰ r (adb.rows after.articles)
      × (r.id ≡ 5)
      × (r.author_id ≡ 7)
      × (r.title ≡ trim dto.title)
      × (codes "b" ≡ r.title))
    × IsMailed udb mail_queue adb same same order same same post
        (created_notification 5 (codes "b") (codes "ann") bob)
        handlers
        waiting
creation_mails_followers_example =
    creation_mails_followers udb mail_queue adb same same order same same post 10 7 dto before after
      answer 5 7 (codes "b") (codes "b") (codes "ann") inbox.1 waiting handlers bob ann made refl
      handled inbox-IsProduced inbox-fresh pair-IsUserKey handlers-mem (Memᴰ.tail (Memᴰ.head refl))
      (Memᴰ.head refl) refl (Memᴰ.head refl)

-- A cluster of two brokers, with the certificate of its authority on one line.
abbrev cluster : KafkaEnv
cluster = record {
  kafka_broker = some (codes " a:1, ,b:2");
  kafka_ssl_ca = some (codes "x\\ny ");
  kafka_ssl = none;
  kafka_username = some (codes "u");
  kafka_password = some [];
  kafka_sasl_mechanism = none;
  kafka_client_id = none;
  kafka_group_id = none;
}

cluster_brokers : (parse_kafka_config cluster).brokers ≡ (codes "a:1" ∷ codes "b:2" ∷ [])
unfolding parse_kafka_config
cluster_brokers = refl

cluster_ssl : (parse_kafka_config cluster).ssl ≡ some (private_ca (codes "x\ny" ∷ []))
unfolding parse_kafka_config build_ssl_settings normalize_pem
cluster_ssl = refl

cluster_sasl : (parse_kafka_config cluster).sasl ≡ none
unfolding parse_kafka_config
cluster_sasl = refl
