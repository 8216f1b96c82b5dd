-- ===== src/Email/Queue/Memory.antt =====
-- A queue in memory: the interface of `Email.Queue` can be met.
use realworld_tutorial.Base.{List, refl, ok}
use realworld_tutorial.Email.Queue.{Job, MailQueue, with_job}

abbrev pub mail_queue : MailQueue
mail_queue = record {
  Store = List Job;
  jobs = λ s. s;
  add = λ job s. (ok tt, with_job job s);
  add_lem = λ job s. refl;
}
