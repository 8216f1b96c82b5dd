-- ===== src/Lib.antt =====
-- The core of a RealWorld (Medium clone) API, written in TypeScript on NestJS and Prisma: sessions,
-- links to a provider's accounts, articles, comments and following.
--
-- The parts and their files. Paths are those of the repository.
-- - Base: what the parts share. Base/Calls has the monad of a call: it takes a state and gives an
--   outcome, a value or an exception, with the state after it, since what was written before a throw
--   stays written. Base/CodeUnits has JavaScript strings as lists of code units, and Base/Decimal
--   prints a number. Base/Prisma states what the program relies on of the Prisma client: an interface
--   for the queries of a table, whose state is abstract and is seen through the listing of its rows,
--   and one for `$transaction`. Every query may fail, and then it has changed no row. Base/Prisma/Ordering
--   puts the rows of a query in order, and Base/Collect collects outcomes. Base/Prisma/Memory fills both
--   interfaces, with tables in memory; the examples run on it.
-- - Auth/Token: src/auth/token, the refresh tokens: issue, rotation, logout and the daily clean-up;
--   Lifetime has the configured lifetime of one.
--   `exchange` is what `rotate` does after its checks, stated apart, because two requests can both have
--   passed the checks. Its child modules say how a row may change (Evolution, Operations), what an
--   exchange does (Exchange), that it happens once (Rotation), what a refusal leaves (Refusals), and
--   what logout and the clean-up do (Requests, Logout).
-- - Auth/Linking: src/auth/account-linking and src/auth/account/auth-provider.repository.ts, the links of
--   a provider's accounts to users: a pending link is issued (Issue), its mail is queued (Request) and
--   its token is confirmed (Confirm). The state is the two tables; the queue stands beside them.
-- - Auth/Username: src/auth/account/username-generator.ts.
-- - Auth/Accounts: `register` and `login` of src/auth/auth.service.ts (Register, Login). The state is the
--   tables of the users and of the tokens, and the hashes that a password was compared with.
-- - Auth/Resolver: src/auth/account and `handleOAuthCallback`: the account of a provider's identity. The
--   state has the users, the tokens, the tables of Auth/Linking and its queue. Resolution says what an
--   answer means, Creation and Account show it, and Callback adds the tokens.
-- - Auth/Google: src/auth/providers/google, the guard, the strategy and the callback of the sign-in with
--   Google, over the service of Auth/Resolver (SignIn).
-- - Articles: src/articles. Slug has article-slug.service.ts (the base slug, the search for a suffix, the
--   retries), Tags has articles.helper.ts, Repository has articles.repository.ts and article-select.ts,
--   Service has articles.service.ts and the mapper of responses. The state is the table of the
--   articles, that of the users and the events that the producer was given. Listing has `list` and `feed`.
--   Frames and Owner have the lemmas on queries and on the owner's check; Creation, Update, Removal,
--   Spares and Listing/Pages the results.
-- - Comments: src/comments, over the articles' state and a table of comments.
-- - Favorites: src/favorites, over the articles' state.
-- - Profiles: src/profiles, over the users' table; Users has the row of a user.
-- - Users/Avatar: src/users/avatar-replacement.service.ts, with the queries of users.repository.ts and the
--   functions of src/file-storage that it calls. The objects stand beside the users' table.
-- - Email: src/email. Queue has the jobs and the producer, with what BullMQ's queue is relied on for
--   (JobIds, Growth), Template the page of a link's mail, and Worker the registry of the handlers, the
--   handlers and the processor (Delivery).
-- - Kafka: src/kafka/consumers and src/kafka/kafka.config.ts, over the users' table and the mail queue;
--   Notices says whom an event of the articles notifies, Delivery follows a new article through Articles,
--   Kafka and Email, and Config is the settings of the client. The events are those that Articles and
--   Favorites hand to the producer.
-- - Users/Update: src/users/users.service.ts, over Users/Avatar (Results).
-- - Images: src/image-processing, with src/worker-pool as Pool. Processing is the service, Oriented and
--   Acceptance say what an image has been checked for.
-- - Preview: src/content-preview and the client of src/articles/article-preview-client.service.ts. Words has
--   the words of a text and Analysis the results.
-- - Api: src/prisma/prisma.extension.ts (Pagination), src/common/filters (Filter) and
--   src/common/validation (Validation), and the interceptor and decorators of src/common (Response).
--
-- Parameters. Functions of other packages and of the platform are arguments of the definitions that
-- use them: SHA-256 (`hash`), bcrypt (`hash_password`, `compare_password`), the signature of a session
-- token (`sign`), `toLowerCase` (`lower`), `normalize('NFD')` (`nfd`), the database's order of tags
-- (`sort`), the URL of a stored object (`url`), the mail queue of a link (`enqueue`), the sender of
-- mails (`send`), a URL with a token (`confirm_link`), `trim().toLowerCase()` of an address (`tidy`) and
-- the storage driver (`put`, `del`). Nothing is assumed of them. The mail queue of the notifications is
-- an interface, which Email/Queue/Memory fills. Clock readings and random tokens are arguments too, one
-- for each time that the code draws one. A message that goes through `i18n.t` is named by its key. The
-- log is not modelled.
--
-- Time and interleaving. A call runs its queries one after another. Where the code has to stand
-- requests in between, the model has them: Auth/Token/Rotation takes any sequence of requests between two
-- exchanges, and `confirm` takes what others commit before its `catch`. Relations between tables are
-- lists of ids or names in a row; deleting a row does not cascade.
--
-- Bounds and fuel. The search for a slug's suffix runs on fuel, one more than the slugs in use: among
-- so many suffixes one is free, as distinct suffixes give distinct slugs. The attempts of the slug
-- service are its three. All other loops are recursion on a list. Numbers are natural; where the code
-- subtracts times it compares sums here, and `page - 1` is taken for pages from 1 on.
--
-- Not modelled: the controllers and their decorators, the checks of the DTOs, the mail server, the
-- delivery of events by Kafka, the logger, the modules and the start of the application.
pub mod Base
pub mod Auth
pub mod Articles
pub mod Users
pub mod Api
pub mod Profiles
pub mod Comments
pub mod Favorites
pub mod Email
pub mod Images
pub mod Kafka
pub mod Preview
