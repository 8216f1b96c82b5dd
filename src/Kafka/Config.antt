-- ===== src/Kafka/Config.antt =====
-- src/kafka/kafka.config.ts: the settings of the Kafka client, from the environment.
use realworld_tutorial.Base.{
  ℕ, ◌≡◌, refl, sym, ap, subst, Bool, true, false, inl, inr, Bool-cases, List, [], ◌∷◌, Option,
  none, some, All, arith, ◌==◌, ◌&&◌, ◌||◌, if◌then◌else◌, Codes, codes, codes_eq, trim, text_or,
  map,
}

-- The variables that are read. One that is not set is none.
pub record KafkaEnv : Type 0 where
  pub kafka_broker : Option Codes
  pub kafka_ssl_ca : Option Codes
  pub kafka_ssl : Option Codes
  pub kafka_username : Option Codes
  pub kafka_password : Option Codes
  pub kafka_sasl_mechanism : Option Codes
  pub kafka_client_id : Option Codes
  pub kafka_group_id : Option Codes

pub data Ssl : Type 0 where
  default_trust : Ssl
  private_ca : List Codes → Ssl

pub record Sasl : Type 0 where
  pub mechanism : Codes
  pub username : Codes
  pub password : Codes

pub record KafkaClientSettings : Type 0 where
  pub client_id : Codes
  pub brokers : List Codes
  pub ssl : Option Ssl
  pub sasl : Option Sasl
  pub group_id : Codes

-- JavaScript's `??` with a text that is not set.
abbrev pub text_unless_unset : Option Codes → Codes → Codes
text_unless_unset none d = d
text_unless_unset (some s) d = s

-- A backslash before an n.
abbrev pub is_mark : ℕ → ℕ → Bool
is_mark c d = (c == 92) && (d == 110)

unfoldable pub has_mark : Codes → Bool
has_mark [] = false
has_mark (c ∷ []) = false
has_mark (c ∷ d ∷ s) = is_mark c d || has_mark (d ∷ s)

unfoldable pub replace_marks : Codes → Codes
replace_marks [] = []
replace_marks (c ∷ []) = c ∷ []
replace_marks (c ∷ d ∷ s) = elim (is_mark c d) as (λ _. Codes) [
  | true ↦ 10 ∷ replace_marks s
  | false ↦ c ∷ replace_marks (d ∷ s)
]

unfoldable pub normalize_pem : Codes → Codes
unfolding has_mark replace_marks
normalize_pem pem = if has_mark pem then replace_marks pem else pem

unfoldable pub build_ssl_settings : Option Codes → Ssl
build_ssl_settings none = default_trust
build_ssl_settings (some []) = default_trust
build_ssl_settings (some (c ∷ s)) = private_ca (normalize_pem (c ∷ s) ∷ [])

abbrev pub push_to_first : ℕ → List Codes → List Codes
push_to_first c [] = (c ∷ []) ∷ []
push_to_first c (s ∷ ss) = (c ∷ s) ∷ ss

unfoldable pub split_commas : Codes → List Codes
split_commas [] = [] ∷ []
split_commas (c ∷ s) =
    let rest = split_commas s in if c == 44 then [] ∷ rest else push_to_first c rest

abbrev pub not_empty : List Codes → List Codes
not_empty [] = []
not_empty ([] ∷ ss) = not_empty ss
not_empty ((c ∷ s) ∷ ss) = (c ∷ s) ∷ not_empty ss

abbrev pub trimmed_ca : Option Codes → Option Codes
trimmed_ca none = none
trimmed_ca (some s) = elim (trim s) as (λ _. Option Codes) [ [] ↦ none | c ∷ t ↦ some (c ∷ t) ]

abbrev pub is_set : Option Codes → Bool
is_set none = false
is_set (some []) = false
is_set (some (c ∷ s)) = true

abbrev pub sasl_of : Codes → Option Codes → Option Codes → Option Sasl
sasl_of m (some (c ∷ u)) (some (d ∷ p)) =
    some (record { mechanism = m; username = c ∷ u; password = d ∷ p })
sasl_of m u p = none

unfoldable pub parse_kafka_config : KafkaEnv → KafkaClientSettings
unfolding split_commas
parse_kafka_config env =
    let ssl_ca = trimmed_ca env.kafka_ssl_ca in
    let ssl = codes_eq (text_unless_unset env.kafka_ssl []) (codes "true") || is_set ssl_ca in
    record {
      client_id = text_unless_unset env.kafka_client_id (codes "realworld-api");
      brokers =
          not_empty (map trim (split_commas (text_or env.kafka_broker (codes "localhost:9092"))));
      ssl = if ssl then some (build_ssl_settings ssl_ca) else none;
      sasl =
          sasl_of (text_unless_unset env.kafka_sasl_mechanism (codes "plain")) env.kafka_username
            env.kafka_password;
      group_id = text_unless_unset env.kafka_group_id (codes "realworld-notification-group");
    }

not_empty-All : (ss : List Codes) → All (λ s. codes_eq s [] ≡ false) (not_empty ss)
not_empty-All [] = tt
not_empty-All ([] ∷ ss) = not_empty-All ss
not_empty-All ((c ∷ s) ∷ ss) = (refl, not_empty-All ss)

-- A text without the mark stays without it when a line break is put before it.
has_mark-line : (s : Codes) → has_mark s ≡ false → has_mark (10 ∷ s) ≡ false
unfolding has_mark
has_mark-line [] e = refl
has_mark-line (d ∷ s) e = e

replace_marks-mark :
    (c d : ℕ) (s : Codes) → is_mark c d ≡ true → replace_marks (c ∷ d ∷ s) ≡ 10 ∷ replace_marks s
unfolding replace_marks
replace_marks-mark c d s e =
    ap
      (λ b. elim b as (λ _. Codes) [
        | true ↦ 10 ∷ replace_marks s
        | false ↦ c ∷ replace_marks (d ∷ s)
      ])
      e

replace_marks-other :
    (c d : ℕ) (s : Codes)
    → is_mark c d ≡ false
    → replace_marks (c ∷ d ∷ s) ≡ c ∷ replace_marks (d ∷ s)
unfolding replace_marks
replace_marks-other c d s e =
    ap
      (λ b. elim b as (λ _. Codes) [
        | true ↦ 10 ∷ replace_marks s
        | false ↦ c ∷ replace_marks (d ∷ s)
      ])
      e

has_mark-cons :
    (c d : ℕ) (s : Codes)
    → is_mark c d ≡ false
    → has_mark (d ∷ s) ≡ false
    → has_mark (c ∷ d ∷ s) ≡ false
unfolding has_mark
has_mark-cons c d s e h = rw e h

is_mark-line : (c : ℕ) → is_mark c 10 ≡ false
is_mark-line c = ground arith

-- The replaced text begins with the unit it began with, or with a line break.
has_mark-replace_marks :
    (c d : ℕ) (s : Codes)
    → is_mark c d ≡ false
    → has_mark (replace_marks (d ∷ s)) ≡ false
    → has_mark (c ∷ replace_marks (d ∷ s)) ≡ false
unfolding has_mark replace_marks
has_mark-replace_marks c d [] e h = rw e refl
has_mark-replace_marks c d (x ∷ s) e h = elim (Bool-cases (is_mark d x)) [
  | inl f ↦
      let r = replace_marks-mark d x s f in
      subst (λ t. has_mark (c ∷ t) ≡ false) (sym r)
        (has_mark-cons c 10 (replace_marks s) (is_mark-line c)
          (subst (λ t. has_mark t ≡ false) r h))
  | inr f ↦
      let r = replace_marks-other d x s f in
      subst (λ t. has_mark (c ∷ t) ≡ false) (sym r)
        (has_mark-cons c d (replace_marks (x ∷ s)) e (subst (λ t. has_mark t ≡ false) r h))
]

replace_marks_lem : (s : Codes) → has_mark (replace_marks s) ≡ false
unfolding has_mark replace_marks
replace_marks_lem [] = refl
replace_marks_lem (c ∷ []) = refl
replace_marks_lem (c ∷ d ∷ s) = elim (Bool-cases (is_mark c d)) [
  | inl e ↦
      subst (λ t. has_mark t ≡ false) (sym (replace_marks-mark c d s e))
        (has_mark-line (replace_marks s) (replace_marks_lem s))
  | inr e ↦
      subst (λ t. has_mark t ≡ false) (sym (replace_marks-other c d s e))
        (has_mark-replace_marks c d s e (replace_marks_lem (d ∷ s)))
]

-- No backslash before an n is left in a certificate.
normalize_pem_lem : (pem : Codes) → has_mark (normalize_pem pem) ≡ false
unfolding normalize_pem
normalize_pem_lem pem = elim (Bool-cases (has_mark pem)) [
  | inl e ↦ rw e (replace_marks_lem pem)
  | inr e ↦ rw e e
]

-- How a client may connect: without TLS only if no certificate is given, and else with the certificate
-- that is, whose lines are real lines.
abbrev IsSecured : Option Codes → Option Ssl → Type 0
IsSecured ca none = is_set ca ≡ false
IsSecured ca (some default_trust) = is_set ca ≡ false
IsSecured none (some (private_ca pems)) = ⊥
IsSecured (some s) (some (private_ca pems)) =
    (pems ≡ (normalize_pem s ∷ [])) × (has_mark (normalize_pem s) ≡ false)

IsSecured-ssl :
    (b : Bool) (ca : Option Codes)
    → IsSecured ca (if b || is_set ca then some (build_ssl_settings ca) else none)
unfolding build_ssl_settings
IsSecured-ssl true none = refl
IsSecured-ssl false none = refl
IsSecured-ssl true (some []) = refl
IsSecured-ssl false (some []) = refl
IsSecured-ssl true (some (c ∷ s)) = (refl, normalize_pem_lem (c ∷ s))
IsSecured-ssl false (some (c ∷ s)) = (refl, normalize_pem_lem (c ∷ s))

-- No broker is the empty text, and the connection is secured as `IsSecured` says.
parse_kafka_config_lem :
    (env : KafkaEnv)
    → All (λ b. codes_eq b [] ≡ false) (parse_kafka_config env).brokers
      × IsSecured (trimmed_ca env.kafka_ssl_ca) (parse_kafka_config env).ssl
unfolding parse_kafka_config
parse_kafka_config_lem env = (
  not_empty-All (map trim (split_commas (text_or env.kafka_broker (codes "localhost:9092")))),
  IsSecured-ssl (codes_eq (text_unless_unset env.kafka_ssl []) (codes "true"))
      (trimmed_ca env.kafka_ssl_ca),
)
