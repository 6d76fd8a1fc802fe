-- ===== src/Readiness.antt =====
-- src/store/readiness.rs: whether the configuration is complete for pulling and for sending. The test
-- for a blank text (`trim().is_nil()`) and that for a placeholder identity are arguments.
pub mod Complete
mod Tests
use agent_first_mail.Prelude.{
  String, Bool, true, false, not, ◌&&◌, ◌||◌, Option, none, some, List, [], ◌∷◌, ◌++◌, is_nil, any,
  is_some, if◌then◌else◌,
}
use agent_first_mail.References.{id_set}
use agent_first_mail.Push.Item.{ActionStep}

pub record RouteReadiness : Type 0 where
  pub configured : Bool
  pub feature_enabled : Bool
  pub ready : Bool
  pub missing_config : List String

pub missing_keys : List (String × Bool) → List String
missing_keys [] = []
missing_keys ((key, present) ∷ required) =
    let later = missing_keys required in if present then later else key ∷ later

-- `RouteReadiness::new`
abbrev pub new_route : Bool → Bool → List (String × Bool) → RouteReadiness
new_route configured feature_enabled required =
    let missing : List String = missing_keys required in
    record {
      configured = configured;
      feature_enabled = feature_enabled;
      ready = configured && feature_enabled && is_nil missing;
      missing_config = missing;
    }

-- The features that the program is built with.
pub record Features : Type 0 where
  pub cloudflare : Bool
  pub files : Bool
  pub smtp : Bool

-- What is read of the configuration.
pub record MailConfig : Type 0 where
  pub imap_host : Option String
  pub imap_username : Option String
  pub imap_password_secret : Option String
  pub r2_bucket : Option String
  pub r2_access_key_id : Option String
  pub r2_secret_access_key_secret : Option String
  pub file_sources : List String
  pub smtp_host : Option String
  pub smtp_username : Option String
  pub smtp_password_secret : Option String
  pub cloudflare_account_id : Option String
  pub sending_api_token_secret : Option String
  pub default_pull_ids : List String
  pub send_steps : List ActionStep

module _ (blank : String → Bool) where
  abbrev pub is_blank : Option String → Bool
  is_blank none = true
  is_blank (some value) = blank value

  -- `CloudflareConfig::is_configured`
  abbrev pub is_configured : MailConfig → Bool
  is_configured config = not (is_blank config.r2_bucket)

  -- `missing_smtp_auth_config`, with the keys that are there
  abbrev pub smtp_auth : Option String → Option String → List (String × Bool)
  smtp_auth none none = []
  smtp_auth username password =
      ("smtp.username", not (is_blank username))
      ∷ ("smtp.password_secret", not (is_blank password))
      ∷ []

abbrev pub imap_route : MailConfig → RouteReadiness
imap_route config = new_route (is_some config.imap_host) true (
    ("imap.host", is_some config.imap_host)
    ∷ ("imap.username", is_some config.imap_username)
    ∷ ("imap.password_secret", is_some config.imap_password_secret)
    ∷ [])

abbrev pub cloudflare_route : (String → Bool) → Features → MailConfig → RouteReadiness
cloudflare_route blank features config =
    new_route (is_configured blank config) features.cloudflare (
      ("cloudflare.r2.bucket", is_some config.r2_bucket)
      ∷ ("cloudflare.r2.access_key_id", is_some config.r2_access_key_id)
      ∷ ("cloudflare.r2.secret_access_key_secret", is_some config.r2_secret_access_key_secret)
      ∷ [])

abbrev pub files_route : Features → MailConfig → RouteReadiness
files_route features config =
    new_route (not (is_nil config.file_sources)) features.files
      (("files.sources", not (is_nil config.file_sources)) ∷ [])

abbrev pub smtp_route : (String → Bool) → Features → MailConfig → RouteReadiness
smtp_route blank features config = new_route (is_some config.smtp_host) features.smtp (
    ("smtp.host", is_some config.smtp_host)
    ∷ smtp_auth blank config.smtp_username config.smtp_password_secret)

abbrev pub sending_route : Features → MailConfig → RouteReadiness
sending_route features config =
    new_route (is_some config.sending_api_token_secret) features.cloudflare (
      ("cloudflare.account_id", is_some config.cloudflare_account_id)
      ∷ ("cloudflare.sending.api_token_secret", is_some config.sending_api_token_secret)
      ∷ [])

abbrev pub with_pull_ids : List String → RouteReadiness → RouteReadiness
with_pull_ids [] route = record route {
  ready = false;
  missing_config = route.missing_config ++ "actions.pull.default_mailbox_ids" ∷ [];
}
with_pull_ids (id ∷ ids) route = route

abbrev pub step_route :
    RouteReadiness → RouteReadiness → RouteReadiness → ActionStep → Option RouteReadiness
step_route imap smtp sending step =
    if is_some step.smtp_send
    then some smtp
    else if is_some step.cloudflare_send
    then some sending
    else if is_some step.append_to_mailbox_id
        || is_some step.move_to_mailbox_id
        || not (is_nil step.add_flags)
    then some imap
    else none

abbrev pub route_ready : Option RouteReadiness → Bool
route_ready none = true
route_ready (some route) = route.ready

abbrev pub route_missing : Option RouteReadiness → List String
route_missing none = []
route_missing (some route) = route.missing_config

pub routes_ready : List RouteReadiness → Bool
routes_ready [] = true
routes_ready (route ∷ routes) = (not route.configured || route.ready) && routes_ready routes

-- What the selected routes miss.
pub routes_missing : List RouteReadiness → List String
routes_missing [] = []
routes_missing (route ∷ routes) =
    let later = routes_missing routes in
    if route.configured then route.missing_config ++ later else later

pub steps_ready : (ActionStep → Option RouteReadiness) → List ActionStep → Bool
steps_ready route [] = true
steps_ready route (step ∷ steps) = route_ready (route step) && steps_ready route steps

pub steps_missing : (ActionStep → Option RouteReadiness) → List ActionStep → List String
steps_missing route [] = []
steps_missing route (step ∷ steps) = route_missing (route step) ++ steps_missing route steps

pub record ReadinessReport : Type 0 where
  pub ready_for_pull : Bool
  pub ready_for_send : Bool
  pub missing_config : List String

unfoldable pub readiness_of :
    RouteReadiness
    → RouteReadiness
    → RouteReadiness
    → RouteReadiness
    → RouteReadiness
    → List String
    → List ActionStep
    → Bool
    → ReadinessReport
unfolding any routes_ready routes_missing steps_ready steps_missing id_set
readiness_of imap cloudflare files smtp sending pull_ids steps placeholder_identity =
    let sources : List RouteReadiness = with_pull_ids pull_ids imap ∷ cloudflare ∷ files ∷ [] in
    let selected : Bool = any (λ (route : RouteReadiness). route.configured) sources in
    let email_selected : Bool =
      imap.configured
      || cloudflare.configured
      || smtp.configured
      || sending.configured
      || not files.configured in
    let route : ActionStep → Option RouteReadiness = step_route imap smtp sending in
    let missing : List String =
      routes_missing sources
      ++ (if selected then [] else imap.missing_config)
      ++ (if email_selected then steps_missing route steps else [])
      ++ (if placeholder_identity then "identities (replace Me <me@example.com>)" ∷ [] else []) in
    record {
      ready_for_pull = selected && routes_ready sources;
      ready_for_send =
          not placeholder_identity
          && (files.ready || (email_selected && (not email_selected || steps_ready route steps)));
      missing_config = id_set missing [];
    }

unfoldable pub readiness : (String → Bool) → Features → MailConfig → Bool → ReadinessReport
unfolding missing_keys readiness_of
readiness blank features config placeholder_identity =
    readiness_of (imap_route config) (cloudflare_route blank features config)
      (files_route features config) (smtp_route blank features config)
      (sending_route features config) config.default_pull_ids config.send_steps placeholder_identity
