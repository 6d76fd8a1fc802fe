-- ===== src/Readiness/Tests.antt =====
-- src/store/readiness.rs: a configuration with a mailbox and a mail server, on computed values.
use agent_first_mail.Prelude.{
  String, ◌≡◌, refl, Bool, true, false, none, some, [], ◌∷◌, str_eq, ◌&&◌,
}
use agent_first_mail.Push.Item.{ActionStep}
use agent_first_mail.Push.Samples.{drafts_step}
use agent_first_mail.Readiness.{Features, MailConfig, readiness}
use agent_first_mail.Readiness.Complete.{readiness_complete}

abbrev blank : String → Bool
blank text = str_eq text ""

abbrev all_features : Features
all_features = record { cloudflare = true; files = true; smtp = true }

abbrev smtp_step : ActionStep
smtp_step = record drafts_step { append_to_mailbox_id = none; smtp_send = some [] }

abbrev mailbox : MailConfig
mailbox = record {
  imap_host = some "imap.test";
  imap_username = some "ada";
  imap_password_secret = some "secret";
  r2_bucket = none;
  r2_access_key_id = none;
  r2_secret_access_key_secret = none;
  file_sources = [];
  smtp_host = some "smtp.test";
  smtp_username = some "ada";
  smtp_password_secret = some "secret";
  cloudflare_account_id = none;
  sending_api_token_secret = none;
  default_pull_ids = "inbox" ∷ [];
  send_steps = smtp_step ∷ drafts_step ∷ [];
}

without_password :
    (readiness blank all_features
      (record mailbox { smtp_password_secret = none })
      true).missing_config
    ≡ "identities (replace Me <me@example.com>)" ∷ "smtp.password_secret" ∷ []
unfolding readiness
without_password = refl

nothing_to_pull :
    (readiness blank all_features (record mailbox { default_pull_ids = [] }) false).ready_for_pull
    ≡ false
unfolding readiness
nothing_to_pull = refl

readiness_complete_example :
    ((readiness blank all_features mailbox false).ready_for_pull
      && (readiness blank all_features mailbox false).ready_for_send)
    ≡ true
unfolding readiness
readiness_complete_example = readiness_complete blank all_features mailbox false refl refl refl refl
