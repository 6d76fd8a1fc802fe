-- ===== src/Push/Mail.antt =====
-- src/types/push.rs (a prepared message), src/types/message.rs (a remote location) and
-- src/channels/mod.rs (a reply route): what the executors of steps hand to the remote side.
use agent_first_mail.Prelude.{
  ℕ, String, Bool, true, false, ◌&&◌, Option, none, some, List, ◌==◌, str_eq, Result, ok, err,
  app_error,
}

abbrev pub Bytes : Type 0
Bytes = List ℕ

pub data ChannelKind : Type 0 where
  file : ChannelKind

pub record ReplyRoute : Type 0 where
  pub channel : ChannelKind
  pub source_id : String
  pub conversation_id : String

pub record PreparedEmail : Type 0 where
  pub delivery_raw : Bytes
  pub envelope_from : String
  pub envelope_to : List String

pub data OutboundDelivery : Type 0 where
  email : PreparedEmail → OutboundDelivery
  file : ReplyRoute → OutboundDelivery

pub record PreparedOutbound : Type 0 where
  pub message_id : String
  pub raw : Bytes
  pub delivery : OutboundDelivery

abbrev email_of : OutboundDelivery → Result PreparedEmail
email_of (email mail) = ok mail
email_of (file route) = err (
    app_error "channel_operation_unsupported"
      "email transport cannot deliver a file-channel message")

-- `PreparedOutbound::email`
abbrev pub prepared_email : PreparedOutbound → Result PreparedEmail
prepared_email prepared = email_of prepared.delivery

abbrev pub is_file : OutboundDelivery → Bool
is_file (email mail) = false
is_file (file route) = true

-- A place of a message on the remote side.
pub record RemoteLocation : Type 0 where
  pub mailbox_name : String
  pub mailbox_id : Option String
  pub uid_validity : Option ℕ
  pub uid : Option ℕ
  pub flags : List String
  pub observed_rfc3339 : String
  pub missing_rfc3339 : Option String

-- Of a local message: its Message-ID, and its places, none if it has no remote part.
pub record MessageFile : Type 0 where
  pub rfc822_message_id : Option String
  pub locations : List RemoteLocation

abbrev pub opt_eq : Option ℕ → Option ℕ → Bool
opt_eq none none = true
opt_eq none (some n) = false
opt_eq (some m) none = false
opt_eq (some m) (some n) = m == n

abbrev pub same_place : RemoteLocation → RemoteLocation → Bool
same_place existing target =
    str_eq existing.mailbox_name target.mailbox_name
    && opt_eq existing.uid_validity target.uid_validity
    && opt_eq existing.uid target.uid
