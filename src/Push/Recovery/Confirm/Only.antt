-- ===== src/Push/Recovery/Confirm/Only.antt =====
-- src/push_queue/recovery.rs: recovery writes nothing to the queue but the settled item.
use agent_first_mail.Push.Session.{Session}
use agent_first_mail.Push.Recovery.Yields.{Yields}
