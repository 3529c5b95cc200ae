-- ===== src/Witness/MailRuns.antt =====
-- A message to the member "b", whose id is bare, at a server "s".
use syrinx.Common.{String, Option, some, [], ◌∷◌, refl}
use syrinx.Identity.{canonical_id}
use syrinx.Store.{Db}
use syrinx.Store.Queries.{find_user}
use syrinx.Admin.{long_text_fits}
use syrinx.Mailbox.{Mail, MailboxPayload, send_mailbox_message}
use syrinx.Mailbox.Delivery.{Sent, send_mailbox_message-Sent}
use syrinx.Witness.Data.{env, start, member, key_of}

abbrev sealed_for : MailboxPayload → String → Option String
sealed_for payload armor = some armor

abbrev with_key : Db
with_key = record start {
  users = record (member "b@s" "user") { active_key_id = "b@s/B" } ∷ [];
  public_keys = key_of "b@s/B" "b@s" "b key" ∷ [];
}

abbrev payload : MailboxPayload
payload = record { kind = "note"; message = "hi"; link = "/mentions"; meta = "null" }

abbrev mail : Mail
mail = record { id = "m1"; user_id = "b@s"; ciphertext = "b key"; created_at = 7 }

send_mailbox_message-Sent_example :
    Sent env sealed_for with_key [] "b" payload 7 "m1" "b key" (mail ∷ [])
unfolding send_mailbox_message long_text_fits find_user canonical_id
send_mailbox_message-Sent_example =
    send_mailbox_message-Sent env sealed_for (some "m1") with_key [] (mail ∷ []) "b" "m1" "b key"
      payload 7 refl
