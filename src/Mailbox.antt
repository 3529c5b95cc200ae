-- ===== src/Mailbox.antt =====
-- src/backend/mailbox.go: messages encrypted to a member and kept until they are delivered. Encoding
-- and encrypting a payload, and a fresh id, are parameters.
pub mod Delivery
use syrinx.Common.{
  ℕ, String, Bool, true, false, ◌&&◌, not, ◌==◌, if◌then◌else◌, Option, none, some, List, [], ◌∷◌,
  ◌++◌, any, find, select, update, leb, has, is_empty, Result, ok, err, failed, refuse_if, or_fail,
  ◌>>=◌, ◌>>◌,
}
use syrinx.Identity.{canonical_id, id_separator}
use syrinx.Store.{User, PublicKey, Db}
use syrinx.Store.Queries.{find_user}
use syrinx.Admin.{Env, long_text_fits}

-- A row of user_mailbox
pub record Mail : Type 0 where
  pub id : String
  pub user_id : String
  pub ciphertext : String
  pub created_at : ℕ

-- MailboxPayload; `meta` is its JSON.
pub record MailboxPayload : Type 0 where
  pub kind : String
  pub message : String
  pub link : String
  pub meta : String

-- The user's id, qualified by this server's when it is bare
unfoldable pub qualified : String → String → String
qualified server_id user_id =
    if has id_separator user_id then user_id else canonical_id server_id user_id none

unfoldable pub is_revoked : Db → String → Bool
is_revoked db key_id = any (λ r. r.key_id == key_id) db.key_revocations

module _ (env : Env) (encrypt : MailboxPayload → String → Option String) where
  -- The member's active key, present and not revoked
  unfoldable pub active_armor : Db → String → Result String
  unfolding is_revoked
  active_armor db user_id =
      or_fail (find_user db user_id) (failed "recipient user not found") >>= λ user.
      refuse_if (is_empty user.active_key_id) (failed "recipient has no active public key")
      >> (or_fail (find (λ k. k.id == user.active_key_id) db.public_keys) (failed "no rows")
          >>= λ key.
              refuse_if (is_revoked db key.id) (failed "recipient has no active public key")
              >> ok key.armor)

  -- SendMailboxMessage: the new row's id and ciphertext, and the table
  unfoldable pub send_mailbox_message :
      Option String
      → Db
      → List Mail
      → String
      → MailboxPayload
      → ℕ
      → Result ((String × String) × List Mail)
  unfolding qualified active_armor
  send_mailbox_message new_id db mailbox user_id payload now =
      refuse_if (not (long_text_fits env payload.message))
        (failed "mailbox message exceeds 420 characters")
      >> (active_armor db (qualified env.server_id user_id) >>= λ armor.
          or_fail (encrypt payload armor) (failed "encrypt") >>= λ ciphertext.
          or_fail new_id (failed "id") >>= λ id.
          refuse_if (any (λ m. m.id == id) mailbox)
            (failed "duplicate key value violates unique constraint")
          >> ok (
            (id, ciphertext),
            mailbox
                ++ record {
                  id = id;
                  user_id = qualified env.server_id user_id;
                  ciphertext = ciphertext;
                  created_at = now;
                }
                  ∷ [],
          ))

-- INSERT into a list in the order of created_at
unfoldable pub insert_mail : Mail → List Mail → List Mail
insert_mail m [] = m ∷ []
insert_mail m (x ∷ xs) =
    let rest = insert_mail m xs in if leb m.created_at x.created_at then m ∷ x ∷ xs else x ∷ rest

-- ORDER BY created_at
unfoldable pub by_time : List Mail → List Mail
unfolding insert_mail
by_time [] = []
by_time (x ∷ xs) = insert_mail x (by_time xs)

-- GetPendingMailbox
unfoldable pub get_pending_mailbox : List Mail → String → List Mail
unfolding by_time
get_pending_mailbox mailbox user_id = by_time (select (λ m. m.user_id == user_id) mailbox)

-- DeleteMailboxMessage
unfoldable pub delete_mailbox_message : List Mail → String → String → List Mail
delete_mailbox_message mailbox id user_id =
    select (λ m. not (m.id == id && m.user_id == user_id)) mailbox
