-- ===== src/Mailbox/Delivery.antt =====
-- What src/backend/mailbox.go keeps for whom.
use syrinx.Common.{
  select-select, double_not, ℕ, String, Bool, true, false, ◌&&◌, not, ◌==◌, Option, some, List, [],
  ◌∷◌, ◌++◌, any, find, is_empty, ◌≡◌, ◌≢◌, refl, subst, sym, ap, ◌∙◌, arith, eq_iff,
  eq-false_of_ne, ok, failed, refuse_if, refuse_if-ok, or_fail, or_fail-some, >>=-eq-ok, >>-eq-ok,
  ok_inj,
}
use syrinx.Admin.{Env, long_text_fits}
use syrinx.Store.{User, PublicKey, Db}
use syrinx.Store.Queries.{find_user}
use syrinx.Mailbox.{
  Mail, MailboxPayload, qualified, is_revoked, active_armor, send_mailbox_message, by_time,
  get_pending_mailbox, delete_mailbox_message,
}

not_both : (a b : Bool) → b ≡ false → not (a && b) ≡ true
not_both a b h = ground arith

-- Deleting as one user leaves what every other user is sent, whatever the id.
get_pending_mailbox-delete_mailbox_message :
    (mailbox : List Mail) (id user_id other : String)
    → other ≢ user_id
    → get_pending_mailbox (delete_mailbox_message mailbox id user_id) other
      ≡ get_pending_mailbox mailbox other
unfolding get_pending_mailbox delete_mailbox_message
get_pending_mailbox-delete_mailbox_message mailbox id user_id other n = ap by_time (
    select-select (λ m. m.user_id == other) (λ m. not (m.id == id && m.user_id == user_id)) mailbox
      (λ m t.
        not_both _ _
          (eq-false_of_ne m.user_id user_id (λ e. n (sym ((eq_iff m.user_id other).0 t) ∙ e)))))

-- The member has an active key, not revoked, with this text.
pub record ActiveKey (db : Db) (user_id armor : String) : Type 0 where
  pub user : User
  pub key : PublicKey
  pub found : find_user db user_id ≡ some user
  pub has_key : is_empty user.active_key_id ≡ false
  pub row : find (λ k. k.id == user.active_key_id) db.public_keys ≡ some key
  pub kept : is_revoked db key.id ≡ false
  pub text : key.armor ≡ armor

module _ (env : Env) (encrypt : MailboxPayload → String → Option String) where
  active_armor_lem :
      (db : Db) (user_id armor : String)
      → active_armor env encrypt db user_id ≡ ok armor
      → ActiveKey db user_id armor
  unfolding active_armor
  active_armor_lem db user_id armor h =
      let (user, found, a1) =
        >>=-eq-ok (or_fail (find_user db user_id) (failed "recipient user not found")) _ h in
      let (has_key, a2) =
        >>-eq-ok
          (refuse_if (is_empty user.active_key_id) (failed "recipient has no active public key")) _
          a1 in
      let (key, row, a3) =
        >>=-eq-ok
          (or_fail (find (λ k. k.id == user.active_key_id) db.public_keys) (failed "no rows")) _
          a2 in
      let (kept, same) =
        >>-eq-ok (refuse_if (is_revoked db key.id) (failed "recipient has no active public key")) _
          a3 in
      record {
        user = user;
        key = key;
        found = or_fail-some _ found;
        has_key = refuse_if-ok _ _ has_key;
        row = or_fail-some _ row;
        kept = refuse_if-ok _ _ kept;
        text = ok_inj same;
      }

  -- What was sent, to whom, and under which key.
  pub record Sent (db : Db) (mailbox : List Mail) (user_id : String) (payload : MailboxPayload)
      (now : ℕ) (id ciphertext : String) (after : List Mail) : Type 0 where
    pub short : long_text_fits env payload.message ≡ true
    pub armor : String
    pub active : ActiveKey db (qualified env.server_id user_id) armor
    pub sealed : encrypt payload armor ≡ some ciphertext
    pub unused : any (λ m. m.id == id) mailbox ≡ false
    pub added :
        after
        ≡ mailbox
          ++ record {
            id = id;
            user_id = qualified env.server_id user_id;
            ciphertext = ciphertext;
            created_at = now;
          }
            ∷ []

  sent :
      {db : Db} {mailbox after : List Mail} {user_id id ciphertext armor i c : String}
      {payload : MailboxPayload} {now : ℕ}
      → long_text_fits env payload.message ≡ true
      → ActiveKey db (qualified env.server_id user_id) armor
      → encrypt payload armor ≡ some c
      → any (λ m. m.id == i) mailbox ≡ false
      → ◌≡◌ {A = (String × String) × List Mail}
          (
            (i, c),
            mailbox
                ++ record {
                  id = i;
                  user_id = qualified env.server_id user_id;
                  ciphertext = c;
                  created_at = now;
                }
                  ∷ [],
          )
          ((id, ciphertext), after)
      → Sent db mailbox user_id payload now id ciphertext after
  sent {db} {mailbox} {after} {user_id} {id} {ciphertext} {armor} {i} {c} {payload} {now} short
        active sealed unused answer =
      subst (λ z. Sent db mailbox user_id payload now z.0.0 z.0.1 z.1) answer
        (record {
          short = short;
          armor = armor;
          active = active;
          sealed = sealed;
          unused = unused;
          added = refl;
        })

  -- A message that is sent fits a long text and is added last, with an id that no message has, for
  -- the member whose id is given or, where it is bare, qualified by this server's; it is encrypted
  -- to that member's active key, which is there and not revoked.
  pub send_mailbox_message-Sent :
      (new_id : Option String) (db : Db) (mailbox after : List Mail)
      (user_id id ciphertext : String) (payload : MailboxPayload) (now : ℕ)
      → send_mailbox_message env encrypt new_id db mailbox user_id payload now
        ≡ ok ((id, ciphertext), after)
      → Sent db mailbox user_id payload now id ciphertext after
  unfolding send_mailbox_message
  send_mailbox_message-Sent new_id db mailbox after user_id id ciphertext payload now h =
      let (fits, h1) =
        >>-eq-ok
          (refuse_if (not (long_text_fits env payload.message))
            (failed "mailbox message exceeds 420 characters"))
          _ h in
      let (armor, active, h2) =
        >>=-eq-ok (active_armor env encrypt db (qualified env.server_id user_id)) _ h1 in
      let (c, sealed, h3) = >>=-eq-ok (or_fail (encrypt payload armor) (failed "encrypt")) _ h2 in
      let (i, fresh, h4) = >>=-eq-ok (or_fail new_id (failed "id")) _ h3 in
      let (unused, done) =
        >>-eq-ok
          (refuse_if (any (λ m. m.id == i) mailbox)
            (failed "duplicate key value violates unique constraint"))
          _ h4 in
      sent (double_not _ (refuse_if-ok _ _ fits)) (active_armor_lem db _ armor active)
        (or_fail-some _ sealed) (refuse_if-ok _ _ unused) (ok_inj done)
