-- ===== src/Admin/Open/Signer.antt =====
-- What callerSigningKey of src/backend/admin.go lets a caller sign with.
use syrinx.Common.{
  String, Bool, true, false, not, ◌||◌, ◌==◌, Option, none, some, any, find, is_empty, ok, ok_inj,
  err-ok, if_ok, ◌≡◌, ◌⊎◌, refl, sym, subst, ◌∙◌, arith, eq_iff,
}
use syrinx.Identity.{author_of}
use syrinx.Store.{PublicKey, Db}
use syrinx.Store.Queries.{Key, get_public_key, get_public_key_lem, get_public_key_row}
use syrinx.Admin.Open.{active_key_of, caller_signing_key}

-- A key of the user's own, by its row or, where the row names no owner, by its id; no revocation
-- names it.
pub record UnrevokedKey (db : Db) (key_id user_id armor : String) : Type 0 where
  pub row : PublicKey
  pub found : find (λ k. k.id == key_id) db.public_keys ≡ some row
  pub named : row.id ≡ key_id
  pub owner :
      (row.owner ≡ user_id) ⊎ ((is_empty row.owner ≡ true) × (author_of key_id ≡ some user_id))
  pub text : row.armor ≡ armor
  pub unrevoked : any (λ r. r.key_id == key_id) db.key_revocations ≡ false

neither : (a b : Bool) → (not a || b) ≡ false → (a ≡ true) × (b ≡ false)
neither a b h = ground arith

of_key :
    (o : Option Key) (user_id : String) (key : Key)
    → active_key_of user_id o ≡ ok key
    → (o ≡ some key) × (key.user_id ≡ user_id) × (key.revoked ≡ false)
unfolding active_key_of
of_key none user_id key h = err-ok h
of_key (some k) user_id key h =
    if_ok (not (k.user_id == user_id) || k.revoked) (λ _ bad. err-ok bad)
      (λ passed e.
        let (mine, fresh) = neither (k.user_id == user_id) k.revoked passed in
        subst (λ x. (some k ≡ some x) × (x.user_id ≡ user_id) × (x.revoked ≡ false)) (ok_inj e)
          (refl, (eq_iff k.user_id user_id).0 mine, fresh))
      h

pub caller_signing_key_lem :
    (db : Db) (key_id user_id : String) (key : Key)
    → caller_signing_key db key_id user_id ≡ ok key
    → UnrevokedKey db key_id user_id key.armor
unfolding caller_signing_key
caller_signing_key_lem db key_id user_id key h =
    let (found, mine, fresh) = of_key (get_public_key db key_id) user_id key h in
    let r = get_public_key_lem db key_id key found in
    record {
      row = r.row;
      found = r.found;
      named = r.named;
      owner =
          subst
            (λ u. (r.row.owner ≡ u) ⊎ ((is_empty r.row.owner ≡ true) × (author_of key_id ≡ some u)))
            mine r.owner;
      text = sym r.armor;
      unrevoked = sym r.revoked ∙ fresh;
    }

pub UnrevokedKey-caller_signing_key :
    (db : Db) (key_id user_id armor : String)
    → is_empty user_id ≡ false
    → UnrevokedKey db key_id user_id armor
    → (key : Key) × (caller_signing_key db key_id user_id ≡ ok key) × (key.armor ≡ armor)
unfolding caller_signing_key active_key_of
UnrevokedKey-caller_signing_key db key_id user_id armor n u =
    let (key, read, mine, text, revoked) =
      get_public_key_row db key_id u.row user_id u.found u.named n u.owner in
    let same = (eq_iff key.user_id user_id).1 mine in
    let fresh = revoked ∙ u.unrevoked in
    (key, rw (caller_signing_key, read, active_key_of, same, fresh) refl, text ∙ u.text)
