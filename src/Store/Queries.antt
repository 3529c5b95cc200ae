-- ===== src/Store/Queries.antt =====
-- The queries that several handlers share: src/backend/admin.go, services.go, admin_suspend.go.
use syrinx.Common.{
  sym, ◌∙◌, ◌≡◌, ◌⊎◌, inl, inr, refl, ap, subst, Bool-cases, eq_iff, arith, find_test, String, Bool,
  true, false, not, ◌&&◌, ◌||◌, ◌==◌, if◌then◌else◌, Option, none, some, List, [], map, any, find,
  select, update, is_empty, split_last, sort,
}
use syrinx.Identity.{entity_separator, author_of}
use syrinx.Roles.{role_root, role_admin, is_root}
use syrinx.Permissions.{admin_permissions}
use syrinx.Store.{User, PublicKey, AdminRequest, Db}

unfoldable pub find_user : Db → String → Option User
find_user db id = find (λ u. u.id == id) db.users

role_of : Option User → String
role_of none = ""
role_of (some u) = u.role

-- userRoleQ and GetUserRole: "" without a users row.
unfoldable pub user_role : Db → String → String
unfolding find_user role_of
user_role db id = role_of (find_user db id)

has_role :
    (o : Option User)
    → is_empty (role_of o) ≡ false
    → (user : User) × (o ≡ some user) × (is_empty user.role ≡ false)
unfolding role_of
has_role none h = ground arith
has_role (some u) h = (u, refl, h)

-- A role is the users row's.
pub user_role_known :
    (db : Db) (id : String)
    → is_empty (user_role db id) ≡ false
    → (user : User) × (find (λ u. u.id == id) db.users ≡ some user) × (is_empty user.role ≡ false)
unfolding user_role find_user
user_role_known db id h = has_role (find_user db id) h

unfoldable pub permission_rows : Db → String → List String
permission_rows db id = map (λ r. r.1) (select (λ r. r.0 == id) db.user_permissions)

-- userPermissionsQ
unfoldable pub user_permissions : Db → String → String → String → List String
unfolding permission_rows
user_permissions db server_id user_id role =
    if is_root user_id role server_id
    then sort admin_permissions
    else if not (role == role_admin)
    then []
    else sort (permission_rows db user_id)

before_last : String → Option (String × String) → String
before_last id none = id
before_last id (some (owner, rest)) = owner

-- The SQL function invite_creator: what stands before the last "/".
unfoldable pub invite_creator : String → String
unfolding before_last
invite_creator invite_id = before_last invite_id (split_last entity_separator invite_id)

-- invitedByQ; a user without an invite has a NULL one, which matches nobody.
unfoldable pub invited_by : Db → String → String → Bool
unfolding invite_creator
invited_by db inviter_id user_id =
    any
      (λ u.
        u.id == user_id && not (is_empty u.invite_id) && invite_creator u.invite_id == inviter_id)
      db.users

-- hasAccountRemovalQ
unfoldable pub has_account_removal : Db → String → Bool
has_account_removal db user_id = any (λ r. r.user_id == user_id) db.account_removals

suspension_of : Option User → String
suspension_of none = ""
suspension_of (some u) = u.suspended_by

-- suspendedByQ
unfoldable pub suspended_by : Db → String → String
unfolding find_user suspension_of
suspended_by db user_id = suspension_of (find_user db user_id)

-- getAdminRequestQ; a row lock changes no row.
unfoldable pub get_admin_request : Db → String → Option AdminRequest
get_admin_request db id = find (λ r. r.id == id) db.admin_requests

-- GetSuspension
unfoldable pub get_suspension : Db → String → Option AdminRequest
unfolding get_admin_request
get_suspension db user_id =
    let request_id = suspended_by db user_id in
    if is_empty request_id then none else get_admin_request db request_id

-- The wire shape of a public key, in the fields that admin handlers read.
pub record Key : Type 0 where
  pub id : String
  pub user_id : String
  pub armor : String
  pub revoked : Bool
  pub restricted : Bool

owner_or_author : PublicKey → Option String → String
owner_or_author k none = k.owner
owner_or_author k (some author) = if is_empty k.owner then author else k.owner

wire_key : Db → PublicKey → Key
unfolding owner_or_author
wire_key db k = record {
  id = k.id;
  user_id = owner_or_author k (author_of k.id);
  armor = k.armor;
  revoked = any (λ r. r.key_id == k.id) db.key_revocations;
  restricted = k.restricted;
}

wire_row : Db → Option PublicKey → Option Key
unfolding wire_key
wire_row db none = none
wire_row db (some k) = some (wire_key db k)

-- GetPublicKey
unfoldable pub get_public_key : Db → String → Option Key
unfolding wire_row
get_public_key db id = wire_row db (find (λ k. k.id == id) db.public_keys)

-- What GetPublicKey answers is read off the key's row, with whether a revocation names it.
pub record KeyRow (db : Db) (id : String) (key : Key) : Type 0 where
  pub row : PublicKey
  pub found : find (λ k. k.id == id) db.public_keys ≡ some row
  pub named : row.id ≡ id
  pub owner :
      (row.owner ≡ key.user_id) ⊎ ((is_empty row.owner ≡ true) × (author_of id ≡ some key.user_id))
  pub armor : key.armor ≡ row.armor
  pub revoked : key.revoked ≡ any (λ r. r.key_id == id) db.key_revocations

owner_of :
    (k : PublicKey) (author : Option String)
    → (k.owner ≡ owner_or_author k author)
      ⊎ ((is_empty k.owner ≡ true) × (author ≡ some (owner_or_author k author)))
unfolding owner_or_author
owner_of k none = inl refl
owner_of k (some author) = elim (Bool-cases (is_empty k.owner)) [
  | inl t ↦ inr (t, rw t refl)
  | inr f ↦ inl (rw f refl)
]

read_row :
    (db : Db) (id : String) (key : Key) (o : Option PublicKey)
    → find (λ k. k.id == id) db.public_keys ≡ o
    → wire_row db o ≡ some key
    → KeyRow db id key
unfolding wire_row wire_key
read_row db id key none e h = ground arith
read_row db id key (some k) e h =
    let named : k.id ≡ id = (eq_iff k.id id).0 (find_test (λ k. k.id == id) db.public_keys e) in
    let key_is : wire_key db k ≡ key = ground arith in
    subst (KeyRow db id) key_is (record {
      row = k;
      found = e;
      named = named;
      owner =
          subst
            (λ x.
              (k.owner ≡ owner_or_author k (author_of k.id))
              ⊎ ((is_empty k.owner ≡ true)
                  × (author_of x ≡ some (owner_or_author k (author_of k.id)))))
            named (owner_of k (author_of k.id));
      armor = refl;
      revoked = ap (λ x. any (λ r. r.key_id == x) db.key_revocations) named;
    })

pub get_public_key_lem :
    (db : Db) (id : String) (key : Key) → get_public_key db id ≡ some key → KeyRow db id key
unfolding get_public_key wire_row
get_public_key_lem db id key h = read_row db id key (find (λ k. k.id == id) db.public_keys) refl h

text_inj : {a b : String} → some a ≡ some b → a ≡ b
text_inj e = ground arith

owner_is :
    (k : PublicKey) (author : Option String) (user : String)
    → is_empty user ≡ false
    → (k.owner ≡ user) ⊎ ((is_empty k.owner ≡ true) × (author ≡ some user))
    → owner_or_author k author ≡ user
unfolding owner_or_author
owner_is k none user n = elim [ inl e ↦ e | inr (e, a) ↦ ground arith ]
owner_is k (some author) user n = elim [
  | inl e ↦ let filled = ap is_empty e ∙ n in rw (owner_or_author, filled) e
  | inr (e, a) ↦ rw (owner_or_author, e) (text_inj a)
]

-- The key that GetPublicKey reads off a row
pub get_public_key_row :
    (db : Db) (id : String) (row : PublicKey) (user : String)
    → find (λ k. k.id == id) db.public_keys ≡ some row
    → row.id ≡ id
    → is_empty user ≡ false
    → (row.owner ≡ user) ⊎ ((is_empty row.owner ≡ true) × (author_of id ≡ some user))
    → (key : Key) × (get_public_key db id ≡ some key)
      × (key.user_id ≡ user)
      × (key.armor ≡ row.armor)
      × (key.revoked ≡ any (λ r. r.key_id == id) db.key_revocations)
unfolding get_public_key wire_row wire_key
get_public_key_row db id row user found named n owner = (
  wire_key db row,
  rw (get_public_key, found) refl,
  owner_is row (author_of row.id) user n (
      subst (λ x. (row.owner ≡ user) ⊎ ((is_empty row.owner ≡ true) × (author_of x ≡ some user)))
        (sym named) owner),
  refl,
  ap (λ x. any (λ r. r.key_id == x) db.key_revocations) named,
)

has_username : Option String → Bool
has_username none = false
has_username (some name) = true

-- activeLocalMembers
unfoldable pub active_local_members : Db → List String
unfolding has_username
active_local_members db =
    map (λ u. u.id)
      (select
        (λ u.
          is_empty u.suspended_by
          && has_username u.username
          && not (any (λ r. r.user_id == u.id) db.account_removals))
        db.users)

-- activeLocalAdmins
unfoldable pub active_local_admins : Db → String → List String
unfolding has_username
active_local_admins db exclude =
    map (λ u. u.id)
      (select
        (λ u.
          (u.role == role_root || u.role == role_admin)
          && not (u.id == exclude)
          && is_empty u.suspended_by
          && has_username u.username
          && not (any (λ r. r.user_id == u.id) db.account_removals))
        db.users)

-- UPDATE users SET f WHERE id = `id`
unfoldable pub update_user : Db → String → (User → User) → Db
update_user db id f = record db { users = update (λ u. u.id == id) f db.users }
