-- ===== src/Flags.antt =====
-- src/backend/flags.go: flagging a reed, withdrawing a flag, dismissing a case and deleting it. The
-- call that asks a peer for a key, inside resolvePublicKey, is the parameter `fetch`. A flag on
-- another server's reed, which is relayed there, is answered by `relayed`.
pub mod Payloads
pub mod Cases
pub mod Sound
pub mod Stored
pub mod Deleted
pub mod Steps
use syrinx.Common.{
  ℕ, ◌+◌, String, Bool, true, false, ◌&&◌, ◌||◌, not, ◌==◌, if◌then◌else◌, Option, none, some, List,
  [], ◌∷◌, ◌++◌, any, find, select, update, is_none, leb, ltb, length, is_empty, trim_space,
  contains, map, Result, ok, err, Failure, refused, failed, refuse_if, or_fail, ◌>>=◌, ◌>>◌,
}
use syrinx.Identity.{parse_identity_id, canonical_id, parse_key_fingerprint, author_of}
use syrinx.Roles.{is_root_identity, is_admin}
use syrinx.Signing.{Payload}
use syrinx.Flags.Payloads
use syrinx.Store.{
  UserSignature, ServerSignature, ReedIdentity, FlagDismissal, FlagCase, FlagWithdrawal, ReedFlag,
  Db,
}
use syrinx.Store.Flags.{is_open, void_case_if_done}
use syrinx.Store.Queries.{Key, get_public_key, user_role}
use syrinx.Admin.{Env, countersign}

abbrev pub max_flag_note_chars : ℕ
max_flag_note_chars = 140

abbrev pub max_dismissal_reason_chars : ℕ
max_dismissal_reason_chars = 140

-- 183 days, in seconds
abbrev pub flag_case_retention : ℕ
flag_case_retention = 15811200

unfoldable pub owned : String → Option (String × String × String) → Bool
owned reporter_id none = false
owned reporter_id (some (owner, server_id, fingerprint)) =
    canonical_id server_id owner none == reporter_id

-- Is the signature there, and by a key of the reporter's?
unfoldable pub signed_by : String → UserSignature → Bool
unfolding owned
signed_by reporter_id signature =
    owned reporter_id (parse_key_fingerprint signature.key_id) && not (is_empty signature.armor)

-- checkFlag
unfoldable pub check_flag : Env → ReedFlag → Result (Unit {0})
unfolding signed_by
check_flag env f =
    refuse_if (is_none (author_of f.reed_id)) (refused 400 "bad_reed_id")
    >> refuse_if (ltb max_flag_note_chars (env.count_characters f.note)) (refused 400 "bad_note")
    >> refuse_if (not (signed_by f.reporter_id f.signature)) (refused 400 "bad_key")

-- A row of flag_cases that takes new flags of its reed
unfoldable pub takes_flags : String → FlagCase → Bool
takes_flags reed_id c = c.reed_id == reed_id && is_open c && not c.restored

-- What ON CONFLICT DO NOTHING meets on a new case: its id, or the index on open cases of the reed
unfoldable pub case_conflict : Db → String → String → Bool
unfolding takes_flags
case_conflict db id reed_id = any (λ c. c.id == id || takes_flags reed_id c) db.flag_cases

-- openCaseTx: one turn of its loop for each fresh id
unfoldable pub open_case : List String → Db → String → ℕ → Result (String × Db)
unfolding takes_flags case_conflict
open_case [] db reed_id at = err (failed "no open case")
open_case (id ∷ ids) db reed_id at =
    let again = open_case ids db reed_id at in
    elim (find (takes_flags reed_id) db.flag_cases) [
      | some c ↦ ok (c.id, db)
      | none ↦
          if case_conflict db id reed_id
          then again
          else ok (
            id,
            record db {
              flag_cases =
                  db.flag_cases
                  ++ record {
                    id = id;
                    reed_id = reed_id;
                    opened_at = at;
                    restored = false;
                    dismissal = none;
                    voided_at = none;
                  }
                    ∷ [];
            },
          )
    ]

unfoldable pub is_flag : String → String → ReedFlag → Bool
is_flag reed_id reporter_id f = f.reed_id == reed_id && f.reporter_id == reporter_id

-- insertReedFlagTx, on the table's primary key
unfoldable pub insert_reed_flag : Db → ReedFlag → Result Db
unfolding is_flag
insert_reed_flag db f =
    if any (is_flag f.reed_id f.reporter_id) db.reed_flags
    then err (failed "duplicate key value violates unique constraint")
    else ok (record db { reed_flags = db.reed_flags ++ record f { withdrawal = none } ∷ [] })

-- The stored flag: in its case, with its author and the countersignature
unfoldable pub placed : ReedFlag → String → String → ServerSignature → ReedFlag
placed f case_id author_id sig = record f {
  case_id = case_id;
  author_id = author_id;
  server_signature = sig;
  withdrawal = none;
}

module _ (env : Env) where
  -- DataService.StoreFlag, with the signing that storeFlag hands it
  unfoldable pub store_flag : List String → Db → ReedFlag → ℕ → Result (ReedFlag × Db)
  unfolding open_case insert_reed_flag is_flag placed
  store_flag case_ids db f now =
      or_fail (find (λ r. r.id == f.reed_id && r.server_id == env.server_id) db.reed_identities)
        (refused 404 "reed_not_found")
      >>= λ reed.
          refuse_if (is_root_identity reed.author_id env.server_id) (refused 403 "root_reed")
          >> refuse_if (reed.author_id == f.reporter_id) (refused 403 "own_reed")
          >> refuse_if (any (is_flag f.reed_id f.reporter_id) db.reed_flags)
              (refused 409 "already-flagged")
          >> (open_case case_ids db f.reed_id now >>= λ (case_id, opened).
              countersign env
                (Payloads.reed_flag_server f.reed_id f.reporter_id case_id env.fingerprint
                  f.signature.armor now)
                now
              >>= λ sig.
                  (let stored = placed f case_id reed.author_id sig in
                    insert_reed_flag opened stored >>= λ db'. ok (stored, db')))

  unfoldable pub fetched :
      (String → String → Option Key) → String → Option (String × String × String) → Option Key
  fetched fetch id none = none
  fetched fetch id (some (owner, server_id, fingerprint)) =
      if server_id == env.server_id then none else fetch server_id id

  -- resolvePublicKey
  unfoldable pub resolve_public_key : (String → String → Option Key) → Db → String → Option Key
  unfolding fetched
  resolve_public_key fetch db id = elim (get_public_key db id) [
    | some key ↦ some key
    | none ↦ fetched fetch id (parse_key_fingerprint id)
  ]

  unfoldable pub active : Option Key → Result Key
  active none = err (refused 401 "bad_key")
  active (some key) = if key.revoked then err (refused 401 "bad_key") else ok key

  -- The key is there and not revoked, and the signature over the payload is by it.
  unfoldable pub verify_signed :
      (String → String → Option Key) → Db → UserSignature → Payload → Result (Unit {0})
  unfolding active
  verify_signed fetch db signature payload =
      active (resolve_public_key fetch db signature.key_id) >>= λ key.
      refuse_if (not (env.crypto.verify_signature payload signature.armor key.armor))
        (refused 401 "bad_signature")

  -- verifyFlagSignature
  unfoldable pub verify_flag_signature :
      (String → String → Option Key) → Db → ReedFlag → Result (Unit {0})
  verify_flag_signature fetch db f =
      verify_signed fetch db f.signature
        (Payloads.reed_flag f.reed_id f.reporter_id f.signature.key_id f.note)

  unfoldable pub embedded_server :
      Option (String × String × String) → Option (String × String) → Option String
  embedded_server (some (owner, server_id, fingerprint)) identity = some server_id
  embedded_server none none = none
  embedded_server none (some (user, server_id)) = some server_id

  -- foreignServerOf
  unfoldable pub foreign_server_of : String → Option String
  unfolding embedded_server
  foreign_server_of id = elim (embedded_server (parse_key_fingerprint id) (parse_identity_id id)) [
    | none ↦ none
    | some server_id ↦ if server_id == env.server_id then none else some server_id
  ]

  -- FlagReed; a flag on another server's reed is answered by what its home server answers.
  unfoldable pub flag_reed :
      (String → String → Option Key)
      → (ReedFlag → Result (ReedFlag × Db))
      → List String
      → Db
      → String
      → ReedFlag
      → ℕ
      → Result (ReedFlag × Db)
  unfolding check_flag verify_flag_signature foreign_server_of store_flag
  flag_reed fetch relayed case_ids db caller_id f now =
      refuse_if (is_empty caller_id) (refused 401 "authentication required")
      >> refuse_if (not (f.reporter_id == caller_id)) (refused 403 "reporterID must be the caller")
      >> check_flag env f
      >> verify_flag_signature fetch db f
      >> (or_fail (author_of f.reed_id) (refused 400 "bad_reed_id") >>= λ author.
          refuse_if (author == caller_id) (refused 403 "own_reed")
          >> (if is_none (foreign_server_of author)
              then store_flag case_ids db f now
              else relayed f))

  -- setCaseDismissalTx
  unfoldable pub set_case_dismissal : Db → String → FlagDismissal → Bool → Result Db
  set_case_dismissal db case_id d over_void =
      let closes = λ (c : FlagCase).
        c.id == case_id && (if over_void then is_none c.dismissal else is_open c) in
      if any closes db.flag_cases
      then ok (record db {
        flag_cases =
            update closes (λ c. record c { dismissal = some d; voided_at = none }) db.flag_cases;
      })
      else err (refused 409 "case_closed")

  -- DataService.DismissCase
  unfoldable pub store_dismissal : Db → String → FlagDismissal → Result Db
  unfolding set_case_dismissal
  store_dismissal db case_id d = set_case_dismissal db case_id d false

  -- caseFrozen
  unfoldable pub case_frozen : FlagCase → Bool
  case_frozen c = c.restored && env.recovery_mode == "lockdown"

  with_author : FlagCase → Option ReedIdentity → Option (FlagCase × String)
  with_author c none = none
  with_author c (some reed) = some (c, reed.author_id)

  -- GetFlagCase, with the author joined from reed_identities
  unfoldable pub get_flag_case : Db → String → Option (FlagCase × String)
  unfolding with_author
  get_flag_case db case_id = elim (find (λ c. c.id == case_id) db.flag_cases) [
    | none ↦ none
    | some c ↦ with_author c (find (λ r. r.id == c.reed_id) db.reed_identities)
  ]

  -- checkFlagDismissal
  unfoldable pub check_flag_dismissal :
      (String → String → Option Key) → Db → FlagCase → FlagDismissal → String → Result (Unit {0})
  unfolding verify_signed
  check_flag_dismissal fetch db c d raw_reason =
      refuse_if
        (is_empty d.reason
          || not (d.reason == raw_reason)
          || ltb max_dismissal_reason_chars (env.count_characters d.reason))
        (refused 400 "bad_reason")
      >> (or_fail (author_of d.signature.key_id) (refused 400 "bad_key") >>= λ owner.
          refuse_if (not (owner == d.dismissed_by) || is_empty d.signature.armor)
            (refused 400 "bad_key")
          >> verify_signed fetch db d.signature
              (Payloads.flag_dismissal c.id c.reed_id d.reason d.signature.key_id))

  unfoldable pub admin_of : Db → String → Result (Unit {0})
  admin_of db caller_id =
      refuse_if (is_empty caller_id) (refused 401 "authentication required")
      >> refuse_if (not (is_admin (user_role db caller_id))) (refused 403 "admin required")

  unfoldable pub unsigned_dismissal : String → String → UserSignature → FlagDismissal
  unsigned_dismissal caller_id reason signature = record {
    dismissed_by = caller_id;
    reason = reason;
    signature = signature;
    server_signature = record { key_id = ""; armor = ""; signed_at = 0 };
  }

  -- DismissCase; the message's reason and signature are given.
  unfoldable pub dismiss_case :
      (String → String → Option Key)
      → Db
      → String
      → String
      → String
      → UserSignature
      → ℕ
      → Result (FlagDismissal × Db)
  unfolding admin_of get_flag_case case_frozen unsigned_dismissal check_flag_dismissal
      store_dismissal
  dismiss_case fetch db caller_id case_id reason signature now =
      admin_of db caller_id
      >> (or_fail (get_flag_case db case_id) (refused 404 "case not found") >>= λ (c, author).
          refuse_if (author == caller_id) (refused 404 "case not found")
          >> refuse_if (not (is_open c)) (refused 409 "case-closed")
          >> refuse_if (case_frozen c) (refused 409 "opened_before_recovery")
          >> (let d = unsigned_dismissal caller_id (trim_space reason) signature in
              check_flag_dismissal fetch db c d reason
              >> (countersign env
                    (Payloads.flag_dismissal_server c.id c.reed_id env.fingerprint signature.armor
                      now)
                    now
                  >>= λ sig.
                      (let signed = record d { server_signature = sig } in
                        store_dismissal db c.id signed >>= λ db'. ok (signed, db')))))

  unfoldable pub closed_at : FlagCase → Option ℕ
  closed_at c = elim c.dismissal [ some d ↦ some d.server_signature.signed_at | none ↦ c.voided_at ]

  -- The table's rows after the case is gone, its flags with it
  unfoldable pub delete_case_row : Db → String → Db
  delete_case_row db case_id = record db {
    flag_cases = select (λ c. not (c.id == case_id)) db.flag_cases;
    reed_flags = select (λ f. not (f.case_id == case_id)) db.reed_flags;
  }

  -- DataService.DeleteFlagCase; signatures stand in the rows that own them.
  unfoldable pub delete_flag_case : Db → String → String → ℕ → Result Db
  unfolding get_flag_case closed_at delete_case_row
  delete_flag_case db case_id viewer_id now =
      or_fail (get_flag_case db case_id) (refused 404 "no_case") >>= λ (c, author).
      refuse_if (author == viewer_id) (refused 404 "no_case")
      >> (or_fail (closed_at c) (refused 409 "case_open") >>= λ at.
          refuse_if (ltb now (at + flag_case_retention)) (refused 409 "case_too_recent")
          >> ok (delete_case_row db case_id))

  -- Handlers.DeleteFlagCase
  unfoldable pub handle_delete_flag_case : Db → String → String → ℕ → Result Db
  unfolding admin_of delete_flag_case
  handle_delete_flag_case db caller_id case_id now =
      admin_of db caller_id >> delete_flag_case db case_id caller_id now

  -- getFlagQ: the flag, and whether its case is dismissed and restored
  unfoldable pub get_flag : Db → String → String → Option (ReedFlag × Bool × Bool)
  unfolding is_flag
  get_flag db reed_id reporter_id = elim (find (is_flag reed_id reporter_id) db.reed_flags) [
    | none ↦ none
    | some f ↦ elim (find (λ c. c.id == f.case_id) db.flag_cases) [
      | none ↦ none
      | some c ↦ some (f, not (is_none c.dismissal), c.restored)
    ]
  ]

  -- setFlagWithdrawalTx
  unfoldable pub set_flag_withdrawal : Db → String → String → String → FlagWithdrawal → Db
  unfolding is_flag void_case_if_done
  set_flag_withdrawal db case_id reed_id reporter_id w =
      void_case_if_done
        (record db {
          reed_flags =
              update (is_flag reed_id reporter_id) (λ f. record f { withdrawal = some w })
                db.reed_flags;
        })
        case_id

  -- DataService.WithdrawFlag: the flag and whether the withdrawal is new
  unfoldable pub store_withdrawal :
      Db → String → String → FlagWithdrawal → Result (ReedFlag × Bool × Db)
  unfolding get_flag set_flag_withdrawal
  store_withdrawal db reed_id reporter_id w =
      or_fail (get_flag db reed_id reporter_id) (refused 404 "no_flag")
      >>= λ (held, dismissed, restored).
          refuse_if dismissed (refused 409 "flag-acknowledged")
          >> (if is_none held.withdrawal
              then ok (
                record held { withdrawal = some w },
                true,
                set_flag_withdrawal db held.case_id reed_id reporter_id w,
              )
              else ok (held, false, db))

  -- withdrawFlag; the request is its reed, its reporter and its signature.
  unfoldable pub withdraw_flag :
      (String → String → Option Key)
      → Db
      → String
      → String
      → UserSignature
      → ℕ
      → Result (ReedFlag × Db)
  unfolding get_flag verify_signed store_withdrawal
  withdraw_flag fetch db reed_id reporter_id sig now =
      or_fail (get_flag db reed_id reporter_id) (refused 404 "no_flag")
      >>= λ (held, dismissed, restored).
          refuse_if dismissed (refused 409 "flag-acknowledged")
          >> (if not (is_none held.withdrawal)
              then ok (held, db)
              else refuse_if (restored && env.recovery_mode == "lockdown")
                  (refused 409 "opened_before_recovery")
                >> refuse_if (not (signed_by reporter_id sig)) (refused 400 "bad_key")
                >> verify_signed fetch db sig (
                    Payloads.flag_withdrawal held.reed_id held.reporter_id sig.key_id
                      held.signature.armor)
                >> (countersign env
                      (Payloads.flag_withdrawal_server reed_id reporter_id env.fingerprint sig.armor
                        now)
                      now
                    >>= λ countersig.
                        store_withdrawal db reed_id reporter_id
                          (record { signature = sig; server_signature = countersig })
                        >>= λ (f, fresh, db'). ok (f, db')))

  unfoldable pub open_flag : Db → ReedFlag → Bool
  open_flag db f = is_none f.withdrawal && any (λ c. c.id == f.case_id && is_open c) db.flag_cases

  -- OpenFlagCount
  unfoldable pub open_flag_count : Db → String → ℕ
  unfolding open_flag
  open_flag_count db author_id =
      length (select (λ f. f.author_id == author_id && open_flag db f) db.reed_flags)
