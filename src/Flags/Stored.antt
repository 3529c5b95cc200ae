-- ===== src/Flags/Stored.antt =====
-- StoreFlag, WithdrawFlag and DeleteFlagCase of src/backend/flags.go: what a success tells.
use syrinx.Common.{
  ℕ, String, true, false, ◌&&◌, ◌==◌, none, some, List, [], ◌∷◌, ◌++◌, any, find, All-append, ◌≡◌,
  refl, ap, subst, ok, ok_inj, ok_pair_inj, if_ok, err-ok, >>=-eq-ok, >>-eq-ok, or_fail,
  or_fail-some, refuse_if-ok, refused,
}
use syrinx.Store.{ServerSignature, ReedIdentity, ReedFlag, Db}
use syrinx.Admin.{Env, countersign}
use syrinx.Roles.{is_root_identity}
use syrinx.Flags.Payloads
use syrinx.Flags.{open_case, is_flag, insert_reed_flag, placed, store_flag}
use syrinx.Flags.Cases.{SoundCases}
use syrinx.Flags.Sound.{open_case-SoundCases}

-- A flag as it was stored from `f`.
pub record Stored (env : Env) (db : Db) (f : ReedFlag) (now : ℕ) (stored : ReedFlag) (db' : Db)
    : Type 0 where
  pub sound : SoundCases db'
  pub reed :
      (r : ReedIdentity) × (find
          (λ r. r.id == f.reed_id && r.server_id == env.server_id)
          db.reed_identities
        ≡ some r)
      × (is_root_identity r.author_id env.server_id ≡ false)
      × ((r.author_id == f.reporter_id) ≡ false)
      × (stored.author_id ≡ r.author_id)
  pub first : any (is_flag f.reed_id f.reporter_id) db.reed_flags ≡ false
  pub added : db'.reed_flags ≡ db.reed_flags ++ record stored { withdrawal = none } ∷ []
  pub home : any (λ c. c.id == stored.case_id && c.reed_id == f.reed_id) db'.flag_cases ≡ true
  pub countersigned :
      countersign env
        (Payloads.reed_flag_server f.reed_id f.reporter_id stored.case_id env.fingerprint
          f.signature.armor now)
        now
      ≡ ok stored.server_signature

module _ (env : Env) where
  Stored-of :
      (db : Db) (f : ReedFlag) (now : ℕ) (case_id : String) (r : ReedIdentity)
      (sig : ServerSignature) (opened db1 : Db)
      → SoundCases opened
      → opened.reed_flags ≡ db.reed_flags
      → any (λ c. c.id == case_id && c.reed_id == f.reed_id) opened.flag_cases ≡ true
      → find (λ r. r.id == f.reed_id && r.server_id == env.server_id) db.reed_identities ≡ some r
      → is_root_identity r.author_id env.server_id ≡ false
      → (r.author_id == f.reporter_id) ≡ false
      → any (is_flag f.reed_id f.reporter_id) db.reed_flags ≡ false
      → countersign env
          (Payloads.reed_flag_server f.reed_id f.reporter_id case_id env.fingerprint
            f.signature.armor now)
          now
        ≡ ok sig
      → insert_reed_flag opened (placed f case_id r.author_id sig) ≡ ok db1
      → Stored env db f now (placed f case_id r.author_id sig) db1
  unfolding insert_reed_flag placed
  Stored-of db f now case_id r sig opened db1 sound flags home known root own once signed h =
      let row : ReedFlag = record (placed f case_id r.author_id sig) { withdrawal = none } in
      let base : Stored env db f now (placed f case_id r.author_id sig)
          (record opened { reed_flags = opened.reed_flags ++ row ∷ [] }) =
        record {
          sound = record {
            ids = sound.ids;
            one_open = sound.one_open;
            homed =
                All-append
                  (λ g.
                    any (λ c. c.id == g.case_id && c.reed_id == g.reed_id) opened.flag_cases ≡ true)
                  opened.reed_flags (row ∷ []) sound.homed (home, tt);
          };
          reed = (r, known, root, own, refl);
          first = once;
          added = ap (λ l. l ++ row ∷ []) flags;
          home = home;
          countersigned = signed;
        } in
      if_ok (any (is_flag f.reed_id f.reporter_id) opened.reed_flags) (λ t e. err-ok e)
        (λ n e.
          subst (λ y. Stored env db f now (placed f case_id r.author_id sig) y) (ok_inj e) base)
        h

  pub store_flag-Stored :
      (ids : List String) (db db' : Db) (f stored : ReedFlag) (now : ℕ)
      → SoundCases db
      → store_flag env ids db f now ≡ ok (stored, db')
      → Stored env db f now stored db'
  unfolding store_flag insert_reed_flag placed
  store_flag-Stored ids db db' f stored now s h =
      let (r, known, h1) =
        >>=-eq-ok
          (or_fail
            (find (λ r. r.id == f.reed_id && r.server_id == env.server_id) db.reed_identities)
            (refused 404 "reed_not_found"))
          _ h in
      let (checks, h2) = >>-eq-ok _ _ h1 in
      let (roles, once) = >>-eq-ok _ _ checks in
      let (root, own) = >>-eq-ok _ _ roles in
      let ((case_id, opened), joined, h3) = >>=-eq-ok (open_case ids db f.reed_id now) _ h2 in
      let (sig, signed, h4) = >>=-eq-ok (countersign env _ now) _ h3 in
      let (db1, inserted, done) =
        >>=-eq-ok (insert_reed_flag opened (placed f case_id r.author_id sig)) _ h4 in
      let (same, there) = ok_pair_inj done in
      let (sound, flags, home) =
        open_case-SoundCases env ids db opened f.reed_id case_id now s joined in
      subst (λ x. Stored env db f now x db') same
        (subst (λ y. Stored env db f now (placed f case_id r.author_id sig) y) there
          (Stored-of db f now case_id r sig opened db1 sound flags home (or_fail-some _ known)
            (refuse_if-ok _ _ root) (refuse_if-ok _ _ own) (refuse_if-ok _ _ once) signed inserted))
