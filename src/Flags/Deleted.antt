-- ===== src/Flags/Deleted.antt =====
-- DataService.DeleteFlagCase of src/backend/flags.go: which cases go, and what goes with them.
use syrinx.Common.{
  ℕ, ◌+◌, ◌≤◌, String, Bool, true, false, not, ◌==◌, Option, Option-cases, none, some, find, select,
  find_test, select-select, select_none, All, ltb, ◌≡◌, ◌≢◌, ◌⊎◌, inl, inr, refl, sym, ap, ◌∙◌,
  subst, arith, eq_iff, ne_of_eq-false, eq-false_of_ne, ok, ok_inj, >>=-eq-ok, >>-eq-ok, or_fail,
  or_fail-some, refuse_if-ok, refused,
}
use syrinx.Store.{FlagCase, FlagDismissal, ReedIdentity, Db}
use syrinx.Admin.{Env}
use syrinx.Flags.{
  delete_case_row, delete_flag_case, get_flag_case, with_author, closed_at, flag_case_retention,
}

-- When a case was closed: dismissed, or else voided
abbrev pub ClosedAt : FlagCase → ℕ → Type 0
ClosedAt c at =
    ((d : FlagDismissal) × (c.dismissal ≡ some d) × (d.server_signature.signed_at ≡ at))
    ⊎ ((c.dismissal ≡ none) × (c.voided_at ≡ some at))

-- The case that is deleted, and the tables without it and its flags
pub record Deleted (db : Db) (case_id viewer_id : String) (now : ℕ) (after : Db) : Type 0 where
  pub gone : FlagCase
  pub reed : ReedIdentity
  pub at : ℕ
  pub found : (find (λ c. c.id == case_id) db.flag_cases ≡ some gone) × (gone.id ≡ case_id)
  pub about : find (λ r. r.id == gone.reed_id) db.reed_identities ≡ some reed
  pub not_theirs : reed.author_id ≢ viewer_id
  pub closed : ClosedAt gone at
  pub past : at + 15811200 ≤ now
  pub no_case : All (λ c. (c.id == case_id) ≡ false) after.flag_cases
  pub no_flag : All (λ f. (f.case_id == case_id) ≡ false) after.reed_flags
  pub kept :
      (other : String)
      → other ≢ case_id
      → (select (λ c. c.id == other) after.flag_cases ≡ select (λ c. c.id == other) db.flag_cases)
        × (select (λ f. f.case_id == other) after.reed_flags
            ≡ select (λ f. f.case_id == other) db.reed_flags)
  pub frame : record after { flag_cases = db.flag_cases; reed_flags = db.reed_flags } ≡ db

old : (now at : ℕ) → ltb now (at + flag_case_retention) ≡ false → at + 15811200 ≤ now
old now at h = ground arith

not_this : (b : Bool) → b ≡ false → not b ≡ true
not_this b h = ground arith

another :
    (id case_id other : String)
    → other ≢ case_id
    → (id == other) ≡ true
    → not (id == case_id) ≡ true
another id case_id other n t =
    not_this (id == case_id) (eq-false_of_ne id case_id (λ e. n (sym ((eq_iff id other).0 t) ∙ e)))

module _ (env : Env) where
  joined :
      (c : FlagCase) (o : Option ReedIdentity) (c' : FlagCase) (author : String)
      → with_author env c o ≡ some (c', author)
      → (reed : ReedIdentity) × (o ≡ some reed) × (c ≡ c') × (reed.author_id ≡ author)
  unfolding with_author
  joined c none c' author h = ground arith
  joined c (some reed) c' author h = (reed, refl, ground arith, ground arith)

  case_of :
      (db : Db) (case_id : String) (c : FlagCase) (author : String) (o : Option FlagCase)
      → find (λ c. c.id == case_id) db.flag_cases ≡ o
      → (elim o [
        | none ↦ none
        | some c ↦ with_author env c (find (λ r. r.id == c.reed_id) db.reed_identities)
      ])
        ≡ some (c, author)
      → (reed : ReedIdentity) × (find (λ c. c.id == case_id) db.flag_cases ≡ some c)
        × (find (λ r. r.id == c.reed_id) db.reed_identities ≡ some reed)
        × (reed.author_id ≡ author)
  case_of db case_id c author none e h = ground arith
  case_of db case_id c author (some c0) e h =
      let (reed, found, same, written) =
        joined c0 (find (λ r. r.id == c0.reed_id) db.reed_identities) c author h in
      (
        reed,
        e ∙ ap some same,
        subst (λ x. find (λ r. r.id == x.reed_id) db.reed_identities ≡ some reed) same found,
        written,
      )

  some_inj : {a b : ℕ} → some a ≡ some b → a ≡ b
  some_inj e = ground arith

  closed_when : (c : FlagCase) (at : ℕ) → closed_at env c ≡ some at → ClosedAt c at
  unfolding closed_at
  closed_when c at h = elim (Option-cases c.dismissal) [
    | inl e ↦ inr (e, rw e at h)
    | inr (d, e) ↦ inl (d, e, some_inj (rw e at h))
  ]

  pub delete_flag_case-row :
      (db after : Db) (case_id viewer_id : String) (now : ℕ)
      → delete_flag_case env db case_id viewer_id now ≡ ok after
      → after ≡ delete_case_row env db case_id
  unfolding delete_flag_case
  delete_flag_case-row db after case_id viewer_id now h =
      let ((c, author), found, h1) =
        >>=-eq-ok (or_fail (get_flag_case env db case_id) (refused 404 "no_case")) _ h in
      let (own, h2) = >>-eq-ok _ _ h1 in
      let (at, closed, h3) = >>=-eq-ok (or_fail (closed_at env c) (refused 409 "case_open")) _ h2 in
      let (recent, e) = >>-eq-ok _ _ h3 in sym (ok_inj e)

  -- A case that is deleted was the row of that id, of a reed whose author is not the viewer, and
  -- was dismissed, or else voided, at least 183 days ago. No case of that id and no flag in it is
  -- left; the cases and flags of every other id, in order, and every other table stay.
  pub delete_flag_case-Deleted :
      (db after : Db) (case_id viewer_id : String) (now : ℕ)
      → delete_flag_case env db case_id viewer_id now ≡ ok after
      → Deleted db case_id viewer_id now after
  unfolding delete_flag_case delete_case_row get_flag_case
  delete_flag_case-Deleted db after case_id viewer_id now h =
      let ((c, author), found, h1) =
        >>=-eq-ok (or_fail (get_flag_case env db case_id) (refused 404 "no_case")) _ h in
      let (own, h2) = >>-eq-ok _ _ h1 in
      let (at, closed, h3) = >>=-eq-ok (or_fail (closed_at env c) (refused 409 "case_open")) _ h2 in
      let (recent, e) = >>-eq-ok _ _ h3 in
      let (reed, row, about, written) =
        case_of db case_id c author (find (λ c. c.id == case_id) db.flag_cases) refl
          (or_fail-some _ found) in
      subst (λ x. Deleted db case_id viewer_id now x) (ok_inj e)
        (record {
          gone = c;
          reed = reed;
          at = at;
          found =
              (row, (eq_iff c.id case_id).0 (find_test (λ c. c.id == case_id) db.flag_cases row));
          about = about;
          not_theirs =
              λ same. ne_of_eq-false author viewer_id (refuse_if-ok _ _ own) (sym written ∙ same);
          closed = closed_when c at (or_fail-some _ closed);
          past = old now at (refuse_if-ok _ _ recent);
          no_case = select_none (λ c. c.id == case_id) db.flag_cases;
          no_flag = select_none (λ f. f.case_id == case_id) db.reed_flags;
          kept = λ other n. (
            select-select (λ c. c.id == other) (λ c. not (c.id == case_id)) db.flag_cases
                (λ c t. another c.id case_id other n t),
            select-select (λ f. f.case_id == other) (λ f. not (f.case_id == case_id)) db.reed_flags
                (λ f t. another f.case_id case_id other n t),
          );
          frame = refl;
        })
