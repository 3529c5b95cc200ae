-- ===== src/Flags/Steps.antt =====
-- What changes cases and flags in src/backend/flags.go, as a step relation: a stored flag, a
-- withdrawal, a dismissal, and the deletion of an old case.
use syrinx.Common.{
  ℕ, String, Bool, List, is_none, ◌≡◌, sym, ap, subst, Result, ok, ok_inj, if_ok, >>=-eq-ok,
  >>-eq-ok, or_fail, refused,
}
use syrinx.Store.{ReedFlag, FlagDismissal, FlagWithdrawal, Db}
use syrinx.Admin.{Env}
use syrinx.Flags.{store_flag, set_case_dismissal, delete_flag_case, get_flag, store_withdrawal}
use syrinx.Flags.Cases.{SoundCases}
use syrinx.Flags.Sound.{
  set_flag_withdrawal-SoundCases, set_case_dismissal-SoundCases, delete_case_row-SoundCases,
}
use syrinx.Flags.Deleted.{delete_flag_case-row}
use syrinx.Flags.Stored.{store_flag-Stored}

pub data FlagStep (env : Env) : Db → Db → Type 0 where
  flagged :
      (ids : List String) (db after : Db) (f stored : ReedFlag) (now : ℕ)
      → store_flag env ids db f now ≡ ok (stored, after)
      → FlagStep env db after
  withdrawn :
      (db after : Db) (reed_id reporter_id : String) (w : FlagWithdrawal) (f : ReedFlag)
      (fresh : Bool)
      → store_withdrawal env db reed_id reporter_id w ≡ ok (f, fresh, after)
      → FlagStep env db after
  dismissed :
      (db after : Db) (case_id : String) (d : FlagDismissal) (over_void : Bool)
      → set_case_dismissal env db case_id d over_void ≡ ok after
      → FlagStep env db after
  deleted :
      (db after : Db) (case_id viewer_id : String) (now : ℕ)
      → delete_flag_case env db case_id viewer_id now ≡ ok after
      → FlagStep env db after

pub data FlagSteps (env : Env) : Db → Db → Type 0 where
  done : (db : Db) → FlagSteps env db db
  more : (a b c : Db) → FlagStep env a b → FlagSteps env b c → FlagSteps env a c

third :
    {f g : ReedFlag} {a b : Bool} {x y : Db}
    → ◌≡◌ {A = Result (ReedFlag × Bool × Db)} (ok (f, a, x)) (ok (g, b, y))
    → x ≡ y
third e = ap (λ t. t.2) (ok_inj e)

module _ (env : Env) where
  withdrawal-SoundCases :
      (db after : Db) (reed_id reporter_id : String) (w : FlagWithdrawal) (f : ReedFlag)
      (fresh : Bool)
      → SoundCases db
      → store_withdrawal env db reed_id reporter_id w ≡ ok (f, fresh, after)
      → SoundCases after
  unfolding store_withdrawal
  withdrawal-SoundCases db after reed_id reporter_id w f fresh s h =
      let ((held, closed, restored), found, h1) =
        >>=-eq-ok (or_fail (get_flag env db reed_id reporter_id) (refused 404 "no_flag")) _ h in
      let (allowed, h2) = >>-eq-ok _ _ h1 in
      if_ok (is_none held.withdrawal)
        (λ n e.
          subst SoundCases (third e)
            (set_flag_withdrawal-SoundCases env db held.case_id reed_id reporter_id w s))
        (λ n e. subst SoundCases (third e) s) h2

  FlagStep-SoundCases : {db after : Db} → SoundCases db → FlagStep env db after → SoundCases after
  FlagStep-SoundCases s (flagged ids db after f stored now h) =
      (store_flag-Stored env ids db after f stored now s h).sound
  FlagStep-SoundCases s (withdrawn db after reed_id reporter_id w f fresh h) =
      withdrawal-SoundCases db after reed_id reporter_id w f fresh s h
  FlagStep-SoundCases s (dismissed db after case_id d over_void h) =
      set_case_dismissal-SoundCases env db after case_id d over_void s h
  FlagStep-SoundCases s (deleted db after case_id viewer_id now h) =
      subst SoundCases (sym (delete_flag_case-row env db after case_id viewer_id now h))
        (delete_case_row-SoundCases env db case_id s)

  -- From tables in which case ids differ, a reed has at most one open case that recovery did not
  -- restore, and each flag's case is there and of its reed, any sequence of stored flags,
  -- withdrawals, dismissals and deletions of cases leads to such tables.
  pub FlagSteps-SoundCases :
      {db after : Db} → SoundCases db → FlagSteps env db after → SoundCases after
  FlagSteps-SoundCases s (done db) = s
  FlagSteps-SoundCases s (more a b c step steps) =
      FlagSteps-SoundCases (FlagStep-SoundCases s step) steps
