-- ===== src/Store/Flags.antt =====
-- src/backend/flags.go and settleAccountRemovalTx of src/backend/services.go: what a removed account
-- leaves of its flags.
use syrinx.Common.{
  ℕ, String, Bool, true, not, ◌&&◌, ◌||◌, ◌==◌, if◌then◌else◌, Option, none, some, List, [], ◌∷◌,
  any, all, map, select, update, contains, leb, is_none,
}
use syrinx.Store.{FlagCase, ReedFlag, Db}

-- openCase
unfoldable pub is_open : FlagCase → Bool
is_open c = is_none c.dismissal && is_none c.voided_at

in_open_case : Db → ReedFlag → Bool
unfolding is_open
in_open_case db f = any (λ c. c.id == f.case_id && is_open c) db.flag_cases

distinct : List String → List String
distinct [] = []
distinct (x ∷ xs) = let rest = distinct xs in if contains xs x then rest else x ∷ rest

-- MAX over the rows, NULL ones skipped
latest : Option ℕ → Option ℕ → Option ℕ
latest none o = o
latest (some s) none = some s
latest (some s) (some t) = if leb s t then some t else some s

withdrawn_at : ReedFlag → Option ℕ
withdrawn_at f = elim f.withdrawal [ none ↦ none | some w ↦ some w.server_signature.signed_at ]

unfoldable pub latest_withdrawal : List ReedFlag → Option ℕ
unfolding latest withdrawn_at
latest_withdrawal [] = none
latest_withdrawal (f ∷ fs) = latest (withdrawn_at f) (latest_withdrawal fs)

-- voidCaseIfDoneTx
unfoldable pub void_case_if_done : Db → String → Db
unfolding is_open latest_withdrawal
void_case_if_done db case_id =
    let flags = select (λ f. f.case_id == case_id) db.reed_flags in
    let done = any (λ f. true) flags && all (λ f. not (is_none f.withdrawal)) flags in
    record db {
      flag_cases =
          update (λ c. c.id == case_id && is_open c && done)
            (λ c. record c { voided_at = latest_withdrawal flags }) db.flag_cases;
    }

unfoldable pub settle_case : Db → String → Db
settle_case db case_id =
    void_case_if_done
      (record db {
        flag_cases =
            select (λ c. not (c.id == case_id) || any (λ f. f.case_id == case_id) db.reed_flags)
              db.flag_cases;
      })
      case_id

unfoldable pub settle_cases : Db → List String → Db
unfolding settle_case
settle_cases db [] = db
settle_cases db (id ∷ ids) = settle_cases (settle_case db id) ids

gone : Db → String → ReedFlag → Bool
unfolding in_open_case
gone db removed f = f.reporter_id == removed && in_open_case db f

unfoldable pub drop_flags : Db → String → Db
unfolding gone
drop_flags db removed = record db {
  reed_flags = select (λ f. not (gone db removed f)) db.reed_flags;
}

unfoldable pub gone_cases : Db → String → List String
unfolding gone distinct
gone_cases db removed = distinct (map (λ f. f.case_id) (select (gone db removed) db.reed_flags))

-- settleAccountRemovalTx
unfoldable pub settle_account_removal : Db → String → Db
unfolding drop_flags gone_cases settle_cases
settle_account_removal db removed = settle_cases (drop_flags db removed) (gone_cases db removed)
