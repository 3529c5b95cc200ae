-- ===== src/Flags/Sound.antt =====
-- The operations of src/backend/flags.go on cases and flags, kept sound.
use syrinx.Common.{
  ℕ, String, Bool, true, false, ◌&&◌, ◌||◌, not, ◌==◌, Option, none, some, List, [], ◌∷◌, ◌++◌, any,
  find, select, update, Distinct, Distinct-append, All, All-append, All-update, All-select, All-map,
  and-true, Bool-cases, Option-cases, inl, inr, ◌≡◌, refl, sym, subst, ◌∙◌, arith, eq_iff, eq_refl,
  Result, ok, ok_inj, ok_pair_inj, if_ok, err-ok,
}
use syrinx.Store.{FlagCase, ReedFlag, FlagDismissal, FlagWithdrawal, Db}
use syrinx.Store.Flags.{is_open, void_case_if_done}
use syrinx.Admin.{Env}
use syrinx.Flags.{
  takes_flags, case_conflict, open_case, is_flag, set_case_dismissal, delete_case_row,
  set_flag_withdrawal,
}
use syrinx.Flags.Cases.{Clash, OneOpen, SoundCases, Quiet, update-SoundCases}

some_case : {a b : FlagCase} → some a ≡ some b → a ≡ b
some_case e = ground arith

or_true : (b : Bool) → (b || true) ≡ true
or_true b = ground arith

module _ (env : Env) where
  pub set_case_dismissal-SoundCases :
      (db db' : Db) (case_id : String) (d : FlagDismissal) (over_void : Bool)
      → SoundCases db
      → set_case_dismissal env db case_id d over_void ≡ ok db'
      → SoundCases db'
  unfolding set_case_dismissal Quiet is_open
  set_case_dismissal-SoundCases db db' case_id d over_void s h =
      if_ok (any _ db.flag_cases)
        (λ t e. subst SoundCases (ok_inj e) (
          update-SoundCases _ (λ c. record c { dismissal = some d; voided_at = none })
            (λ c q. (refl, refl, λ t. ground arith)) db s))
        (λ f e. err-ok e) h

  delete_row :
      (gone : String) (reed_id case_id : String) (cs : List FlagCase)
      → (case_id == gone) ≡ false
      → any (λ c. c.id == case_id && c.reed_id == reed_id) cs ≡ true
      → any (λ c. c.id == case_id && c.reed_id == reed_id) (select (λ c. not (c.id == gone)) cs)
        ≡ true
  delete_row gone reed_id case_id [] n h = ground arith
  delete_row gone reed_id case_id (c ∷ cs) n h =
      elim (Bool-cases (c.id == case_id && c.reed_id == reed_id)) [
        | inl t ↦
            let here : c.id ≡ case_id =
              (eq_iff c.id case_id).0 (and-true (c.id == case_id) (c.reed_id == reed_id) t).0 in
            let kept : (c.id == gone) ≡ false = subst (λ x. (x == gone) ≡ false) (sym here) n in
            rw (kept, t) refl
        | inr f ↦
            let rest = delete_row gone reed_id case_id cs n (rw f at h) in
            elim (Bool-cases (c.id == gone)) [ inl g ↦ rw g rest | inr k ↦ rw (k, f) rest ]
      ]

  select-OneOpen : (p : FlagCase → Bool) (cs : List FlagCase) → OneOpen cs → OneOpen (select p cs)
  select-OneOpen p [] h = tt
  select-OneOpen p (c ∷ cs) h = elim (Bool-cases (p c)) [
    | inl t ↦ rw t (All-select (λ d. Clash c d → ⊥) p cs h.0, select-OneOpen p cs h.1)
    | inr f ↦ rw f (select-OneOpen p cs h.1)
  ]

  select-ids :
      (p : FlagCase → Bool) (cs : List FlagCase)
      → Distinct (λ c. c.id) cs
      → Distinct (λ c. c.id) (select p cs)
  select-ids p [] h = tt
  select-ids p (c ∷ cs) h = elim (Bool-cases (p c)) [
    | inl t ↦ rw t (All-select (λ d. (d.id == c.id) ≡ false) p cs h.0, select-ids p cs h.1)
    | inr f ↦ rw f (select-ids p cs h.1)
  ]

  kept_homes :
      (gone : String) (cs : List FlagCase) (fs : List ReedFlag)
      → All (λ f. any (λ c. c.id == f.case_id && c.reed_id == f.reed_id) cs ≡ true) fs
      → All
          (λ f.
            any
              (λ c. c.id == f.case_id && c.reed_id == f.reed_id)
              (select (λ c. not (c.id == gone)) cs)
            ≡ true)
          (select (λ f. not (f.case_id == gone)) fs)
  kept_homes gone cs [] h = tt
  kept_homes gone cs (f ∷ fs) h = elim (Bool-cases (f.case_id == gone)) [
    | inl t ↦ rw t (kept_homes gone cs fs h.1)
    | inr n ↦ rw n (delete_row gone f.reed_id f.case_id cs n h.0, kept_homes gone cs fs h.1)
  ]

  pub delete_case_row-SoundCases :
      (db : Db) (case_id : String) → SoundCases db → SoundCases (delete_case_row env db case_id)
  unfolding delete_case_row
  delete_case_row-SoundCases db case_id s = record {
    ids = select-ids _ db.flag_cases s.ids;
    one_open = select-OneOpen _ db.flag_cases s.one_open;
    homed = kept_homes case_id db.flag_cases db.reed_flags s.homed;
  }

  quiet_void :
      (case_id : String) (c : FlagCase) (done : Bool) (v : Option ℕ)
      → (c.id == case_id && is_open c && done) ≡ true
      → Quiet c (record c { voided_at = v })
  unfolding Quiet
  quiet_void case_id c done v q =
      let opened =
        (and-true (c.id == case_id) (is_open c)
          (and-true (c.id == case_id && is_open c) done q).0).1 in
      (
        refl,
        refl,
        λ t.
            let fresh = (and-true (is_open (record c { voided_at = v })) (not c.restored) t).1 in
            rw (opened, fresh) refl,
      )

  pub set_flag_withdrawal-SoundCases :
      (db : Db) (case_id reed_id reporter_id : String) (w : FlagWithdrawal)
      → SoundCases db
      → SoundCases (set_flag_withdrawal env db case_id reed_id reporter_id w)
  unfolding set_flag_withdrawal void_case_if_done is_open Quiet
  set_flag_withdrawal-SoundCases db case_id reed_id reporter_id w s =
      let marked : Db = record db {
        reed_flags =
            update (is_flag reed_id reporter_id) (λ f. record f { withdrawal = some w })
              db.reed_flags;
      } in
      let sound : SoundCases marked = record {
        ids = s.ids;
        one_open = s.one_open;
        homed =
            All-update
              (λ f. any (λ c. c.id == f.case_id && c.reed_id == f.reed_id) db.flag_cases ≡ true)
              (is_flag reed_id reporter_id) (λ f. record f { withdrawal = some w }) db.reed_flags
              (λ f t h. h) s.homed;
      } in
      update-SoundCases _ _ (λ c q. quiet_void case_id c _ _ q) marked sound

  abbrev pub Joined : Db → String → String → Db → Type 0
  Joined db reed_id case_id db' =
      SoundCases db'
      × (db'.reed_flags ≡ db.reed_flags)
      × (any (λ c. c.id == case_id && c.reed_id == reed_id) db'.flag_cases ≡ true)

  found_home :
      (reed_id : String) (cs : List FlagCase) {c : FlagCase}
      → find (takes_flags reed_id) cs ≡ some c
      → any (λ d. d.id == c.id && d.reed_id == reed_id) cs ≡ true
  unfolding takes_flags
  found_home reed_id [] e = ground arith
  found_home reed_id (d ∷ ds) {c} e = elim (Bool-cases (takes_flags reed_id d)) [
    | inl t ↦
        let same : d ≡ c = some_case (rw t at e) in
        let reed : (d.reed_id == reed_id) ≡ true =
          (and-true (d.reed_id == reed_id) (is_open d)
            (and-true (d.reed_id == reed_id && is_open d) (not d.restored) t).0).0 in
        subst (λ x. any (λ (y : FlagCase). y.id == x.id && y.reed_id == reed_id) (d ∷ ds) ≡ true)
          same (rw (eq_refl d.id, reed) refl)
    | inr f ↦ let rest = found_home reed_id ds (rw f at e) in rw rest (or_true _)
  ]

  new_OneOpen :
      (id reed_id : String) (new : FlagCase) (cs : List FlagCase)
      → new.reed_id ≡ reed_id
      → any (λ c. c.id == id || takes_flags reed_id c) cs ≡ false
      → OneOpen cs
      → OneOpen (cs ++ new ∷ [])
  unfolding takes_flags
  new_OneOpen id reed_id new [] e n h = (tt, tt)
  new_OneOpen id reed_id new (c ∷ cs) e n h = (
    All-append (λ d. Clash c d → ⊥) cs (new ∷ []) h.0
        (
          λ (same, t, u).
              let there : (c.reed_id == reed_id) ≡ true = (eq_iff c.reed_id reed_id).1 (same ∙ e) in
              let (o, r) = and-true (is_open c) (not c.restored) t in
              let taken : takes_flags reed_id c ≡ true = rw (takes_flags, there, o, r) refl in
              ground arith,
          tt,
        ),
    new_OneOpen id reed_id new cs e (ground arith) h.1,
  )

  fresh_id :
      (id reed_id : String) (cs : List FlagCase)
      → any (λ c. c.id == id || takes_flags reed_id c) cs ≡ false
      → any (λ c. c.id == id) cs ≡ false
  fresh_id id reed_id [] n = refl
  fresh_id id reed_id (c ∷ cs) n = let rest = fresh_id id reed_id cs (ground arith) in ground arith

  any_last :
      (case_id reed_id : String) (new : FlagCase) (cs : List FlagCase)
      → (new.id == case_id && new.reed_id == reed_id) ≡ true
      → any (λ c. c.id == case_id && c.reed_id == reed_id) (cs ++ new ∷ []) ≡ true
  any_last case_id reed_id new [] t = rw t refl
  any_last case_id reed_id new (c ∷ cs) t = rw (any_last case_id reed_id new cs t) (or_true _)

  pub any_more :
      (case_id reed_id : String) (new : FlagCase) (cs : List FlagCase)
      → any (λ c. c.id == case_id && c.reed_id == reed_id) cs ≡ true
      → any (λ c. c.id == case_id && c.reed_id == reed_id) (cs ++ new ∷ []) ≡ true
  any_more case_id reed_id new [] h = ground arith
  any_more case_id reed_id new (c ∷ cs) h =
      elim (Bool-cases (c.id == case_id && c.reed_id == reed_id)) [
        | inl t ↦ rw t refl
        | inr f ↦ rw f (any_more case_id reed_id new cs (rw f at h))
      ]

  new-Joined :
      (db : Db) (reed_id : String) (new : FlagCase)
      → new.reed_id ≡ reed_id
      → case_conflict db new.id reed_id ≡ false
      → SoundCases db
      → Joined db reed_id new.id (record db { flag_cases = db.flag_cases ++ new ∷ [] })
  unfolding case_conflict
  new-Joined db reed_id new e n s =
      let sound : SoundCases (record db { flag_cases = db.flag_cases ++ new ∷ [] }) = record {
        ids =
            Distinct-append (λ c. c.id) db.flag_cases new s.ids
              (fresh_id new.id reed_id db.flag_cases n);
        one_open = new_OneOpen new.id reed_id new db.flag_cases e n s.one_open;
        homed =
            All-map _ _ db.reed_flags (λ f h. any_more f.case_id f.reed_id new db.flag_cases h)
              s.homed;
      } in
      let here : (new.id == new.id && new.reed_id == reed_id) ≡ true =
        rw (eq_refl new.id, e, eq_refl reed_id) refl in
      (sound, refl, any_last new.id reed_id new db.flag_cases here)

  joined :
      (db : Db) (reed_id id case_id : String) (db1 db' : Db)
      → Joined db reed_id id db1
      → ◌≡◌ {A = Result (String × Db)} (ok (id, db1)) (ok (case_id, db'))
      → Joined db reed_id case_id db'
  joined db reed_id id case_id db1 db' j e =
      let (same, there) = ok_pair_inj e in
      subst (λ x. Joined db reed_id x db') same (subst (λ x. Joined db reed_id id x) there j)

  -- The case that a flag joins is there and is of its reed.
  pub open_case-SoundCases :
      (ids : List String) (db db' : Db) (reed_id case_id : String) (at : ℕ)
      → SoundCases db
      → open_case ids db reed_id at ≡ ok (case_id, db')
      → Joined db reed_id case_id db'
  unfolding open_case
  open_case-SoundCases [] db db' reed_id case_id at s h = err-ok h
  open_case-SoundCases (id ∷ ids) db db' reed_id case_id at s h =
      elim (Option-cases (find (takes_flags reed_id) db.flag_cases)) [
        | inr (c, found) ↦
            joined db reed_id c.id case_id db db' (s, refl, found_home reed_id db.flag_cases found)
              (rw (open_case, found) at h)
        | inl n ↦ elim (Bool-cases (case_conflict db id reed_id)) [
          | inl t ↦ open_case-SoundCases ids db db' reed_id case_id at s (rw (open_case, n, t) at h)
          | inr f ↦
              joined db reed_id id case_id _ db'
                (new-Joined db reed_id
                  (record {
                    id = id;
                    reed_id = reed_id;
                    opened_at = at;
                    restored = false;
                    dismissal = none;
                    voided_at = none;
                  })
                  refl f s)
                (rw (open_case, n, f) at h)
        ]
      ]
