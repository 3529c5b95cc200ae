-- ===== src/Flags/Cases.antt =====
-- The cases of src/backend/flags.go and the flags in them.
use syrinx.Common.{
  String, Bool, true, false, ◌&&◌, not, ◌==◌, if◌then◌else◌, List, [], ◌∷◌, any, update, Distinct,
  All, All-map, Bool-cases, inl, inr, ◌≡◌, refl, sym, ◌∙◌,
}
use syrinx.Store.{FlagCase, Db}
use syrinx.Store.Flags.{is_open}

-- A case that takes new flags
abbrev pub takes : FlagCase → Bool
takes c = is_open c && not c.restored

abbrev pub Clash : FlagCase → FlagCase → Type 0
Clash c d = (c.reed_id ≡ d.reed_id) × (takes c ≡ true) × (takes d ≡ true)

-- No two cases of one reed take flags.
abbrev pub OneOpen : List FlagCase → Type 0
OneOpen [] = Unit
OneOpen (c ∷ cs) = All (λ d. Clash c d → ⊥) cs × OneOpen cs

-- Case ids differ, a reed has at most one case that takes flags, and a flag's case is there and is of
-- the flag's reed.
pub record SoundCases (db : Db) : Type 0 where
  pub ids : Distinct (λ c. c.id) db.flag_cases
  pub one_open : OneOpen db.flag_cases
  pub homed :
      All
        (λ f. any (λ c. c.id == f.case_id && c.reed_id == f.reed_id) db.flag_cases ≡ true)
        db.reed_flags

-- A change of a case that keeps its id and its reed, and does not make it take flags
unfoldable pub Quiet : FlagCase → FlagCase → Type 0
Quiet c d = (d.id ≡ c.id) × (d.reed_id ≡ c.reed_id) × (takes d ≡ true → takes c ≡ true)

Quiet-refl : (c : FlagCase) → Quiet c c
unfolding Quiet
Quiet-refl c = (refl, refl, λ t. t)

module _ (q : FlagCase → Bool) (f : FlagCase → FlagCase)
    (quiet : (c : FlagCase) → q c ≡ true → Quiet c (f c)) where
  after : (c : FlagCase) → Quiet c (if q c then f c else c)
  after c = elim (Bool-cases (q c)) [ inl t ↦ rw t (quiet c t) | inr n ↦ rw n (Quiet-refl c) ]

  left-Clash :
      (c c' : FlagCase) (ds : List FlagCase)
      → Quiet c c'
      → All (λ d. Clash c d → ⊥) ds
      → All (λ d. Clash c' d → ⊥) (update q f ds)
  unfolding Quiet
  left-Clash c c' [] k h = tt
  left-Clash c c' (d ∷ ds) (id, reed, open_before) h =
      let (id', reed', open_before') = after d in
      (
        λ (same, t, u). h.0 (sym reed ∙ same ∙ reed', open_before t, open_before' u),
        left-Clash c c' ds (id, reed, open_before) h.1,
      )

  update-OneOpen : (cs : List FlagCase) → OneOpen cs → OneOpen (update q f cs)
  update-OneOpen [] h = tt
  update-OneOpen (c ∷ cs) h =
      (left-Clash c (if q c then f c else c) cs (after c) h.0, update-OneOpen cs h.1)

  update-any :
      (case_id reed_id : String) (cs : List FlagCase)
      → any (λ c. c.id == case_id && c.reed_id == reed_id) (update q f cs)
        ≡ any (λ c. c.id == case_id && c.reed_id == reed_id) cs
  unfolding Quiet
  update-any case_id reed_id [] = refl
  update-any case_id reed_id (c ∷ cs) =
      let (id, reed, open_before) = after c in rw (id, reed, update-any case_id reed_id cs) refl

  keep_ids :
      (k : String) (cs : List FlagCase)
      → All (λ d. (d.id == k) ≡ false) cs
      → All (λ d. (d.id == k) ≡ false) (update q f cs)
  unfolding Quiet
  keep_ids k [] h = tt
  keep_ids k (c ∷ cs) h = let (id, reed, open_before) = after c in (rw id h.0, keep_ids k cs h.1)

  update-ids : (cs : List FlagCase) → Distinct (λ c. c.id) cs → Distinct (λ c. c.id) (update q f cs)
  unfolding Quiet
  update-ids [] d = tt
  update-ids (c ∷ cs) d =
      let (id, reed, open_before) = after c in (rw id (keep_ids c.id cs d.0), update-ids cs d.1)

  pub update-SoundCases :
      (db : Db) → SoundCases db → SoundCases (record db { flag_cases = update q f db.flag_cases })
  update-SoundCases db s = record {
    ids = update-ids db.flag_cases s.ids;
    one_open = update-OneOpen db.flag_cases s.one_open;
    homed =
        All-map _ _ db.reed_flags (λ g h. update-any g.case_id g.reed_id db.flag_cases ∙ h) s.homed;
  }
