-- ===== src/Witness/FlagRuns.antt =====
-- A reed is flagged, its case dismissed, and deleted half a year later.
use syrinx.Common.{false, none, some, [], ◌∷◌, ◌≡◌, refl, ok}
use syrinx.Identity.{canonical_id}
use syrinx.Roles.{is_root_identity}
use syrinx.Store.{FlagDismissal, FlagCase, ReedFlag, Db}
use syrinx.Store.Flags.{is_open}
use syrinx.Admin.{countersign}
use syrinx.Flags.{
  takes_flags, case_conflict, open_case, is_flag, insert_reed_flag, placed, store_flag,
  set_case_dismissal, delete_case_row, delete_flag_case, get_flag_case, closed_at,
}
use syrinx.Flags.Cases.{SoundCases}
use syrinx.Flags.Stored.{Stored}
use syrinx.Flags.Deleted.{Deleted, delete_flag_case-Deleted}
use syrinx.Flags.Steps.{FlagStep, FlagSteps, FlagSteps-SoundCases}
use syrinx.Witness.Data.{env, server_sig, start}

abbrev reed : Db
reed = record start {
  reed_identities = record { id = "b@s/r1"; server_id = "s"; author_id = "b@s" } ∷ [];
}

abbrev flag : ReedFlag
flag = record {
  reed_id = "b@s/r1";
  author_id = "";
  reporter_id = "a@s";
  note = "";
  case_id = "";
  signature = record { key_id = "a@s/A"; armor = "admin key" };
  server_signature = record { key_id = ""; armor = ""; signed_at = 0 };
  withdrawal = none;
}

abbrev stored : ReedFlag
stored = record flag { author_id = "b@s"; case_id = "k1"; server_signature = server_sig }

abbrev case_row : FlagCase
case_row = record {
  id = "k1";
  reed_id = "b@s/r1";
  opened_at = 100;
  restored = false;
  dismissal = none;
  voided_at = none;
}

abbrev flagged : Db
flagged = record reed { flag_cases = case_row ∷ []; reed_flags = stored ∷ [] }

abbrev dismissal : FlagDismissal
dismissal = record {
  dismissed_by = "1@s";
  reason = "fine";
  signature = record { key_id = "1@s/R"; armor = "root key" };
  server_signature = server_sig;
}

abbrev dismissed : Db
dismissed = record flagged { flag_cases = record case_row { dismissal = some dismissal } ∷ [] }

reed-SoundCases : SoundCases reed
reed-SoundCases = record { ids = tt; one_open = tt; homed = tt }

store_run : store_flag env ("k1" ∷ []) reed flag 100 ≡ ok (stored, flagged)
unfolding store_flag is_root_identity is_flag open_case takes_flags case_conflict countersign
    canonical_id placed insert_reed_flag
store_run = refl

dismiss_run : set_case_dismissal env flagged "k1" dismissal false ≡ ok dismissed
unfolding set_case_dismissal is_open
dismiss_run = refl

delete_run : delete_flag_case env dismissed "k1" "1@s" 15811300 ≡ ok reed
unfolding delete_flag_case get_flag_case closed_at delete_case_row
delete_run = refl

delete_flag_case-Deleted_example : Deleted dismissed "k1" "1@s" 15811300 reed
delete_flag_case-Deleted_example =
    delete_flag_case-Deleted env dismissed reed "k1" "1@s" 15811300 delete_run

FlagSteps-SoundCases_example : SoundCases reed
FlagSteps-SoundCases_example = FlagSteps-SoundCases env {db = reed} {after = reed} reed-SoundCases (
    FlagSteps.more reed flagged reed
      (FlagStep.flagged ("k1" ∷ []) reed flagged flag stored 100 store_run)
      (FlagSteps.more flagged dismissed reed
        (FlagStep.dismissed flagged dismissed "k1" dismissal false dismiss_run)
        (FlagSteps.more dismissed reed reed
          (FlagStep.deleted dismissed reed "k1" "1@s" 15811300 delete_run) (FlagSteps.done reed))))
