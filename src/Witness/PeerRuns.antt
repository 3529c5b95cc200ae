-- ===== src/Witness/PeerRuns.antt =====
-- The finished suspension as a certificate that another server checks.
use syrinx.Common.{String, ◌≡◌, refl, ◌==◌, if◌then◌else◌, Option, none, some, ok, split_last}
use syrinx.Identity.{canonical_id, parse_key_fingerprint, parse_identity_id}
use syrinx.Roles.{is_root_identity}
use syrinx.Admin.Action
use syrinx.Admin.Foreign.{requester_key_belongs_to, verify_foreign_admin_request}
use syrinx.Admin.Foreign.Authorized.{Authorized}
use syrinx.Witness.Data.{crypto, closed_request}

abbrev resolve : String → Option String
resolve id =
    if id == "a@s/A" then some "admin key" else if id == "1@s/R" then some "root key" else none

certificate_run :
    verify_foreign_admin_request crypto resolve "s" closed_request Action.suspend "b@s" ≡ ok tt
unfolding verify_foreign_admin_request requester_key_belongs_to parse_key_fingerprint
    parse_identity_id canonical_id is_root_identity split_last
certificate_run = refl
