-- ===== src/Witness/TextRuns.antt =====
-- Ids, roles, permission sets and signed fields.
use syrinx.Common.{
  ◌≤◌, read_decimal, print_decimal, String, ◌≡◌, refl, ◌↔◌, ◌⊎◌, true, false, none, some, List, [],
  ◌∷◌, ok, is_empty, has, split_last, sort, compact, split, text_lt, contains, trim_space,
  StrictlySorted,
}
use syrinx.Identity.{
  canonical_id, parse_identity_id, parse_key_fingerprint, append_entity, author_of, id_separator,
}
use syrinx.Identity.Format.{
  parse_identity_id-canonical_id, canonical_id-parse_identity_id, author_of-append_entity,
}
use syrinx.Roles.{
  role_root, role_admin, role_user, is_root, is_root_identity, validate_profile_role, signup_role,
}
use syrinx.Roles.Laws.{validate_profile_role_iff, validate-signup_role}
use syrinx.Permissions.{parse_permission_set, format_permission_set}
use syrinx.Permissions.Spelling.{Known, format_permission_set-parse, parse_permission_set-format}
use syrinx.Admin.Validate.{max_invite_grant, parse_invite_grant}
use syrinx.Admin.Validate.Grant.{parse_invite_grant_sound}

parse_identity_id-canonical_id_example :
    parse_identity_id (canonical_id "s.org" "ada" none) ≡ some ("ada", "s.org")
parse_identity_id-canonical_id_example = parse_identity_id-canonical_id "s.org" "ada" refl refl refl

parse_run : parse_identity_id "a@b@s" ≡ some ("a@b", "s")
unfolding parse_identity_id split_last
parse_run = refl

canonical_id-parse_identity_id_example :
    (canonical_id "s" "a@b" none ≡ "a@b@s")
    × (is_empty "a@b" ≡ false)
    × (is_empty "s" ≡ false)
    × (has id_separator "s" ≡ false)
canonical_id-parse_identity_id_example = canonical_id-parse_identity_id "a@b@s" parse_run

local_run : parse_identity_id "ada@s" ≡ some ("ada", "s")
unfolding parse_identity_id split_last
local_run = refl

author_of-append_entity_example :
    (parse_key_fingerprint (append_entity "ada@s" "reed") ≡ some ("ada", "s", "reed"))
    × (author_of (append_entity "ada@s" "reed") ≡ some "ada@s")
author_of-append_entity_example = author_of-append_entity "ada@s" "reed" local_run refl refl

author_run : author_of "ada@s/reed" ≡ some "ada@s"
unfolding author_of parse_key_fingerprint parse_identity_id split_last canonical_id
author_run = refl

validate_profile_role_iff_example : (validate_profile_role "1@s" "root" "s" ≡ ok tt) ↔ (
    ((trim_space "root" ≡ role_root) × (is_root_identity "1@s" "s" ≡ true))
    ⊎ (((trim_space "root" ≡ role_admin) ⊎ (trim_space "root" ≡ role_user))
        × (is_root_identity "1@s" "s" ≡ false)))
validate_profile_role_iff_example = validate_profile_role_iff "1@s" "root" "s"

validate-signup_role_example :
    (validate_profile_role "ada@s" (signup_role "ada@s" "admin" true "s") "s" ≡ ok tt)
    × (is_root "ada@s" (signup_role "ada@s" "admin" true "s") "s" ≡ is_root_identity "ada@s" "s")
validate-signup_role_example = validate-signup_role "ada@s" "admin" "s" true

permissions_run :
    parse_permission_set "admin.create,user.kick" ≡ ok ("admin.create" ∷ "user.kick" ∷ [])
unfolding parse_permission_set split text_lt
permissions_run = refl

format_permission_set-parse_example :
    Known ("admin.create" ∷ "user.kick" ∷ [])
    × StrictlySorted ("admin.create" ∷ "user.kick" ∷ [])
    × (format_permission_set ("admin.create" ∷ "user.kick" ∷ []) ≡ "admin.create,user.kick")
format_permission_set-parse_example =
    format_permission_set-parse "admin.create,user.kick" ("admin.create" ∷ "user.kick" ∷ [])
      permissions_run

abbrev unsorted : List String
unsorted = "user.kick" ∷ "admin.create" ∷ "user.kick" ∷ []

parse_permission_set-format_example :
    (parse_permission_set (format_permission_set unsorted) ≡ ok (compact (sort unsorted)))
    × StrictlySorted (compact (sort unsorted))
    × ((p : String) → contains (compact (sort unsorted)) p ≡ contains unsorted p)
parse_permission_set-format_example =
    parse_permission_set-format unsorted (refl, (refl, (refl, tt)))

grant_run : parse_invite_grant "25" ≡ ok 25
unfolding parse_invite_grant read_decimal print_decimal
grant_run = refl

parse_invite_grant_sound_example : (1 ≤ 25) × (25 ≤ max_invite_grant) × (print_decimal 25 ≡ "25")
parse_invite_grant_sound_example = parse_invite_grant_sound "25" 25 grant_run
