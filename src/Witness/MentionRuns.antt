-- ===== src/Witness/MentionRuns.antt =====
-- Mention claims read for a reed.
use syrinx.Common.{String, List, [], ◌∷◌, ◌≡◌, select}
use syrinx.Mentions.{validate_mention_claims}
use syrinx.Mentions.Reference.{refs, of_others, first_ones, validate_mention_claims-first_ones}

abbrev claims : List String
claims = " b@s" ∷ "a@s" ∷ "no server" ∷ "b@s" ∷ "!admins@t" ∷ []

validate_mention_claims-first_ones_example :
    validate_mention_claims claims "a@s" ≡ first_ones (select (of_others "a@s") (refs claims))
validate_mention_claims-first_ones_example = validate_mention_claims-first_ones claims "a@s"
