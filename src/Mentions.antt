-- ===== src/Mentions.antt =====
-- src/backend/mentions.go, and the reed references of src/backend/services.go that it collects.
pub mod Reference
use syrinx.Common.{
  Char, String, Bool, true, false, ◌&&◌, ◌||◌, not, ◌==◌, if◌then◌else◌, Option, none, some, List,
  [], ◌∷◌, any, cut, trim_space, is_empty,
}
use syrinx.Identity.{canonical_id, parse_key_fingerprint, id_separator}

pub record ReedRef : Type 0 where
  pub author_id : String
  pub server_id : String
  pub reed_id : String

-- Go's == on two ReedRefs
abbrev pub same_ref : ReedRef → ReedRef → Bool
same_ref a b = a.author_id == b.author_id && a.server_id == b.server_id && a.reed_id == b.reed_id

-- CanonicalAuthorID
unfoldable pub canonical_author_id : ReedRef → String
canonical_author_id ref = canonical_id ref.server_id ref.author_id none

abbrev pub admins_handle : String
admins_handle = "!admins"

admins_server : Option (String × String) → Option String
admins_server none = none
admins_server (some (handle, server_id)) =
    if handle == admins_handle && not (is_empty server_id) then some server_id else none

-- adminsMentionServer
unfoldable pub admins_mention_server : String → Option String
unfolding admins_server
admins_mention_server claim = admins_server (cut id_separator (trim_space claim))

mentioned : Option (String × String) → Option ReedRef
mentioned none = none
mentioned (some (user_id, server_id)) =
    if is_empty user_id || is_empty server_id
    then none
    else some (record { author_id = user_id; server_id = server_id; reed_id = "" })

-- A turn's ref, before it is compared with the author and the refs seen.
unfoldable pub claim_ref : String → Option ReedRef
unfolding mentioned
claim_ref claim = mentioned (cut id_separator (trim_space claim))

unfoldable pub seen_ref : List ReedRef → ReedRef → Bool
seen_ref seen ref = any (λ s. same_ref s ref) seen

-- The loop of ValidateMentionClaims; the answer is built from the back.
unfoldable pub collect : String → List ReedRef → List String → List ReedRef
unfolding claim_ref canonical_author_id seen_ref
collect author_id seen [] = []
collect author_id seen (claim ∷ claims) = elim (claim_ref claim) [
  | none ↦ collect author_id seen claims
  | some ref ↦
      let skipped = collect author_id seen claims in
      let taken = ref ∷ collect author_id (ref ∷ seen) claims in
      if canonical_author_id ref == author_id
      then skipped
      else if seen_ref seen ref
      then skipped
      else taken
]

-- ValidateMentionClaims
unfoldable pub validate_mention_claims : List String → String → List ReedRef
unfolding collect
validate_mention_claims claims author_id = collect author_id [] claims
