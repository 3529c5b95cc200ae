-- ===== src/KeyChain.antt =====
-- src/backend/server_key.go: a server's key revocations form a chain, which the server orders and a
-- client or peer walks from the key it trusts.
pub mod Order
pub mod Walk
use syrinx.Common.{
  ℕ, zero, suc, String, Bool, true, false, not, ◌&&◌, ◌||◌, ◌==◌, if◌then◌else◌, Option, none, some,
  List, [], ◌∷◌, ◌++◌, Result, ok, err, failed, or_fail, ◌>>=◌, ◌>>◌, length, any, is_empty,
}
use syrinx.Identity.{canonical_id}
use syrinx.Signing.{Crypto}
use syrinx.Signing.Payloads

pub record ServerKeyRevocation : Type 0 where
  pub key_id : String
  pub successor : String
  pub compromised : Bool
  pub reason : String
  pub signed_at : ℕ
  pub signature : String
  pub successor_signature : String

pub record SuccessorKey : Type 0 where
  pub id : String
  pub armor : String

abbrev pub Revocations : Type 0
Revocations = List ServerKeyRevocation

or_first : Bool → ServerKeyRevocation → Option ServerKeyRevocation → Option ServerKeyRevocation
or_first hit rev (some later) = some later
or_first hit rev none = if hit then some rev else none

-- The map `byKey`: of two rows with one key the later stays.
unfoldable pub by_key : Revocations → String → Option ServerKeyRevocation
unfolding or_first
by_key [] key = none
by_key (rev ∷ revs) key = or_first (rev.key_id == key) rev (by_key revs key)

unfoldable pub is_successor : Revocations → String → Bool
is_successor revs key = any (λ rev. rev.successor == key) revs

abbrev pub more_than_one : Result String
more_than_one = err (failed "key revocations form more than one chain")

-- The loop that looks for the one key that succeeds no other; `next` is "" until it is met.
unfoldable pub first_key : Revocations → Revocations → String → Result String
first_key all [] next = ok next
first_key all (rev ∷ revs) next =
    let skip = first_key all revs next in
    let take = first_key all revs rev.key_id in
    if is_successor all rev.key_id then skip else if is_empty next then take else more_than_one

-- `for len(ordered) < len(revs)`, over the number of entries still missing.
unfoldable pub follow : Revocations → ℕ → String → Result Revocations
follow revs zero next = ok []
follow revs (suc missing) next = do
  rev ← or_fail (by_key revs next) (failed "key revocations are not one unbroken chain")
  rest ← follow revs missing rev.successor
  ok (rev ∷ rest)

unfoldable pub chain_order : Revocations → Result Revocations
unfolding first_key follow
chain_order revs = do next ← first_key revs revs ""; follow revs (length revs) next

-- Where the walk asks for revocations and keys: the database, or a peer.
pub record ServerKeySource : Type 0 where
  pub revocation : String → Result (Option ServerKeyRevocation)
  pub armor_of : String → Result String

abbrev pub handover_broken : Result (Unit {0})
handover_broken = err (failed "server key revocation does not verify from the trusted key")

abbrev pub handover_compromised : Result (Unit {0})
handover_compromised = err (failed "server key revocation marks the key compromised")

names_successor : String → ServerKeyRevocation → Option String → Bool
names_successor server_id rev none = false
names_successor server_id rev (some fingerprint) =
    canonical_id server_id fingerprint none == rev.successor

unfoldable pub verify_server_key_revocation :
    Crypto → String → ServerKeyRevocation → String → String → Result (Unit {0})
unfolding names_successor
verify_server_key_revocation crypto server_id rev revoked_armor successor_armor =
    let payload =
      Payloads.server_key_revocation server_id rev.key_id rev.successor rev.compromised rev.reason
        rev.signed_at in
    if not (names_successor server_id rev (crypto.extract_fingerprint successor_armor))
    then handover_broken
    else if not (crypto.verify_signature payload rev.signature revoked_armor)
        || not (crypto.verify_signature payload rev.successor_signature successor_armor)
    then handover_broken
    else ok tt

abbrev pub max_server_key_hops : ℕ
max_server_key_hops = 10

module _ (crypto : Crypto) (server_id : String) (source : ServerKeySource) where
  -- One hop: the checks on the current key's revocation, and the successor to adopt.
  unfoldable pub hop : String → String → ServerKeyRevocation → Result SuccessorKey
  hop current_id current_armor rev = do
    if not (rev.key_id == current_id) then handover_broken else ok tt
    successor_armor ← source.armor_of rev.successor
    verify_server_key_revocation crypto server_id rev current_armor successor_armor
    if rev.compromised then handover_compromised else ok tt
    ok (record { id = rev.successor; armor = successor_armor })

  -- The loop, over the hops that are left: the keys adopted, oldest first.
  unfoldable pub walk : ℕ → String → String → Result (List SuccessorKey)
  unfolding hop
  walk zero current_id current_armor = err (failed "more server key revocations than hops to walk")
  walk (suc hops) current_id current_armor = do
    found ← source.revocation current_id
    elim found [
      | none ↦ ok []
      | some rev ↦ hop current_id current_armor rev >>= λ next.
          walk hops next.id next.armor >>= λ adopted. ok (next ∷ adopted)
    ]

  unfoldable pub walk_revocation_chain : String → String → Result (List SuccessorKey)
  walk_revocation_chain trusted_id trusted_armor = walk max_server_key_hops trusted_id trusted_armor
