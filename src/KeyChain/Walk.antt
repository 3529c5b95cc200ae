-- ===== src/KeyChain/Walk.antt =====
-- walkRevocationChain of src/backend/server_key.go.
use syrinx.Common.{
  ℕ, zero, suc, ◌≤◌, ◌<◌, subst, ok_inj, String, ◌≡◌, refl, Bool, true, false, ◌==◌, eq_iff, Option,
  none, some, List, [], ◌∷◌, ◌↔◌, not, ◌||◌, if◌then◌else◌, ok, arith, length, Option-cases, inl,
  inr, >>=-eq-ok, >>-eq-ok, ◌>>=◌,
}
use syrinx.Identity.{canonical_id}
use syrinx.Signing.{Crypto}
use syrinx.Signing.Payloads
use syrinx.KeyChain.{
  ServerKeyRevocation, SuccessorKey, ServerKeySource, verify_server_key_revocation, hop, walk,
  walk_revocation_chain, max_server_key_hops, names_successor, handover_broken,
  handover_compromised,
}

-- What a revocation and its successor's armor are checked for: the armor has the fingerprint in the
-- successor's id, and both keys' signatures over the revocation verify.
pub record Verified (crypto : Crypto) (server_id : String) (rev : ServerKeyRevocation)
    (armor next_armor : String) : Type 0 where
  pub named :
      (f : String) × (crypto.extract_fingerprint next_armor ≡ some f)
      × (canonical_id server_id f none ≡ rev.successor)
  pub signed :
      crypto.verify_signature
        (Payloads.server_key_revocation server_id rev.key_id rev.successor rev.compromised
          rev.reason rev.signed_at)
        rev.signature
        armor
      ≡ true
  pub countersigned :
      crypto.verify_signature
        (Payloads.server_key_revocation server_id rev.key_id rev.successor rev.compromised
          rev.reason rev.signed_at)
        rev.successor_signature
        next_armor
      ≡ true

-- One hop of a trail: the source's revocation is of the current key, names the next one, verifies,
-- and does not mark the key compromised.
pub record Handover (crypto : Crypto) (server_id : String) (source : ServerKeySource)
    (id armor : String) (rev : ServerKeyRevocation) (next : SuccessorKey) : Type 0 where
  pub revokes : rev.key_id ≡ id
  pub adopts : rev.successor ≡ next.id
  pub served : source.armor_of rev.successor ≡ ok next.armor
  pub verified : Verified crypto server_id rev armor next.armor
  pub trusted : rev.compromised ≡ false

named_iff :
    (crypto : Crypto) (server_id : String) (rev : ServerKeyRevocation) (o : Option String)
    → (names_successor server_id rev o ≡ true)
      ↔ ((f : String) × (o ≡ some f) × (canonical_id server_id f none ≡ rev.successor))
unfolding names_successor
named_iff crypto server_id rev none = (λ h. ground arith, λ (f, e, _). ground arith)
named_iff crypto server_id rev (some f) = (
  λ h. (f, refl, (eq_iff _ _).0 h),
  λ (g, e, p). ground (arith, eq_iff (canonical_id server_id f none) rev.successor),
)

three_pass :
    (a b c : Bool)
    → ((if not a then handover_broken else if not b || not c then handover_broken else ok tt)
        ≡ ok tt)
      ↔ ((a ≡ true) × (b ≡ true) × (c ≡ true))
three_pass a b c = ground arith

verify_iff :
    (crypto : Crypto) (server_id : String) (rev : ServerKeyRevocation) (armor next_armor : String)
    → (verify_server_key_revocation crypto server_id rev armor next_armor ≡ ok tt)
      ↔ Verified crypto server_id rev armor next_armor
unfolding verify_server_key_revocation
verify_iff crypto server_id rev armor next_armor =
    let name = named_iff crypto server_id rev (crypto.extract_fingerprint next_armor) in
    let pass =
      three_pass (names_successor server_id rev (crypto.extract_fingerprint next_armor)) _ _ in
    (
      λ h. let (n, s, c) = pass.0 h in record { named = name.0 n; signed = s; countersigned = c },
      λ v. pass.1 (name.1 v.named, v.signed, v.countersigned),
    )

module _ (crypto : Crypto) (server_id : String) (source : ServerKeySource) where
  hop_sound :
      (id armor : String) (rev : ServerKeyRevocation) (next : SuccessorKey)
      → hop crypto server_id source id armor rev ≡ ok next
      → Handover crypto server_id source id armor rev next
  unfolding hop
  hop_sound id armor rev next h =
      let (mine, h1) = >>-eq-ok (if not (rev.key_id == id) then handover_broken else ok tt) _ h in
      let (next_armor, served, h2) = >>=-eq-ok (source.armor_of rev.successor) _ h1 in
      let (checked, h3) =
        >>-eq-ok (verify_server_key_revocation crypto server_id rev armor next_armor) _ h2 in
      let (fine, h4) = >>-eq-ok (if rev.compromised then handover_compromised else ok tt) _ h3 in
      let same : next_armor ≡ next.armor = ground arith in
      record {
        revokes = ground (arith, eq_iff rev.key_id id);
        adopts = ground arith;
        served = rw (← same) served;
        verified = rw (← same) ((verify_iff crypto server_id rev armor next_armor).0 checked);
        trusted = ground arith;
      }

  hop_complete :
      (id armor : String) (rev : ServerKeyRevocation) (next : SuccessorKey)
      → Handover crypto server_id source id armor rev next
      → hop crypto server_id source id armor rev ≡ ok next
  unfolding hop
  hop_complete id armor rev next h =
      let checked = (verify_iff crypto server_id rev armor next.armor).1 h.verified in
      rw ((eq_iff rev.key_id id).1 h.revokes, h.served, checked, h.trusted, h.adopts)

  -- The keys a walk passes through, from the one that it starts with to one that is not revoked.
  abbrev pub Trail : String → String → List SuccessorKey → Type 0
  Trail id armor [] = source.revocation id ≡ ok none
  Trail id armor (next ∷ rest) =
      (rev : ServerKeyRevocation) × (source.revocation id ≡ ok (some rev))
      × Handover crypto server_id source id armor rev next
      × Trail next.id next.armor rest

  walk_sound :
      (hops : ℕ) (id armor : String) (adopted : List SuccessorKey)
      → walk crypto server_id source hops id armor ≡ ok adopted
      → Trail id armor adopted × (suc (length adopted) ≤ hops)
  unfolding walk
  walk_sound zero id armor adopted h = ground arith
  walk_sound (suc hops) id armor adopted h =
      let (found, asked, h1) = >>=-eq-ok (source.revocation id) _ h in
      elim (Option-cases found) [
        | inl e ↦
            let stopped : ok [] ≡ ok adopted = rw e at h1 in
            subst (λ ks. Trail id armor ks × (suc (length ks) ≤ suc hops)) (ok_inj stopped)
              (rw e at asked, omega arith)
        | inr (rev, e) ↦
            let stepped : (hop crypto server_id source id armor rev >>= λ next.
            walk crypto server_id source hops next.id next.armor >>= λ rest. ok (next ∷ rest))
                ≡ ok adopted =
              rw e at h1 in
            let (next, step, h2) = >>=-eq-ok (hop crypto server_id source id armor rev) _ stepped in
            let (rest, more, h3) =
              >>=-eq-ok (walk crypto server_id source hops next.id next.armor) _ h2 in
            let (trail, bound) = walk_sound hops next.id next.armor rest more in
            subst (λ ks. Trail id armor ks × (suc (length ks) ≤ suc hops)) (ok_inj h3)
              ((rev, rw e at asked, hop_sound id armor rev next step, trail), omega arith)
      ]

  walk_complete :
      (hops : ℕ) (id armor : String) (adopted : List SuccessorKey)
      → Trail id armor adopted
      → suc (length adopted) ≤ hops
      → walk crypto server_id source hops id armor ≡ ok adopted
  unfolding walk
  walk_complete zero id armor adopted t n = absurd (omega arith)
  walk_complete (suc hops) id armor [] t n = rw t
  walk_complete (suc hops) id armor (next ∷ rest) (rev, found, step, more) n = rw (
    found,
    hop_complete id armor rev next step,
    walk_complete hops next.id next.armor rest more (omega arith),
  )

  -- The walk succeeds exactly when a trail of verified handovers leads from the trusted key to a key
  -- that is not revoked in fewer than `max_server_key_hops` hops, and it adopts that trail's keys.
  pub walk_revocation_chain_iff :
      (trusted_id trusted_armor : String) (adopted : List SuccessorKey)
      → (walk_revocation_chain crypto server_id source trusted_id trusted_armor ≡ ok adopted)
        ↔ (Trail trusted_id trusted_armor adopted × (length adopted < max_server_key_hops))
  unfolding walk_revocation_chain
  walk_revocation_chain_iff id armor adopted = (
    walk_sound max_server_key_hops id armor adopted,
    λ (t, n). walk_complete max_server_key_hops id armor adopted t n,
  )
