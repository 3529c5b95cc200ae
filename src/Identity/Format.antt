-- ===== src/Identity/Format.antt =====
-- The formats of src/backend/identity_id.go, built and parsed.
use syrinx.Common.{
  String, ◌≡◌, sym, ap, subst, ◌∙◌, false, Option, none, some, arith, has, is_empty, split_last,
  split_last-append, split_last_sound, Option-cases, inl, inr,
}
use syrinx.Identity.{
  id_separator, entity_separator, canonical_id, halves, parse_identity_id, key_parts,
  with_fingerprint, parse_key_fingerprint, append_entity, owner_id, author_of,
}

-- A user half and a server half that are not empty, and a server half with no separator, are
-- parsed back from their canonical id.
pub parse_identity_id-canonical_id :
    (server_id user_id : String)
    → is_empty user_id ≡ false
    → is_empty server_id ≡ false
    → has id_separator server_id ≡ false
    → parse_identity_id (canonical_id server_id user_id none) ≡ some (user_id, server_id)
unfolding parse_identity_id canonical_id
parse_identity_id-canonical_id server_id user_id u s h =
    rw (split_last-append id_separator user_id server_id h, halves, u, s)

halves_sound :
    (o : Option (String × String)) {u s : String}
    → halves o ≡ some (u, s)
    → (o ≡ some (u, s)) × (is_empty u ≡ false) × (is_empty s ≡ false)
unfolding halves
halves_sound none h = ground arith
halves_sound (some (a, b)) h = ground arith

-- What parses is the canonical id of its two halves, neither is empty, and the server half holds
-- no separator.
pub canonical_id-parse_identity_id :
    (id : String) {u s : String}
    → parse_identity_id id ≡ some (u, s)
    → (canonical_id s u none ≡ id)
      × (is_empty u ≡ false)
      × (is_empty s ≡ false)
      × (has id_separator s ≡ false)
unfolding parse_identity_id canonical_id
canonical_id-parse_identity_id id {u} {s} h =
    let (e, nu, ns) = halves_sound (split_last id_separator id) h in
    let (spelled, clean) = split_last_sound id_separator id u s e in (spelled, nu, ns, clean)

-- An entity appended to an id that parses is split off again: the author of the ref is the id.
pub author_of-append_entity :
    (id entity_id : String) {u s : String}
    → parse_identity_id id ≡ some (u, s)
    → is_empty entity_id ≡ false
    → has entity_separator entity_id ≡ false
    → (parse_key_fingerprint (append_entity id entity_id) ≡ some (u, s, entity_id))
      × (author_of (append_entity id entity_id) ≡ some id)
author_of-append_entity id entity_id {u} {s} h e clean =
    let parsed : parse_key_fingerprint (append_entity id entity_id) ≡ some (u, s, entity_id) =
      unfold parse_key_fingerprint append_entity key_parts with_fingerprint in
      rw (
        split_last-append entity_separator id entity_id clean,
        key_parts,
        e,
        h,
        with_fingerprint,
      ) in
    (
      parsed,
      unfold author_of owner_id in
          rw (parsed, owner_id) (ap some (canonical_id-parse_identity_id id h).0),
    )

key_parts_sound :
    (o : Option (String × String)) {u s f : String}
    → key_parts o ≡ some (u, s, f)
    → (owner : String) × (o ≡ some (owner, f)) × (parse_identity_id owner ≡ some (u, s))
unfolding key_parts
key_parts_sound none h = ground arith
key_parts_sound (some (owner, fingerprint)) h = (owner, ground arith, ground arith)

pub parse_key_fingerprint_sound :
    (id : String) {u s f : String}
    → parse_key_fingerprint id ≡ some (u, s, f)
    → (owner : String) × (parse_identity_id owner ≡ some (u, s)) × (append_entity owner f ≡ id)
unfolding parse_key_fingerprint append_entity
parse_key_fingerprint_sound id {f = f} h =
    let (owner, e, parsed) = key_parts_sound (split_last entity_separator id) h in
    (owner, parsed, (split_last_sound entity_separator id owner f e).0)

no_owner :
    (ref : String) {author : String}
    → author_of ref ≡ some author
    → parse_key_fingerprint ref ≡ none
    → ⊥
unfolding author_of owner_id
no_owner ref h e = ground arith

owner_of :
    (ref : String) {author u s f : String}
    → author_of ref ≡ some author
    → parse_key_fingerprint ref ≡ some (u, s, f)
    → canonical_id s u none ≡ author
unfolding author_of owner_id
owner_of ref h e = ground arith

-- A ref with an author is the author's id with an entity appended, and the author's id parses.
pub author_of_sound :
    (ref : String) {author : String}
    → author_of ref ≡ some author
    → (u : String) × (s : String) × (entity_id : String) × (parse_identity_id author ≡ some (u, s))
      × (append_entity author entity_id ≡ ref)
author_of_sound ref {author} h = elim (Option-cases (parse_key_fingerprint ref)) [
  | inl e ↦ absurd (no_owner ref h e)
  | inr ((u, s, f), e) ↦
      let (owner, parsed, spelled) = parse_key_fingerprint_sound ref e in
      let same : owner ≡ author =
        sym (canonical_id-parse_identity_id owner parsed).0 ∙ owner_of ref h e in
      (
        u,
        s,
        f,
        subst (λ o. parse_identity_id o ≡ some (u, s)) same parsed,
        subst (λ o. append_entity o f ≡ ref) same spelled,
      )
]
