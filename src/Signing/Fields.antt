-- ===== src/Signing/Fields.antt =====
-- What the signed fields of src/backend/identity.go say of what was signed.
use syrinx.Common.{
  ℕ, String, ◌≡◌, refl, sym, ap, ◌∙◌, inl, inr, Bool, true, false, not, ◌&&◌, ◌==◌, List, [], ◌∷◌,
  arith, Bool-cases, text_cases, if◌then◌else◌, any,
}
use syrinx.Signing.{
  Value, text, texts, timestamp, absent, Payload, is_empty_signed_value, canonical_json, value,
}
use syrinx.Signing.Payloads

abbrev kept : Value → Value
kept v = if is_empty_signed_value v then absent else v

abbrev has_field : String → Payload → Bool
has_field k fields = any (λ f. f.0 == k) fields

abbrev distinct : Payload → Bool
distinct [] = true
distinct ((k, v) ∷ fields) = not (has_field k fields) && distinct fields

distinct-cons : (a b : Bool) → (not a && b) ≡ true → (a ≡ false) × (b ≡ true)
distinct-cons a b h = ground arith

value_missing :
    (k : String) (fields : Payload)
    → has_field k fields ≡ false
    → value k (canonical_json fields) ≡ absent
unfolding value canonical_json
value_missing k [] h = refl
value_missing k ((j, v) ∷ fields) h = ground (arith, value_missing k fields (ground arith))

value-canonical_json :
    (k : String) (fields : Payload)
    → distinct fields ≡ true
    → value k (canonical_json fields) ≡ kept (value k fields)
unfolding value canonical_json
value-canonical_json k [] d = refl
value-canonical_json k ((j, v) ∷ fields) h =
    let d = distinct-cons (has_field j fields) (distinct fields) h in
    elim (Bool-cases (is_empty_signed_value v)) [
      | inl e ↦ elim (text_cases j k) [
        | inl (same, t) ↦ rw (e, t) (value_missing k fields (rw same at d.0) ∙ sym (rw e))
        | inr (_, f) ↦ rw (e, f) (value-canonical_json k fields d.1)
      ]
      | inr e ↦ elim (text_cases j k) [
        | inl (_, t) ↦ rw (e, t) (rw e)
        | inr (_, f) ↦ rw (e, f) (value-canonical_json k fields d.1)
      ]
    ]

kept_text_inj : (s t : String) → kept (text s) ≡ kept (text t) → s ≡ t
unfolding is_empty_signed_value
kept_text_inj String.[] String.[] h = refl
kept_text_inj String.[] (String.◌∷◌ d t) h = ground arith
kept_text_inj (String.◌∷◌ c s) String.[] h = ground arith
kept_text_inj (String.◌∷◌ c s) (String.◌∷◌ d t) h = ground arith

kept_texts_inj : (s t : List String) → kept (texts s) ≡ kept (texts t) → s ≡ t
unfolding is_empty_signed_value
kept_texts_inj [] [] h = refl
kept_texts_inj [] (d ∷ t) h = ground arith
kept_texts_inj (c ∷ s) [] h = ground arith
kept_texts_inj (c ∷ s) (d ∷ t) h = ground arith

kept_timestamp_inj : (s t : ℕ) → kept (timestamp s) ≡ kept (timestamp t) → s ≡ t
unfolding is_empty_signed_value
kept_timestamp_inj s t h = ground arith

-- Two field sets with one payload agree at every field, empty and absent being one.
same_field :
    (k : String) (a b : Payload)
    → distinct a ≡ true
    → distinct b ≡ true
    → canonical_json a ≡ canonical_json b
    → kept (value k a) ≡ kept (value k b)
same_field k a b da db e =
    sym (value-canonical_json k a da) ∙ ap (value k) e ∙ value-canonical_json k b db

-- A decision's signed bytes determine the request, the decision, who made it, with which key, and
-- the request's signature.
pub admin_decision_inj :
    (request decision decider key signature request' decision' decider' key' signature' : String)
    → Payloads.admin_decision request decision decider key signature
      ≡ Payloads.admin_decision request' decision' decider' key' signature'
    → (request ≡ request')
      × (decision ≡ decision')
      × (decider ≡ decider')
      × (key ≡ key')
      × (signature ≡ signature')
unfolding Payloads.admin_decision value
admin_decision_inj r d u k s r' d' u' k' s' e = (
  kept_text_inj r r' (same_field "requestID" _ _ refl refl e),
  kept_text_inj d d' (same_field "decision" _ _ refl refl e),
  kept_text_inj u u' (same_field "deciderID" _ _ refl refl e),
  kept_text_inj k k' (same_field "keyID" _ _ refl refl e),
  kept_text_inj s s' (same_field "requestSignature" _ _ refl refl e),
)

-- A request's signed bytes determine its id, action, requester, key, reason, targets, body and time.
pub admin_request_inj :
    (id action requester key reason body id' action' requester' key' reason' body' : String)
    (targets targets' : List String) (created created' : ℕ)
    → Payloads.admin_request id action requester key reason targets body created
      ≡ Payloads.admin_request id' action' requester' key' reason' targets' body' created'
    → (id ≡ id')
      × (action ≡ action')
      × (requester ≡ requester')
      × (key ≡ key')
      × (reason ≡ reason')
      × (targets ≡ targets')
      × (body ≡ body')
      × (created ≡ created')
unfolding Payloads.admin_request value
admin_request_inj i a u k r b i' a' u' k' r' b' t t' c c' e = (
  kept_text_inj i i' (same_field "requestID" _ _ refl refl e),
  kept_text_inj a a' (same_field "action" _ _ refl refl e),
  kept_text_inj u u' (same_field "requesterID" _ _ refl refl e),
  kept_text_inj k k' (same_field "keyID" _ _ refl refl e),
  kept_text_inj r r' (same_field "reason" _ _ refl refl e),
  kept_texts_inj t t' (same_field "targets" _ _ refl refl e),
  kept_text_inj b b' (same_field "body" _ _ refl refl e),
  kept_timestamp_inj c c' (same_field "createdAt" _ _ refl refl e),
)
