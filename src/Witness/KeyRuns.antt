-- ===== src/Witness/KeyRuns.antt =====
-- A server whose key "K1@s" was handed over to "K2@s", and that one to "K3@s".
use syrinx.Common.{
  String, ◌≡◌, refl, ◌↔◌, ◌==◌, if◌then◌else◌, false, none, some, List, [], ◌∷◌, ok, length, ◌<◌,
}
use mathlib.Core.List.{Permᴰ}
use syrinx.KeyChain.{
  ServerKeyRevocation, SuccessorKey, ServerKeySource, Revocations, by_key, is_successor, first_key,
  follow, chain_order, walk_revocation_chain, max_server_key_hops,
}
use syrinx.KeyChain.Order.{Starts, chain_order-perm}
use syrinx.KeyChain.Walk.{Trail, walk_revocation_chain_iff}
use syrinx.Witness.Data.{crypto}

abbrev revocation : String → String → ServerKeyRevocation
revocation from to = record {
  key_id = from;
  successor = to;
  compromised = false;
  reason = "rotation";
  signed_at = 1;
  signature = from;
  successor_signature = to;
}

abbrev first : ServerKeyRevocation
first = revocation "K1@s" "K2@s"

abbrev second : ServerKeyRevocation
second = revocation "K2@s" "K3@s"

abbrev stored : Revocations
stored = second ∷ first ∷ []

abbrev source : ServerKeySource
source = record {
  revocation = λ id. if id == "K1@s" then ok (some first) else ok none;
  armor_of = λ id. ok "K2";
}

order_run : chain_order stored ≡ ok (first ∷ second ∷ [])
unfolding chain_order by_key is_successor first_key follow
order_run = refl

Starts-run : Starts (first ∷ second ∷ [])
unfolding is_successor
Starts-run = refl

chain_order-perm_example : chain_order stored ≡ ok (first ∷ second ∷ [])
chain_order-perm_example =
    chain_order-perm stored (first ∷ second ∷ []) (Permᴰ.swap refl refl) (refl, (refl, tt))
      (refl, tt) Starts-run

abbrev adopted : List SuccessorKey
adopted = record { id = "K2@s"; armor = "K2" } ∷ []

walk_revocation_chain_iff_example :
    (walk_revocation_chain crypto "s" source "K1@s" "K1" ≡ ok adopted)
    ↔ (Trail crypto "s" source "K1@s" "K1" adopted × (length adopted < max_server_key_hops))
walk_revocation_chain_iff_example = walk_revocation_chain_iff crypto "s" source "K1@s" "K1" adopted
