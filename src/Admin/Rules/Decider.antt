-- ===== src/Admin/Rules/Decider.antt =====
-- Whom checkActorPermissionsQ and checkDeciderQ of src/backend/admin.go let through.
use syrinx.Common.{
  String, ◌≡◌, ◌≢◌, refl, ◌⊎◌, ◌↔◌, inl, inr, Bool, true, false, not, ◌&&◌, ◌==◌, eq_iff,
  if◌then◌else◌, List, [], ◌∷◌, ◌++◌, Result, ok, refused, Failure, refuse_if, each, each-All,
  >>-eq-ok, >>=-eq-ok, refuse_if-ok, All, All-map, arith, contains,
}
use syrinx.Roles.{role_admin, is_admin, is_root}
use syrinx.Store.{AdminRequest, Db}
use syrinx.Store.Queries.{user_role, user_permissions, invited_by}
use syrinx.Admin.Rules.{
  needs_outside_approver, required_permissions, granted_or_refuse, remaining_targets,
  check_actor_permissions, check_decider,
}

-- The actor holds each permission that the request needs and each that it grants.
pub record Holds (db : Db) (server_id : String) (req : AdminRequest) (actor_id role : String)
    : Type 0 where
  pub required : List String
  pub granted : List String
  pub needs : required_permissions db server_id req ≡ ok required
  pub grants : granted_or_refuse req ≡ ok granted
  pub held :
      All
        (λ p. contains (user_permissions db server_id actor_id role) p ≡ true)
        (required ++ granted)

pub refuse_if-not : (b : Bool) (e : Failure) → refuse_if (not b) e ≡ ok tt → b ≡ true
refuse_if-not b e h = ground arith

each-of_All {ℓ} :
    {A : Type ℓ} (check : A → Result (Unit {0})) (xs : List A)
    → All (λ x. check x ≡ ok tt) xs
    → each check xs ≡ ok tt
each-of_All check [] h = refl
each-of_All check (x ∷ xs) h = rw (h.0, each-of_All check xs h.1)

-- An actor passes exactly when they hold, by the tables as they are, every permission that the
-- request needs and every one that it grants.
pub check_actor_permissions_iff :
    (db : Db) (server_id : String) (req : AdminRequest) (actor_id role : String)
    → (check_actor_permissions db server_id req actor_id role ≡ ok tt)
      ↔ Holds db server_id req actor_id role
unfolding check_actor_permissions
check_actor_permissions_iff db server_id req actor_id role = (
  λ h.
      let (required, needs, h1) = >>=-eq-ok (required_permissions db server_id req) _ h in
      let (granted, grants, h2) = >>=-eq-ok (granted_or_refuse req) _ h1 in
      record {
        required = required;
        granted = granted;
        needs = needs;
        grants = grants;
        held =
            All-map _ _ (required ++ granted) (λ p. refuse_if-not _ _)
              (each-All _ (required ++ granted) h2);
      },
  λ v.
      rw (v.needs, v.grants)
        (each-of_All _ (v.required ++ v.granted) (
          All-map (λ p. contains (user_permissions db server_id actor_id role) p ≡ true) _
            (v.required ++ v.granted) (λ p e. rw e) v.held)),
)

-- Who may approve or reject a request.
pub record Eligible (db : Db) (server_id : String) (req : AdminRequest) (decider_id : String)
    : Type 0 where
  pub admin : is_admin (user_role db decider_id) ≡ true
  pub second :
      (decider_id ≢ req.requester_id)
      ⊎ (is_root decider_id (user_role db decider_id) server_id ≡ true)
  pub no_target : contains req.targets decider_id ≡ false
  pub outsider :
      (needs_outside_approver req.action && invited_by db req.requester_id decider_id) ≡ false
  pub holds : Holds db server_id req decider_id (user_role db decider_id)
  pub over_admins :
      (is_root decider_id (user_role db decider_id) server_id ≡ true)
      ⊎ All (λ t. (user_role db t == role_admin) ≡ false) (remaining_targets req)

pub second_of : (s t : String) (r : Bool) → ((s == t && not r) ≡ false) ↔ ((s ≢ t) ⊎ (r ≡ true))
second_of s t true = (λ h. inr refl, λ h. ground arith)
second_of s t false = (
  λ h. inl (λ e. ground (arith, (eq_iff s t).1 e)),
  elim [ inl ne ↦ ground (arith, eq_iff s t) | inr e ↦ ground arith ],
)

over_of :
    (r : Bool) (check : String → Bool) (e : Failure) (ts : List String)
    → ((if r then ok tt else each (λ t. refuse_if (check t) e) ts) ≡ ok tt)
      ↔ ((r ≡ true) ⊎ All (λ t. check t ≡ false) ts)
over_of true check e ts = (λ h. inl refl, λ h. refl)
over_of false check e ts = (
  λ h.
      inr (
        All-map _ _ ts (λ t. refuse_if-ok (check t) e)
          (each-All (λ t. refuse_if (check t) e) ts h)),
  elim [
    | inl h ↦ ground arith
    | inr h ↦
        each-of_All (λ t. refuse_if (check t) e) ts
          (All-map (λ t. check t ≡ false) _ ts (λ t p. rw p) h)
  ],
)

-- A decider passes exactly when eligible: an admin now, not the requester unless root, no target,
-- not invited by the requester where an outsider is needed, holding what the request needs and
-- grants, and root where a remaining target is an admin.
pub check_decider_iff :
    (db : Db) (server_id : String) (req : AdminRequest) (decider_id : String)
    → (check_decider db server_id req decider_id ≡ ok tt) ↔ Eligible db server_id req decider_id
unfolding check_decider
check_decider_iff db server_id req d =
    let role = user_role db d in
    let r = is_root d role server_id in
    let ts = remaining_targets req in
    let over = over_of r (λ t. user_role db t == role_admin) (refused 403 "root_required") ts in
    (
      λ h.
          let (a, h1) = >>-eq-ok (refuse_if (not (is_admin role)) _) _ h in
          let (b, h2) = >>-eq-ok (refuse_if (d == req.requester_id && not r) _) _ h1 in
          let (c, h3) = >>-eq-ok (refuse_if (contains req.targets d) _) _ h2 in
          let (o, h4) =
            >>-eq-ok
              (refuse_if (needs_outside_approver req.action && invited_by db req.requester_id d) _)
              _ h3 in
          let (p, h5) = >>-eq-ok (check_actor_permissions db server_id req d role) _ h4 in
          record {
            admin = refuse_if-not (is_admin role) _ a;
            second = (second_of d req.requester_id r).0 (refuse_if-ok _ _ b);
            no_target = refuse_if-ok _ _ c;
            outsider = refuse_if-ok _ _ o;
            holds = (check_actor_permissions_iff db server_id req d role).0 p;
            over_admins = over.0 h5;
          },
      λ v.
          rw
            (
              v.admin,
              (second_of d req.requester_id r).1 v.second,
              v.no_target,
              v.outsider,
              (check_actor_permissions_iff db server_id req d role).1 v.holds,
            )
            (over.1 v.over_admins),
    )
