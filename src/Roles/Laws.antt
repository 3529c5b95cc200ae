-- ===== src/Roles/Laws.antt =====
-- The role checks of src/backend/roles.go.
use syrinx.Common.{
  String, ◌≡◌, ◌≢◌, refl, ◌↔◌, ◌⊎◌, inl, inr, Bool, true, false, ◌&&◌, ◌==◌, eq_iff, ok, arith,
  trim_space, text_cases,
}
use syrinx.Roles.{
  role_root, role_admin, role_user, is_root, is_root_identity, signup_role, role_from_invite_grant,
  validate_profile_role, check_tier,
}

abbrev Tier : String → Bool → Type 0
Tier role root_match =
    ((role ≡ role_root) × (root_match ≡ true))
    ⊎ (((role ≡ role_admin) ⊎ (role ≡ role_user)) × (root_match ≡ false))

Tier_root : (m : Bool) → (check_tier role_root m ≡ ok tt) ↔ (m ≡ true)
unfolding check_tier
Tier_root m = ground arith

Tier_other :
    (r : String) (m : Bool)
    → r ≢ role_root
    → (check_tier r m ≡ ok tt) ↔ (((r ≡ role_admin) ⊎ (r ≡ role_user)) × (m ≡ false))
unfolding check_tier
Tier_other r m h = ground (arith, eq_iff r role_root, eq_iff r role_admin, eq_iff r role_user)

root_not_user : ¬ ((role_root ≡ role_admin) ⊎ (role_root ≡ role_user))
root_not_user (inl e) = ground (arith, eq_iff role_root role_admin)
root_not_user (inr e) = ground (arith, eq_iff role_root role_user)

check_tier_iff : (r : String) (m : Bool) → (check_tier r m ≡ ok tt) ↔ Tier r m
check_tier_iff r m = elim (text_cases r role_root) [
  | inl (e, _) ↦ rw e (
    λ h. inl (refl, (Tier_root m).0 h),
    elim [ inl h ↦ (Tier_root m).1 h.1 | inr h ↦ absurd (root_not_user h.0) ],
  )
  | inr (ne, _) ↦ (
    λ h. inr ((Tier_other r m ne).0 h),
    elim [ inl h ↦ absurd (ne h.0) | inr h ↦ (Tier_other r m ne).1 h ],
  )
]

-- A profile's role passes exactly when its trimmed text is one of the three tiers, and is root
-- exactly for this server's root identity.
pub validate_profile_role_iff :
    (user_id role server_id : String)
    → (validate_profile_role user_id role server_id ≡ ok tt) ↔ (
        ((trim_space role ≡ role_root) × (is_root_identity user_id server_id ≡ true))
        ⊎ (((trim_space role ≡ role_admin) ⊎ (trim_space role ≡ role_user))
            × (is_root_identity user_id server_id ≡ false)))
unfolding validate_profile_role
validate_profile_role_iff user_id role server_id =
    check_tier_iff (trim_space role) (is_root_identity user_id server_id)

trim_roles :
    (trim_space role_root ≡ role_root)
    × (trim_space role_admin ≡ role_admin)
    × (trim_space role_user ≡ role_user)
unfolding trim_space
trim_roles = (refl, refl, refl)

grant_cases :
    (g : String) → (role_from_invite_grant g ≡ role_admin) ⊎ (role_from_invite_grant g ≡ role_user)
unfolding role_from_invite_grant
grant_cases g = ground arith

root_of_Tier : (r : String) (m : Bool) → Tier r m → (m && r == role_root) ≡ m
root_of_Tier r m (inl (e, t)) = rw (e, t)
root_of_Tier r m (inr (inl e, t)) = rw (e, t)
root_of_Tier r m (inr (inr e, t)) = rw (e, t)

-- The role a signup is given is root for the root identity, and else admin or user.
signup_role_cases :
    (user_id granted server_id : String) (has_invite : Bool)
    → let role = signup_role user_id granted has_invite server_id in
      Tier role (is_root_identity user_id server_id) × (trim_space role ≡ role)
unfolding signup_role
signup_role_cases user_id granted server_id has_invite =
    ground (arith, trim_roles, grant_cases granted)

-- Whatever an invite grants, the role a signup is given passes the profile check, and it is root
-- for the root identity alone.
pub validate-signup_role :
    (user_id granted server_id : String) (has_invite : Bool)
    → (validate_profile_role user_id (signup_role user_id granted has_invite server_id) server_id
        ≡ ok tt)
      × (is_root user_id (signup_role user_id granted has_invite server_id) server_id
          ≡ is_root_identity user_id server_id)
validate-signup_role user_id granted server_id has_invite =
    let (tier, trimmed) = signup_role_cases user_id granted server_id has_invite in
    (
      unfold validate_profile_role in rw trimmed ((check_tier_iff _ _).1 tier),
      unfold is_root in root_of_Tier _ _ tier,
    )
