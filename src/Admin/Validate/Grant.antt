-- ===== src/Admin/Validate/Grant.antt =====
-- parseInviteGrant of src/backend/admin_invites.go.
use syrinx.Common.{
  ℕ, ◌≤◌, String, ◌≡◌, subst, false, not, ◌||◌, ◌==◌, ok, refuse_if, or_fail, >>=-eq-ok, >>-eq-ok,
  refuse_if-ok, ok_inj, eq_iff, arith, ltb, print_decimal, read_decimal,
}
use syrinx.Admin.Rules.Decider.{refuse_if-not}
use syrinx.Admin.Validate.{max_invite_grant, parse_invite_grant}

in_range : (n : ℕ) → (ltb n 1 || ltb 100 n) ≡ false → (1 ≤ n) × (n ≤ 100)
in_range n h = ground arith

-- A grant that is read is from 1 to 100, and its text is the decimal print of that number.
pub parse_invite_grant_sound :
    (body : String) (n : ℕ)
    → parse_invite_grant body ≡ ok n
    → (1 ≤ n) × (n ≤ max_invite_grant) × (print_decimal n ≡ body)
unfolding parse_invite_grant
parse_invite_grant_sound body n h =
    let (k, _, h1) = >>=-eq-ok (or_fail (read_decimal 0x8000000000000000 body) _) _ h in
    let (spelled, h2) = >>-eq-ok (refuse_if (not (print_decimal k == body)) _) _ h1 in
    let (range, h3) = >>-eq-ok (refuse_if (ltb k 1 || ltb max_invite_grant k) _) _ h2 in
    let (low, high) = in_range k (refuse_if-ok _ _ range) in
    subst (λ m. (1 ≤ m) × (m ≤ max_invite_grant) × (print_decimal m ≡ body)) (ok_inj h3)
      (low, high, (eq_iff _ _).0 (refuse_if-not _ _ spelled))
