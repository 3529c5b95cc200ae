-- ===== src/Admin/Executors/Untouched.antt =====
-- What peer events, flags and one user's UPDATE leave of the users table.
use syrinx.Common.{
  String, ◌≡◌, refl, ap, ◌∙◌, inl, inr, Bool, false, ◌==◌, List, [], ◌∷◌, eq_iff, Bool-cases,
  Option-cases, arith, find, contains, select, update,
}
use syrinx.Store.{Peer, User, Db}
use syrinx.Store.PeerEvents.{is_owed, enqueue_peer_event, owe, owe_all}
use syrinx.Store.Flags.{
  drop_flags, gone_cases, void_case_if_done, settle_account_removal, settle_cases, settle_case,
}

owe-users :
    (kind subject_id : String) (db : Db) (peer : Peer)
    → (owe kind subject_id db peer).users ≡ db.users
unfolding owe
owe-users kind subject_id db peer = elim (Option-cases peer.revoked_at) [
  | inl e ↦ rw e (elim (Bool-cases (is_owed db.peer_event_queue peer.server_id kind subject_id)) [
    | inl t ↦ rw t refl
    | inr f ↦ rw f refl
  ])
  | inr (at, e) ↦ rw e refl
]

owe_all-users :
    (kind subject_id : String) (db : Db) (peers : List Peer)
    → (owe_all kind subject_id db peers).users ≡ db.users
unfolding owe_all
owe_all-users kind subject_id db [] = refl
owe_all-users kind subject_id db (p ∷ ps) =
    owe_all-users kind subject_id (owe kind subject_id db p) ps ∙ owe-users kind subject_id db p

pub enqueue_peer_event-users :
    (db : Db) (kind subject_id : String) → (enqueue_peer_event db kind subject_id).users ≡ db.users
unfolding enqueue_peer_event
enqueue_peer_event-users db kind subject_id = owe_all-users kind subject_id db db.server_mesh

settle_cases-users : (db : Db) (ids : List String) → (settle_cases db ids).users ≡ db.users
unfolding settle_cases settle_case void_case_if_done
settle_cases-users db [] = refl
settle_cases-users db (id ∷ ids) = settle_cases-users (settle_case db id) ids

pub settle_account_removal-users :
    (db : Db) (id : String) → (settle_account_removal db id).users ≡ db.users
unfolding settle_account_removal drop_flags
settle_account_removal-users db id = settle_cases-users (drop_flags db id) (gone_cases db id)

-- Updating one user's row leaves the others' rows.
pub find-update_row :
    (t u : String) (f : User → User) (us : List User)
    → ((v : User) → (f v).id ≡ v.id)
    → (t == u) ≡ false
    → find (λ v. v.id == u) (update (λ v. v.id == t) f us) ≡ find (λ v. v.id == u) us
find-update_row t u f [] keep n = refl
find-update_row t u f (v ∷ us) keep n =
    let rest = find-update_row t u f us keep n in
    elim (Bool-cases (v.id == t)) [
      | inl e ↦
          let miss : (v.id == u) ≡ false = ap (λ s. s == u) ((eq_iff v.id t).0 e) ∙ n in
          rw (e, keep v, miss) rest
      | inr e ↦ elim (Bool-cases (v.id == u)) [
        | inl hit ↦ rw (e, hit) refl
        | inr miss ↦ rw (e, miss) rest
      ]
    ]

pub select_keeps :
    (p : String → Bool) (ts : List String) (u : String)
    → contains ts u ≡ false
    → contains (select p ts) u ≡ false
select_keeps p [] u n = refl
select_keeps p (t ∷ ts) u n = let rest = select_keeps p ts u (ground arith) in ground arith
