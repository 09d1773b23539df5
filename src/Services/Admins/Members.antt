-- ===== src/Services/Admins/Members.antt =====
-- `RequestToJoin`, `ApproveMember`, `RejectMember` and `TransferAdmin` of services/memberships.go
-- against the group admins.
use expense_splitter.Prelude.{ℕ, refl, ◌∙◌, Bool, ◌&&◌, arith}
use expense_splitter.Types.Membership.{MembershipStatus, group_admin, member, is_requested}
use expense_splitter.Store.{MembershipRow}
use expense_splitter.Store.Action.{run, exec}
use expense_splitter.Store.Rows.{find, exists_row}
use expense_splitter.Store.Hoare.{Triple, Triple-bind, Triple-run}
use expense_splitter.Store.Groups.{get_group_by_invite_token}
use expense_splitter.Store.Memberships.{
  is_member, is_admin_of, get_membership, create_join_request, decide_join_request,
  demote_group_admin, promote_to_group_admin,
}
use expense_splitter.Services.Memberships.{request_to_join, set_member_status, transfer_admin}
use expense_splitter.Services.Reads.{
  principal_by_keycloak_id-Reads, require_group_role-Reads, unless-Reads, if-Reads, lift-Reads,
  read,
}
use expense_splitter.Services.Frame.{
  Anywhere, anywhere, stays, write_audit-Stable, done-Keeps, tx-Keeps,
}
use expense_splitter.Services.Admins.{HasOneAdmin, Vacant}
use expense_splitter.Services.Admins.Tidy.{
  steady, Replies-insert, Replies-found, Replies-blocked, IsTidy-append, admins-member,
  IsTidy-update,
}
use expense_splitter.Services.Admins.Rows.{
  count_rows-same, count_rows-le, found-counts, decide-loose, demote-admins, demote-loose,
  is_approved_member, promote-admins, promote-loose,
}

create_join_request-Keeps :
    (group_id user_id : ℕ) (e : _)
    → Triple HasOneAdmin
        (run (create_join_request group_id user_id) e)
        (λ m. HasOneAdmin)
        HasOneAdmin
unfolding create_join_request
create_join_request-Keeps group_id user_id e =
    Triple-run (create_join_request group_id user_id) e (stays _) λ id now db p.
      Replies-insert (λ m. HasOneAdmin) (exists_row (is_member group_id user_id) db.memberships) _ _
        db _
        λ free valid. (
          (λ g. admins-member g db.memberships _ refl ∙ p.0 g),
          IsTidy-append db.memberships _ refl free (ground (arith, valid)) p.1,
        )

pub request_to_join-OneAdmin :
    (subject token : ℕ)
    → Triple HasOneAdmin (request_to_join subject token) (λ m. HasOneAdmin) HasOneAdmin
unfolding request_to_join get_group_by_invite_token
request_to_join-OneAdmin subject token =
    Triple-bind (principal_by_keycloak_id-Reads subject _) λ caller. Triple-bind (lift-Reads _) λ u.
      Triple-bind (read (get_group_by_invite_token token) _ λ id now db. refl)
        λ g. Triple-bind (unless-Reads _ _) λ u. create_join_request-Keeps _ _ _

decide-Keeps :
    (status : MembershipStatus) (group_id user_id : ℕ) (e : _)
    → Triple HasOneAdmin
        (run (decide_join_request status group_id user_id) e)
        (λ m. HasOneAdmin)
        Anywhere
unfolding decide_join_request
decide-Keeps status group_id user_id e =
    Triple-run (decide_join_request status group_id user_id) e (anywhere _) λ id now db p.
      let hit : MembershipRow → Bool = λ m. is_member group_id user_id m && is_requested m.status in
      let f : MembershipRow → MembershipRow = λ m. record m { status = status } in
      Replies-found (λ m. HasOneAdmin) (find hit db.memberships) f db _
        λ m found. (
          (λ g.
              ground
                (arith, p.0 g, count_rows-same (is_admin_of g) hit f (λ n. refl) db.memberships)),
          IsTidy-update hit f db.memberships (λ n. (refl, refl, refl))
              (λ g. decide-loose group_id g user_id status db.memberships) p.1,
        )

pub set_member_status-OneAdmin :
    (subject group_id target : ℕ) (decision : MembershipStatus)
    → Triple HasOneAdmin
        (set_member_status subject group_id target decision)
        (λ m. HasOneAdmin)
        HasOneAdmin
unfolding set_member_status
set_member_status-OneAdmin subject group_id target decision =
    Triple-bind (principal_by_keycloak_id-Reads subject _) λ caller.
      Triple-bind (require_group_role-Reads caller group_id group_admin) λ u. tx-Keeps (
        Triple-bind (decide-Keeps decision group_id target _)
          λ m. Triple-bind (write_audit-Stable steady (anywhere _) _ _ _ _ _) λ u. done-Keeps m)

-- The group lacks an admin between the two updates.
demote-Vacant :
    (group_id : ℕ)
    → Triple HasOneAdmin
        (exec (demote_group_admin group_id))
        (λ u db. Vacant group_id db.groups db.memberships)
        Anywhere
unfolding demote_group_admin
demote-Vacant group_id = Triple-run (demote_group_admin group_id) _ (anywhere _) λ id now db p.
    Replies-found (λ u db. Vacant group_id db.groups db.memberships)
      (find (is_admin_of group_id) db.memberships) (λ m. m.user_id) db _
      λ m found. (
        (
          (λ g. ground (arith, p.0 g, demote-admins group_id g db.memberships)),
          IsTidy-update (is_admin_of group_id) (λ n. record n { role = member }) db.memberships
              (λ n. (refl, refl, refl)) (λ g. demote-loose group_id g db.memberships) p.1,
        ),
        ground (arith, p.0 group_id, found-counts (is_admin_of group_id) db.memberships m found),
      )

promote-Filled :
    (group_id user_id : ℕ)
    → Triple
        (λ db. Vacant group_id db.groups db.memberships)
        (exec (promote_to_group_admin group_id user_id))
        (λ m. HasOneAdmin)
        Anywhere
unfolding promote_to_group_admin
promote-Filled group_id user_id =
    Triple-run (promote_to_group_admin group_id user_id) _ (anywhere _) λ id now db p.
      let hit : MembershipRow → Bool = is_approved_member group_id user_id in
      let f : MembershipRow → MembershipRow = λ m. record m { role = group_admin } in
      Replies-blocked (λ m. HasOneAdmin) (find hit db.memberships) _ f db _
        λ m found. (
          (λ g. ground (
            arith,
            p.0.0 g,
            p.0.0 group_id,
            p.1,
            promote-admins group_id g user_id db.memberships,
            found-counts hit db.memberships m found,
            count_rows-le (is_member group_id user_id) hit (λ n h. ground (arith, h))
                db.memberships,
            p.0.1.1 group_id user_id,
          )),
          IsTidy-update hit f db.memberships (λ n. (refl, refl, refl))
              (λ g. promote-loose group_id g user_id db.memberships) p.0.1,
        )

pub transfer_admin-OneAdmin :
    (subject group_id target : ℕ)
    → Triple HasOneAdmin (transfer_admin subject group_id target) (λ m. HasOneAdmin) HasOneAdmin
unfolding transfer_admin get_membership
transfer_admin-OneAdmin subject group_id target =
    Triple-bind (principal_by_keycloak_id-Reads subject _) λ caller.
      Triple-bind (require_group_role-Reads caller group_id group_admin) λ u.
        Triple-bind (read (get_membership group_id target) _ λ id now db. refl) λ m.
          Triple-bind (unless-Reads _ _) λ u. Triple-bind (if-Reads _ _) λ u. tx-Keeps (
            Triple-bind (demote-Vacant group_id) λ old.
              Triple-bind (promote-Filled group_id target) λ n.
                Triple-bind (write_audit-Stable steady (anywhere _) _ _ _ _ _) λ u. done-Keeps n)
