-- ===== src/Types/Membership.antt =====
-- types/membership.go.
use expense_splitter.Prelude.{Bool, true, false}

pub data MembershipRole : Type 0 where
  group_admin member : MembershipRole

pub data MembershipStatus : Type 0 where
  requested approved rejected : MembershipStatus

pub record Membership : Type 0 where
  pub role : MembershipRole
  pub status : MembershipStatus

abbrev pub is_group_admin_role : MembershipRole → Bool
is_group_admin_role group_admin = true
is_group_admin_role member = false

abbrev pub is_approved : MembershipStatus → Bool
is_approved approved = true
is_approved _ = false

abbrev pub is_requested : MembershipStatus → Bool
is_requested requested = true
is_requested _ = false

-- `Membership.Active`
abbrev pub active : Membership → Bool
active m = is_approved m.status

-- `Membership.Satisfies`
abbrev pub satisfies : Membership → MembershipRole → Bool
satisfies m group_admin = is_group_admin_role m.role
satisfies m member = true
