-- ===== src/Tests/Data.antt =====
-- A small database: two members of a trip, who share an expense of the first.
use expense_splitter.Prelude.{ℕ, ◌+◌, leb, false, true, ◌*◌, none, some, [], ◌∷◌}
use expense_splitter.Prelude.Int.{pos}
use expense_splitter.Types.Principal.{verified}
use expense_splitter.Types.Membership.{MembershipRole, group_admin, member, approved}
use expense_splitter.Types.Group.{group_open, group_closed}
use expense_splitter.Types.Expense.{food, equal}
use expense_splitter.Store.{PaymentRow, UserRow, GroupRow, MembershipRow, ExpenseRow, Db}
use expense_splitter.Store.Action.{Env, World}
use expense_splitter.Types.Payment.{PaymentStatus}
use expense_splitter.Services.Close.{CloseResult}
use expense_splitter.Types.Expense.{food}
use expense_splitter.Prelude.Int.{negsuc, pos}

abbrev pub user : ℕ → ℕ → UserRow
user id subject = record {
  id = id;
  keycloak_id = some subject;
  email = "a@example.com";
  is_global_admin = false;
  verification_status = verified;
  verified_by = none;
  created_at = 0;
}

abbrev pub membership : ℕ → ℕ → MembershipRole → MembershipRow
membership id user_id role = record {
  id = id;
  group_id = 1;
  user_id = user_id;
  role = role;
  status = approved;
  created_at = 0;
}

abbrev pub trip : GroupRow
trip = record {
  id = 1;
  name = "trip";
  start_date = 10 * 86400;
  end_date = 20 * 86400;
  status = group_open;
  invite_token = 5;
  status_token = 6;
  expected_member_count = none;
  created_by = 1;
  created_at = 0;
}

abbrev pub dinner : ExpenseRow
dinner = record {
  id = 30;
  group_id = 1;
  paid_by = 21;
  amount_baisa = pos 3001;
  category = food;
  description = "dinner";
  occurred_on = 12;
  split_type = equal;
  deleted = false;
  created_at = 0;
}

abbrev pub start : Db
start = record {
  users = user 1 11 ∷ user 2 12 ∷ [];
  groups = trip ∷ [];
  memberships = membership 21 1 group_admin ∷ membership 22 2 member ∷ [];
  expenses = dinner ∷ [];
  expense_shares = [];
  settlement_runs = [];
  payments = [];
  proofs = [];
  notifications = [];
  audit_log = [];
}

abbrev pub world : World
world = record { db = start; bucket = 0; tick = 0 }

-- No call fails, and the n-th generates the id 100 + n.
abbrev pub calm : Env
calm = record {
  fails = λ n. false;
  fresh = λ n. 100 + n;
  now = 50;
  same_email = λ a b. false;
  bytes_of = λ s. [];
  sha256 = λ bytes. 0;
  detect_content_type = λ bytes. "image/png";
  store_enabled = true;
  put_object = λ key image bucket. some 1;
  get_object = λ key bucket. some [];
  invite_token = 7;
  status_token = 8;
}

-- Every call from the fifth on fails.
abbrev pub stormy : Env
stormy = record {
  fails = λ n. leb 5 n;
  fresh = λ n. 100 + n;
  now = 50;
  same_email = λ a b. false;
  bytes_of = λ s. [];
  sha256 = λ bytes. 0;
  detect_content_type = λ bytes. "image/png";
  store_enabled = true;
  put_object = λ key image bucket. some 1;
  get_object = λ key bucket. some [];
  invite_token = 7;
  status_token = 8;
}

-- The payment of the member to the admin, in a state.
abbrev pub payment_in : PaymentStatus → PaymentRow
payment_in status = record {
  id = 40;
  settlement_run_id = 35;
  group_id = 1;
  from_user_id = 2;
  to_user_id = 1;
  amount_baisa = pos 1500;
  status = status;
  version = 3;
  created_at = 0;
  updated_at = 0;
}

abbrev pub with_payment : PaymentStatus → Db
with_payment status = record start {
  groups = record trip { status = group_closed } ∷ [];
  payments = payment_in status ∷ [];
}

abbrev pub world_with : PaymentStatus → World
world_with status = record { db = with_payment status; bucket = 0; tick = 0 }

abbrev pub dinner_result : CloseResult
dinner_result = record {
  group_id = 1;
  snapshot = record {
    total_spent = pos 3001;
    member_count = 2;
    spend_per_category = (food, pos 3001) ∷ [];
    members =
        record { user_id = 1; paid = pos 3001; fair_share = pos 1501; net = pos 1500 }
        ∷ record { user_id = 2; paid = pos 0; fair_share = pos 1500; net = negsuc 1499 }
        ∷ [];
  };
  plan = record { from = 2; to = 1; amount = pos 1500 } ∷ [];
}
