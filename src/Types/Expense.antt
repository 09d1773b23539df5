-- ===== src/Types/Expense.antt =====
-- types/expense.go: categories, splits and the request that records an expense. A date is the
-- number of a day, and an id a natural number.
use Prim.Native.String.{String}
use expense_splitter.Prelude.{ℕ, Bool, true, false, List, [], ◌∷◌, if◌then◌else◌}
use expense_splitter.Prelude.Int.{ℤ, pos, ltb_ℤ}

pub data ExpenseCategory : Type 0 where
  lodging fuel food transport other : ExpenseCategory

pub data SplitType : Type 0 where
  equal subset weighted : SplitType

pub record ShareInput : Type 0 where
  pub user_id : ℕ
  pub weight : ℤ

pub record RecordExpenseRequest : Type 0 where
  pub amount_baisa : ℤ
  pub category : ExpenseCategory
  pub description : String
  pub occurred_on : ℕ
  pub shares : List ShareInput

-- The loop of `SplitType` over the shares.
unfoldable pub any_heavy : List ShareInput → SplitType
any_heavy [] = subset
any_heavy (s ∷ shares) = if ltb_ℤ (pos 1) s.weight then weighted else any_heavy shares

-- `RecordExpenseRequest.SplitType`
unfoldable pub split_type : RecordExpenseRequest → SplitType
split_type r = elim r.shares [ [] ↦ equal | _ ↦ any_heavy r.shares ]

-- `len(req.Shares) > 0`
abbrev pub has_shares : RecordExpenseRequest → Bool
has_shares r = elim r.shares [ [] ↦ false | _ ↦ true ]
