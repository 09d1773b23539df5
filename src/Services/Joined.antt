-- ===== src/Services/Joined.antt =====
-- The lines of a summary beside the balances of a close.
use Prim.Native.String.{String}
use expense_splitter.Prelude.{◌≡◌, refl, ap, List, [], ◌∷◌, map}
use expense_splitter.Prelude.Int.{ℤ}
use expense_splitter.Prelude.Dict.{Dict}
use expense_splitter.Settlement.Plan.{MemberBalance}
use expense_splitter.Store.{MembershipRow}
use expense_splitter.Services.Close.{balance_of, balances}
use expense_splitter.Services.Summary.{MemberSummary, summary_of}

-- A summary's line without the email.
abbrev pub as_balance : MemberSummary → MemberBalance
as_balance s = record { user_id = s.user_id; paid = s.paid; fair_share = s.fair_share; net = s.net }

pub balances-summary :
    (paid fair : Dict ℤ) (named : List (MembershipRow × String))
    → map as_balance (map (summary_of paid fair) named) ≡ balances paid fair (map (λ x. x.0) named)
balances-summary paid fair [] = refl
balances-summary paid fair ((m, email) ∷ named) =
    ap (λ bs. balance_of paid fair m ∷ bs) (balances-summary paid fair named)

pub user_ids :
    (named : List (MembershipRow × String))
    → map (λ m. m.0.user_id) named ≡ map (λ m. m.user_id) (map (λ x. x.0) named)
user_ids [] = refl
user_ids ((m, email) ∷ named) = ap (λ ids. m.user_id ∷ ids) (user_ids named)
