-- ===== src/Tests/Groups.antt =====
-- Groups and their admins on a small database.
use expense_splitter.Prelude.{arith}
use expense_splitter.Store.{Db}
use expense_splitter.Store.Rows.{exists_row, count_rows}
use expense_splitter.Services.Request.{serve}
use expense_splitter.Services.GroupState.Kept.{idle, served}
use expense_splitter.Tests.Data.{start, world, calm}
use expense_splitter.Services.Admins.{HasOneAdmin}
use expense_splitter.Services.Admins.Kept.{serve-HasOneAdmin}
use expense_splitter.Services.Request.{transfer_request, remove_request}

start-HasOneAdmin : HasOneAdmin start
unfolding count_rows exists_row
start-HasOneAdmin =
    ((λ g. ground arith), ((λ g. ground arith), (λ g u. ground arith), λ id. ground arith))

abbrev after_transfer : Db
after_transfer = (serve 11 (transfer_request 1 2) calm world).1.db

-- The admin hands the role over and leaves the group.
serve-HasOneAdmin_example :
    HasOneAdmin (serve 11 (remove_request 1 1) calm (record world { db = after_transfer })).1.db
serve-HasOneAdmin_example =
    serve-HasOneAdmin
      (served world 11 (transfer_request 1 2) calm
        (served (record world { db = after_transfer }) 11 (remove_request 1 1) calm idle))
      start-HasOneAdmin
