-- ===== src/Types/Group.antt =====
-- types/group.go: the states of a group.
use expense_splitter.Prelude.{Bool, true, false}

pub data GroupStatus : Type 0 where
  group_open group_closed group_settled : GroupStatus

abbrev pub is_open : GroupStatus → Bool
is_open group_open = true
is_open _ = false

abbrev pub is_closed : GroupStatus → Bool
is_closed group_closed = true
is_closed _ = false
