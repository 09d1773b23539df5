-- ===== src/Services/Admins/Rows.antt =====
-- What the queries of services/memberships.go, groups.go and admin.go do to the counts of the group
-- admins and of the memberships.
use expense_splitter.Prelude.{
  ℕ, ◌≡◌, ◌≤◌, refl, Bool, true, false, not, ◌&&◌, some, List, [], ◌∷◌, ◌++◌, ◌==◌, if◌then◌else◌,
  arith,
}
use expense_splitter.Types.Membership.{
  MembershipStatus, group_admin, member, is_approved, is_requested,
}
use expense_splitter.Store.{MembershipRow}
use expense_splitter.Store.Rows.{find, exists_row, count_rows, where_rows, update_rows}
use expense_splitter.Store.Memberships.{is_member, is_admin_of}

module _ {ℓ} {A : Type ℓ} where
  pub exists_row-none :
      (weak strong : A → Bool)
      → ((x : A) → strong x ≡ true → weak x ≡ true)
      → (xs : List A) → exists_row weak xs ≡ false
      → exists_row strong xs ≡ false
  unfolding exists_row
  exists_row-none weak strong h [] none_there = refl
  exists_row-none weak strong h (x ∷ xs) none_there =
      ground (arith, exists_row-none weak strong h xs, h x)

  -- The deletion of the rows with a key.
  pub exists_row-where :
      (test keep : A → Bool)
      → ((x : A) → test x ≡ true → keep x ≡ true)
      → (xs : List A) → exists_row test (where_rows keep xs) ≡ exists_row test xs
  unfolding exists_row where_rows
  exists_row-where test keep h [] = refl
  exists_row-where test keep h (x ∷ xs) = ground (arith, exists_row-where test keep h xs, h x)

  pub exists_row-gone :
      (test keep : A → Bool)
      → ((x : A) → test x ≡ true → keep x ≡ false)
      → (xs : List A) → exists_row test (where_rows keep xs) ≡ false
  unfolding exists_row where_rows
  exists_row-gone test keep h [] = refl
  exists_row-gone test keep h (x ∷ xs) = ground (arith, exists_row-gone test keep h xs, h x)

  pub exists_row-append :
      (test : A → Bool) (xs : List A) (x : A)
      → exists_row test (xs ++ (x ∷ [])) ≡ (if test x then true else exists_row test xs)
  unfolding exists_row
  exists_row-append test [] x = ground arith
  exists_row-append test (y ∷ xs) x = ground (arith, exists_row-append test xs x)

  -- An update that no test of the row sees.
  pub exists_row-update :
      (test hit : A → Bool) (f : A → A)
      → ((x : A) → test (f x) ≡ test x)
      → (xs : List A) → exists_row test (update_rows hit f xs) ≡ exists_row test xs
  unfolding exists_row update_rows
  exists_row-update test hit f same [] = refl
  exists_row-update test hit f same (x ∷ xs) =
      ground (arith, exists_row-update test hit f same xs, same x)

  pub count_rows-same :
      (test hit : A → Bool) (f : A → A)
      → ((x : A) → test (f x) ≡ test x)
      → (xs : List A) → count_rows test (update_rows hit f xs) ≡ count_rows test xs
  unfolding count_rows update_rows
  count_rows-same test hit f same [] = refl
  count_rows-same test hit f same (x ∷ xs) =
      ground (arith, count_rows-same test hit f same xs, same x)

  pub count_rows-le :
      (weak strong : A → Bool)
      → ((x : A) → strong x ≡ true → weak x ≡ true)
      → (xs : List A) → count_rows strong xs ≤ count_rows weak xs
  unfolding count_rows
  count_rows-le weak strong h [] = ground arith
  count_rows-le weak strong h (x ∷ xs) = ground (arith, count_rows-le weak strong h xs, h x)

  pub found-counts :
      (test : A → Bool) (xs : List A) (x : A) → find test xs ≡ some x → 1 ≤ count_rows test xs
  unfolding find count_rows
  found-counts test [] x h = ground arith
  found-counts test (y ∷ xs) x h = ground (arith, found-counts test xs x)

  pub counted-exists :
      (test : A → Bool) (xs : List A) → count_rows test xs ≡ 0 → exists_row test xs ≡ false
  unfolding exists_row count_rows
  counted-exists test [] h = refl
  counted-exists test (x ∷ xs) h = ground (arith, counted-exists test xs)

  pub count_rows-where_le :
      (test keep : A → Bool) (xs : List A)
      → count_rows test (where_rows keep xs) ≤ count_rows test xs
  unfolding count_rows where_rows
  count_rows-where_le test keep [] = ground arith
  count_rows-where_le test keep (x ∷ xs) = ground (arith, count_rows-where_le test keep xs)

  -- The rows that go are not counted.
  pub count_rows-where :
      (test keep : A → Bool) (xs : List A)
      → count_rows (λ x. test x && not (keep x)) xs ≡ 0
      → count_rows test (where_rows keep xs) ≡ count_rows test xs
  unfolding count_rows where_rows
  count_rows-where test keep [] h = refl
  count_rows-where test keep (x ∷ xs) h = ground (arith, count_rows-where test keep xs)

  -- None of the counted rows is kept.
  pub count_rows-gone :
      (test keep : A → Bool)
      → ((x : A) → test x ≡ true → keep x ≡ false)
      → (xs : List A) → count_rows test (where_rows keep xs) ≡ 0
  unfolding count_rows where_rows
  count_rows-gone test keep h [] = refl
  count_rows-gone test keep h (x ∷ xs) = ground (arith, count_rows-gone test keep h xs, h x)

  pub count_rows-none :
      (test : A → Bool) → ((x : A) → test x ≡ false) → (xs : List A) → count_rows test xs ≡ 0
  unfolding count_rows
  count_rows-none test h [] = refl
  count_rows-none test h (x ∷ xs) = ground (arith, count_rows-none test h xs, h x)

found-id :
    (test : MembershipRow → Bool) (ms : List MembershipRow) (m : MembershipRow)
    → find test ms ≡ some m
    → 1 ≤ count_rows (λ n. n.id == m.id) ms
unfolding find count_rows
found-id test [] m h = ground arith
found-id test (n ∷ ms) m h = ground (arith, found-id test ms m)

-- The one row with an id is the one that was found.
pub count-found :
    (test f : MembershipRow → Bool) (ms : List MembershipRow) (m : MembershipRow)
    → find test ms ≡ some m
    → f m ≡ false
    → count_rows (λ n. n.id == m.id) ms ≤ 1
    → count_rows (λ n. f n && (n.id == m.id)) ms ≡ 0
unfolding find count_rows
count-found test f [] m h g u = refl
count-found test f (n ∷ ms) m h g u = ground (
  arith,
  count-found test f ms m,
  found-id test ms m,
  count_rows-le (λ x. x.id == m.id) (λ x. f x && (x.id == m.id)) (λ x k. ground (arith, k)) ms,
)

module _ (group_id : ℕ) where
  -- The decision on a request makes no admin, and none that is not approved.
  pub decide-loose :
      (g user_id : ℕ) (status : MembershipStatus) (ms : List MembershipRow)
      → count_rows
          (λ m. is_admin_of g m && not (is_approved m.status))
          (update_rows
            (λ m. is_member group_id user_id m && is_requested m.status)
            (λ m. record m { status = status })
            ms)
        ≤ count_rows (λ m. is_admin_of g m && not (is_approved m.status)) ms
  unfolding count_rows update_rows
  decide-loose g user_id status [] = ground arith
  decide-loose g user_id status (m ∷ ms) = ground (arith, decide-loose g user_id status ms)

  pub demote-admins :
      (g : ℕ) (ms : List MembershipRow)
      → count_rows
          (is_admin_of g)
          (update_rows (is_admin_of group_id) (λ m. record m { role = member }) ms)
        ≡ (if g == group_id then 0 else count_rows (is_admin_of g) ms)
  unfolding count_rows update_rows
  demote-admins g [] = ground arith
  demote-admins g (m ∷ ms) = ground (arith, demote-admins g ms)

  pub demote-loose :
      (g : ℕ) (ms : List MembershipRow)
      → count_rows
          (λ m. is_admin_of g m && not (is_approved m.status))
          (update_rows (is_admin_of group_id) (λ m. record m { role = member }) ms)
        ≤ count_rows (λ m. is_admin_of g m && not (is_approved m.status)) ms
  unfolding count_rows update_rows
  demote-loose g [] = ground arith
  demote-loose g (m ∷ ms) = ground (arith, demote-loose g ms)

  abbrev pub is_approved_member : ℕ → MembershipRow → Bool
  is_approved_member user_id m = is_member group_id user_id m && is_approved m.status

  pub promote-admins :
      (g user_id : ℕ) (ms : List MembershipRow)
      → count_rows (is_admin_of group_id) ms ≡ 0
      → count_rows
          (is_admin_of g)
          (update_rows (is_approved_member user_id) (λ m. record m { role = group_admin }) ms)
        ≡ (if g == group_id
            then count_rows (is_approved_member user_id) ms
            else count_rows (is_admin_of g) ms)
  unfolding count_rows update_rows
  promote-admins g user_id [] h = ground arith
  promote-admins g user_id (m ∷ ms) h = ground (arith, promote-admins g user_id ms)

  pub promote-loose :
      (g user_id : ℕ) (ms : List MembershipRow)
      → count_rows
          (λ m. is_admin_of g m && not (is_approved m.status))
          (update_rows (is_approved_member user_id) (λ m. record m { role = group_admin }) ms)
        ≤ count_rows (λ m. is_admin_of g m && not (is_approved m.status)) ms
  unfolding count_rows update_rows
  promote-loose g user_id [] = ground arith
  promote-loose g user_id (m ∷ ms) = ground (arith, promote-loose g user_id ms)
