-- ===== src/Pagination/Tests.antt =====
-- Runs of ApplyPagination, and its theorems at concrete pages.
use netweave.Common.{ℕ, ◌≡◌, refl, some, List, [], ◌∷◌, pos, wrap64}
use netweave.Pagination.{slice, page_end, apply_pagination}

abbrev items : List ℕ
items = 1 ∷ 2 ∷ 3 ∷ 4 ∷ 5 ∷ []

second_page : apply_pagination items (pos 2) (pos 2) ≡ some (3 ∷ 4 ∷ [])
unfolding apply_pagination page_end slice wrap64
second_page = refl
