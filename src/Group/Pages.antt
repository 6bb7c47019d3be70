-- ===== src/Group/Pages.antt =====
-- The pages of a listing, src/backend/database/sqlite/group_read_impl.rs: `find_all_groups`, whose
-- bounds the other listings share.
use scim_server.Common.{
  ℕ, Option, none, some, List, ℤ, down, take, drop, length, if◌then◌else◌, leb, map,
}
use scim_server.Error.{AppResult, ok, ◌>>=◌}
use scim_server.Group.{Group, GroupServices}
use scim_server.Group.Store.{GroupRow, Tables}
use scim_server.Group.Read.{fetch_each}

abbrev pub max_zero : ℤ → ℕ
max_zero (ℤ.pos n) = n
max_zero (ℤ.negsuc n) = 0

abbrev pub unwrap_or : ℤ → Option ℤ → ℤ
unwrap_or d none = d
unwrap_or d (some n) = n

-- `start_index.unwrap_or(1).saturating_sub(1).max(0)`; where the subtraction saturates, the maximum
-- is zero.
unfoldable pub offset : Option ℤ → ℕ
offset start_index = max_zero (down (unwrap_or (ℤ.pos 1) start_index))

abbrev pub min_thousand : ℤ → ℤ
min_thousand (ℤ.pos n) = if leb n 1000 then ℤ.pos n else ℤ.pos 1000
min_thousand (ℤ.negsuc n) = ℤ.negsuc n

-- `count.unwrap_or(100).min(1000)`
unfoldable pub limit : Option ℤ → ℤ
limit count = min_thousand (unwrap_or (ℤ.pos 100) count)

-- `LIMIT`: all rows where it is negative
unfoldable pub limited {ℓ} : {A : Type ℓ} → ℤ → List A → List A
limited (ℤ.pos n) xs = take n xs
limited (ℤ.negsuc n) xs = xs

-- `LIMIT … OFFSET …`
unfoldable pub page {ℓ} : {A : Type ℓ} → Option ℤ → Option ℤ → List A → List A
unfolding offset limit limited
page start_index count xs = limited (limit count) (drop (offset start_index) xs)

-- The groups of the page, and how many there are in all.
unfoldable pub find_all_groups :
    GroupServices → ℕ → Tables → Option ℤ → Option ℤ → AppResult (List Group × ℕ)
unfolding page
find_all_groups services tenant_id t start_index count =
    fetch_each services tenant_id t
      (map (λ (row : GroupRow). row.id) (page start_index count t.groups))
    >>= λ groups. ok (groups, length t.groups)
