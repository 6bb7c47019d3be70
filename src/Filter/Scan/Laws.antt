-- ===== src/Filter/Scan/Laws.antt =====
-- Where the scanning loops stop.
use scim_server.Common.{ℕ, zero, suc, ◌+◌, ◌<◌, ◌≡◌, some, [], ◌∷◌, arith, length}
use scim_server.Text.{Text}
use scim_server.Filter.Scan.{Scan, step, find_keyword}

-- A keyword is found with something behind it.
pub find_keyword-lt-length :
    (keyword : Text) (st : Scan) (s : Text) (i : ℕ)
    → find_keyword keyword st s ≡ some i
    → i + length keyword < length s
unfolding find_keyword
find_keyword-lt-length keyword st [] i h = cc
find_keyword-lt-length keyword st (c ∷ s) zero h = ground arith
find_keyword-lt-length keyword st (c ∷ s) (suc i) h =
    ground (arith, find_keyword-lt-length keyword (step st c) s i)
