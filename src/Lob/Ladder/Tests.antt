-- ===== src/Lob/Ladder/Tests.antt =====
-- The levels of a bid side of luv_lob.hpp at three prices.
use fort.Base.{◌-◌, ◌*◌, ℕ, ◌≡◌, ◌≢◌, ◌<◌, none, some, arith}
use fort.Base.Int.{pos}
use fort.Lob.Level.{reset_level}
use fort.Lob.Ladder.{Ladder, price_at, ahead, find_level}
use fort.Lob.Ladder.Order.{IsSorted}
use fort.Lob.Ladder.Search.{find_level_exact}

abbrev bids : Ladder
bids = record { count = 3; level = λ i. record reset_level { price = pos (110 - 5 * i) } }

bids-IsSorted : IsSorted 0 bids
unfolding ahead
bids-IsSorted i j a b = ground arith

find_level_exact_example :
    ((i : ℕ)
      → find_level 0 bids (pos 105) ≡ some i
      → (i < bids.count) × (price_at bids i ≡ pos 105))
    × (find_level 0 bids (pos 105) ≡ none → (i : ℕ) → i < bids.count → price_at bids i ≢ pos 105)
find_level_exact_example = find_level_exact 0 bids (pos 105) bids-IsSorted
