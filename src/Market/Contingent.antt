-- ===== src/Market/Contingent.antt =====
-- ContingentOrderManager of luv_contingent_orders.hpp. The orders are a function on the slots, of which the
-- first `order_count` are in use; the loop over the prices changes each of them by itself. Sums of prices
-- wrap as uint64_t.
pub mod Exclusive
pub mod Fill
pub mod Reach
pub mod Tests
use fort.Base.{
  ℕ, zero, suc, ◌+◌, ◌-◌, ◌%◌, ◌^◌, Bool, true, false, not, ◌&&◌, ◌||◌, Option, none, some, ltb,
  leb, ◌==◌, if◌then◌else◌, update,
}

pub data ContingencyType : Type 0 where
  oco oto trailing_stop : ContingencyType

pub data ContingentState : Type 0 where
  inactive active triggered cancelled filled : ContingentState

pub record ContingentOrder : Type 0 where
  pub order_id : ℕ
  pub parent_id : ℕ
  pub pair_order_id : ℕ
  pub is_buy : Bool
  pub limit_price : ℕ
  pub stop_price : ℕ
  pub trailing_delta : ℕ
  pub peak_price : ℕ
  pub quantity : ℕ
  pub type : ContingencyType
  pub state : ContingentState

pub record ContingentOrderManager : Type 0 where
  pub orders : ℕ → ContingentOrder
  pub order_count : ℕ

abbrev pub max_orders : ℕ
max_orders = 128

abbrev pub no_contingent_order : ContingentOrder
no_contingent_order = record {
  order_id = 0;
  parent_id = 0;
  pair_order_id = 0;
  is_buy = true;
  limit_price = 0;
  stop_price = 0;
  trailing_delta = 0;
  peak_price = 0;
  quantity = 0;
  type = oco;
  state = inactive;
}

abbrev pub contingent_order_manager : ContingentOrderManager
contingent_order_manager = record { orders = λ i. no_contingent_order; order_count = 0 }

abbrev pub is_active : ContingentState → Bool
is_active active = true
is_active inactive = false
is_active triggered = false
is_active cancelled = false
is_active filled = false

abbrev pub is_oco : ContingencyType → Bool
is_oco oco = true
is_oco oto = false
is_oco trailing_stop = false

-- The two orders of a pair, over the slots that they take.
abbrev pub oco_limit : ContingentOrder → ℕ → ℕ → ℕ → Bool → ℕ → ContingentOrder
oco_limit o id pair limit_price is_buy qty = record o {
  order_id = id;
  pair_order_id = pair;
  is_buy = is_buy;
  limit_price = limit_price;
  quantity = qty;
  type = oco;
  state = active;
}

abbrev pub oco_stop : ContingentOrder → ℕ → ℕ → ℕ → Bool → ℕ → ContingentOrder
oco_stop o id pair stop_price is_buy qty = record o {
  order_id = id;
  pair_order_id = pair;
  is_buy = is_buy;
  stop_price = stop_price;
  quantity = qty;
  type = oco;
  state = active;
}

unfoldable pub add_oco_pair :
    ContingentOrderManager → ℕ → ℕ → ℕ → ℕ → Bool → ℕ → Bool × ContingentOrderManager
add_oco_pair m a_id limit_price b_id stop_price is_buy qty =
    let n = m.order_count in
    let a = oco_limit (m.orders n) a_id b_id limit_price is_buy qty in
    let b = oco_stop (m.orders (n + 1)) b_id a_id stop_price is_buy qty in
    if ltb max_orders (n + 2)
    then (false, m)
    else (true, record { orders = update (update m.orders n a) (n + 1) b; order_count = n + 2 })

unfoldable pub add_trailing_stop :
    ContingentOrderManager → ℕ → Bool → ℕ → ℕ → ℕ → Bool × ContingentOrderManager
add_trailing_stop m order_id is_buy initial_price trailing_delta qty =
    let n = m.order_count in
    if leb max_orders n then (false, m) else (
      true,
      record {
        orders = update m.orders n (record (m.orders n) {
          order_id = order_id;
          is_buy = is_buy;
          trailing_delta = trailing_delta;
          peak_price = initial_price;
          quantity = qty;
          type = trailing_stop;
          state = active;
          stop_price =
              if is_buy
              then (initial_price + trailing_delta) % 2 ^ 64
              else initial_price - trailing_delta;
        });
        order_count = n + 1;
      },
    )

-- A price for an active trailing stop.
unfoldable pub trail : ℕ → ContingentOrder → ContingentOrder
trail price o =
    if not o.is_buy
    then (if ltb o.peak_price price
        then record o { peak_price = price; stop_price = price - o.trailing_delta }
        else if leb price o.stop_price && ltb 0 o.stop_price
        then record o { state = triggered }
        else o)
    else if ltb price o.peak_price
    then record o { peak_price = price; stop_price = (price + o.trailing_delta) % 2 ^ 64 }
    else if leb o.stop_price price
    then record o { state = triggered }
    else o

-- The body of the loop of `on_market_price`.
unfoldable pub price_order : ℕ → ContingentOrder → ContingentOrder
unfolding trail
price_order price o =
    if not (is_active o.state)
    then o
    else elim o.type [ trailing_stop ↦ trail price o | oco ↦ o | oto ↦ o ]

unfoldable pub on_market_price : ContingentOrderManager → ℕ → ContingentOrderManager
on_market_price m price = record m {
  orders = λ i. if ltb i m.order_count then price_order price (m.orders i) else m.orders i;
}

-- The scan of `cancel_order`, from slot `i` on.
unfoldable pub find_active : ℕ → ℕ → (ℕ → ContingentOrder) → ℕ → Option ℕ
find_active zero i orders id = none
find_active (suc n) i orders id =
    let rest = find_active n (i + 1) orders id in
    if (orders i).order_id == id && is_active (orders i).state then some i else rest

-- The scan of `on_order_fill` and of `get_order`.
unfoldable pub find_id : ℕ → ℕ → (ℕ → ContingentOrder) → ℕ → Option ℕ
find_id zero i orders id = none
find_id (suc n) i orders id =
    let rest = find_id n (i + 1) orders id in if (orders i).order_id == id then some i else rest

abbrev pub set_state : ContingentOrderManager → ℕ → ContingentState → ContingentOrderManager
set_state m i state = record m {
  orders = update m.orders i (record (m.orders i) { state = state });
}

unfoldable pub cancel_order : ContingentOrderManager → ℕ → ContingentOrderManager
cancel_order m id = elim (find_active m.order_count 0 m.orders id) [
  | none ↦ m
  | some i ↦ set_state m i cancelled
]

unfoldable pub on_order_fill : ContingentOrderManager → ℕ → ContingentOrderManager
unfolding cancel_order
on_order_fill m id = elim (find_id m.order_count 0 m.orders id) [
  | none ↦ m
  | some i ↦
      let m' = set_state m i filled in
      let pair_id = (m.orders i).pair_order_id in
      if is_oco (m.orders i).type && ltb 0 pair_id then cancel_order m' pair_id else m'
]

pub get_order : ContingentOrderManager → ℕ → Option ContingentOrder
get_order m id = elim (find_id m.order_count 0 m.orders id) [
  | none ↦ none
  | some i ↦ some (m.orders i)
]
