-- ===== src/Itch/Decode/Bounds.antt =====
-- What a message is that decode_itch of luv_decode_itch.hpp returns true for, and what LOBEngine::process of
-- luv_lob.hpp does with it.
use fort.Base.{
  ℕ, ◌/◌, ◌<◌, ◌≡◌, inl, inr, refl, Bool, true, false, not, ◌&&◌, ◌||◌, Option, none, some, arith,
  ltb, leb, ◌==◌, if◌then◌else◌, update, Bool-cases,
}
use fort.Numeric.{is_valid_price, is_valid_quantity}
use fort.Lob.RefMap.{symbols}
use fort.Lob.Engine.{
  process, dispatch, on_add_order, on_order_executed, on_order_cancel, on_order_delete,
  on_order_replace, on_trade,
}
use fort.Lob.Book.{LobEngine, TickMsg, reject}
use fort.Itch.Bytes.{Buffer, be_timestamp48, load_ticker_key}
use fort.Itch.Symbols.{SymbolTable, not_found, table_capacity, hash, lookup, lookup_ticker}
use fort.Itch.Symbols.Probe.{slot_at, lookup_from-Hit, lookup_from-hit}
use fort.Itch.Symbols.Table.{IsTable}
use fort.Itch.Decode.{
  no_tick, day_ns, minimum_length, decode_add_order, decode_order_executed, decode_order_exec_price,
  decode_order_cancel, decode_order_delete, decode_order_replace, decode_trade, decode_cross_trade,
  decode_trading_action, decode_reg_sho, decode_body, decode_itch,
}

-- The types whose messages carry an order reference, a quantity and a price.
abbrev pub has_ref : ℕ → Bool
has_ref k = k == b'A' || k == b'F' || k == b'E' || k == b'C' || k == b'X' || k == b'D' || k == b'U'

abbrev pub has_qty : ℕ → Bool
has_qty k = k == b'A' || k == b'F' || k == b'E' || k == b'C' || k == b'X' || k == b'U' || k == b'P'

abbrev pub has_price : ℕ → Bool
has_price k = k == b'A' || k == b'F' || k == b'C' || k == b'U' || k == b'P' || k == b'Q'

pub record IsTick (m : TickMsg) : Type 0 where
  pub known : m.symbol_idx < symbols
  pub in_day : m.timestamp < day_ns
  pub ref : has_ref m.msg_type ≡ true → (m.order_ref == 0) ≡ false
  pub qty_valid : has_qty m.msg_type ≡ true → is_valid_quantity m.qty ≡ true
  pub price_valid : has_price m.msg_type ≡ true → is_valid_price m.price ≡ true
  pub other_ref :
      (m.msg_type == b'U') ≡ true
      → ((m.match_num == 0) ≡ false) × ((m.order_ref == m.match_num) ≡ false)

hash_small : (key : ℕ) → hash key < table_capacity
unfolding hash
hash_small key = omega arith

-- What a well-formed table finds is the index of a symbol.
pub lookup-lt :
    (t : SymbolTable) (key : ℕ)
    → IsTable t
    → (lookup t key == not_found) ≡ false
    → lookup t key < symbols
unfolding lookup
lookup-lt t key v found =
    let w =
      lookup_from-Hit t key (table_capacity / 2) (hash key) (hash_small key)
        (λ e. ground (arith, found, e)) in
    let e =
      lookup_from-hit t key (table_capacity / 2) w.distance (hash key) (hash_small key) w.near
        w.before w.there w.same in
    rw e (v.in_range (slot_at (hash key) w.distance) (omega arith) w.there)

lookup_ticker-lt :
    (t : SymbolTable) (raw : Buffer) (i : ℕ)
    → IsTable t
    → (lookup_ticker t (some raw) i == not_found) ≡ false
    → lookup_ticker t (some raw) i < symbols
unfolding lookup_ticker
lookup_ticker-lt t raw i v found = lookup-lt t (load_ticker_key raw i) v found

module _ (raw : Buffer) (t : SymbolTable) (out : TickMsg) (v : IsTable t)
    (type : out.msg_type ≡ raw 0) (time : out.timestamp < day_ns) where
  decode_add_order-IsTick :
      (raw 0 == b'A' || raw 0 == b'F') ≡ true
      → (decode_add_order raw t out).0 ≡ true
      → IsTick (decode_add_order raw t out).1
  unfolding decode_add_order
  decode_add_order-IsTick k ok = ground (arith, k, ok, type, time, lookup_ticker-lt t raw 24 v)

  decode_order_executed-IsTick :
      (raw 0 == b'E') ≡ true
      → (decode_order_executed raw t out).0 ≡ true
      → IsTick (decode_order_executed raw t out).1
  unfolding decode_order_executed
  decode_order_executed-IsTick k ok = ground (arith, k, ok, type, time)

  decode_order_exec_price-IsTick :
      (raw 0 == b'C') ≡ true
      → (decode_order_exec_price raw t out).0 ≡ true
      → IsTick (decode_order_exec_price raw t out).1
  unfolding decode_order_exec_price
  decode_order_exec_price-IsTick k ok = ground (arith, k, ok, type, time)

  decode_order_cancel-IsTick :
      (raw 0 == b'X') ≡ true
      → (decode_order_cancel raw t out).0 ≡ true
      → IsTick (decode_order_cancel raw t out).1
  unfolding decode_order_cancel
  decode_order_cancel-IsTick k ok = ground (arith, k, ok, type, time)

  decode_order_delete-IsTick :
      (raw 0 == b'D') ≡ true
      → (decode_order_delete raw t out).0 ≡ true
      → IsTick (decode_order_delete raw t out).1
  unfolding decode_order_delete
  decode_order_delete-IsTick k ok = ground (arith, k, ok, type, time)

  decode_order_replace-IsTick :
      (raw 0 == b'U') ≡ true
      → (decode_order_replace raw t out).0 ≡ true
      → IsTick (decode_order_replace raw t out).1
  unfolding decode_order_replace
  decode_order_replace-IsTick k ok = ground (arith, k, ok, type, time)

  decode_trade-IsTick :
      (raw 0 == b'P') ≡ true → (decode_trade raw t out).0 ≡ true → IsTick (decode_trade raw t out).1
  unfolding decode_trade
  decode_trade-IsTick k ok = ground (arith, k, ok, type, time, lookup_ticker-lt t raw 24 v)

  decode_cross_trade-IsTick :
      (raw 0 == b'Q') ≡ true
      → (decode_cross_trade raw t out).0 ≡ true
      → IsTick (decode_cross_trade raw t out).1
  unfolding decode_cross_trade
  decode_cross_trade-IsTick k ok = ground (arith, k, ok, type, time, lookup_ticker-lt t raw 19 v)

  decode_trading_action-IsTick :
      (raw 0 == b'H') ≡ true
      → (decode_trading_action raw t out).0 ≡ true
      → IsTick (decode_trading_action raw t out).1
  unfolding decode_trading_action
  decode_trading_action-IsTick k ok = ground (arith, k, ok, type, time, lookup_ticker-lt t raw 11 v)

  decode_reg_sho-IsTick :
      (raw 0 == b'Y') ≡ true
      → (decode_reg_sho raw t out).0 ≡ true
      → IsTick (decode_reg_sho raw t out).1
  unfolding decode_reg_sho
  decode_reg_sho-IsTick k ok = ground (arith, k, ok, type, time, lookup_ticker-lt t raw 11 v)

  decode_body-IsTick : (decode_body raw t out).0 ≡ true → IsTick (decode_body raw t out).1
  unfolding decode_body
  decode_body-IsTick ok = ground (
    arith, ok, decode_add_order-IsTick, decode_order_executed-IsTick,
    decode_order_exec_price-IsTick, decode_order_cancel-IsTick, decode_order_delete-IsTick,
    decode_order_replace-IsTick, decode_trade-IsTick, decode_cross_trade-IsTick,
    decode_trading_action-IsTick, decode_reg_sho-IsTick,
  )

pub decode_itch-IsTick :
    (raw : Option Buffer) (len : ℕ) (t : SymbolTable) (out : TickMsg)
    → IsTable t
    → (decode_itch raw len t out).0 ≡ true
    → IsTick (decode_itch raw len t out).1
unfolding decode_itch
decode_itch-IsTick none len t out v ok = cc
decode_itch-IsTick (some raw) len t out v ok =
    let ts = be_timestamp48 raw 5 in
    let start = record no_tick { msg_type = raw 0; timestamp = ts } in
    elim (Bool-cases (
      ltb len 11
      || (not (minimum_length (raw 0) == 0) && ltb len (minimum_length (raw 0)))
      || leb day_ns ts)) [
        | inl bad ↦ cc (rw bad at ok)
        | inr good ↦
            let in_day : ts < day_ns = ground (arith, good) in
            let w = decode_body-IsTick raw t start v refl in_day (rw good at ok) in rw good w
      ]

-- The handler of a message, with no check.
pub handle : LobEngine → TickMsg → LobEngine
handle e m =
    if m.msg_type == b'A' || m.msg_type == b'F'
    then on_add_order e m
    else if m.msg_type == b'E' || m.msg_type == b'C'
    then on_order_executed e m
    else if m.msg_type == b'X'
    then on_order_cancel e m
    else if m.msg_type == b'D'
    then on_order_delete e m
    else if m.msg_type == b'U'
    then on_order_replace e m
    else if m.msg_type == b'P'
    then on_trade e m
    else reject e

abbrev pub seen : LobEngine → TickMsg → LobEngine
seen e m =
    if ltb 0 m.timestamp
    then record e { last_timestamp = update e.last_timestamp m.symbol_idx m.timestamp }
    else e

dispatch-handle : (e : LobEngine) (m : TickMsg) → IsTick m → dispatch e m ≡ handle e m
unfolding dispatch handle
dispatch-handle e m v = ground (arith, v.ref, v.qty_valid, v.price_valid, v.other_ref)

-- No check of `process` stops a decoded message: the engine stamps its symbol and calls the handler of its
-- type; the types that have none (cross trades, trading actions, Reg SHO) count as rejected.
pub process-decode_itch :
    (e : LobEngine) (raw : Option Buffer) (len : ℕ) (t : SymbolTable) (out : TickMsg)
    → IsTable t
    → (decode_itch raw len t out).0 ≡ true
    → let m = (decode_itch raw len t out).1 in process e m ≡ handle (seen e m) m
unfolding process
process-decode_itch e raw len t out v ok =
    let w = decode_itch-IsTick raw len t out v ok in
    let m = (decode_itch raw len t out).1 in
    let known : leb symbols m.symbol_idx ≡ false = ground (arith, w.known) in
    rw known (dispatch-handle (seen e m) m w)
