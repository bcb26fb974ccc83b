-- ===== src/Itch/Decode.antt =====
-- decode_itch of luv_decode_itch.hpp: one function for each case of the switch. `out` is written through a
-- reference, also where the decoder returns false, so each returns it. Log lines are not modelled.
pub mod Bounds
use fort.Base.{
  ℕ, ◌+◌, ◌^◌, Bool, true, false, not, ◌&&◌, ◌||◌, Option, none, some, ltb, leb, ◌==◌,
  if◌then◌else◌,
}
use fort.Base.Int.{ℤ, pos}
use fort.Numeric.{is_valid_price, is_valid_quantity}
use fort.Lob.RefMap.{symbols}
use fort.Lob.Book.{TickMsg}
use fort.Itch.Bytes.{Buffer, be16, be32, be64, be_timestamp48, load_ticker_key}
use fort.Itch.Symbols.{SymbolTable, not_found, lookup_ticker}

abbrev pub no_tick : TickMsg
no_tick = record {
  msg_type = 0;
  flags = 0;
  symbol_idx = 0;
  timestamp = 0;
  price = pos 0;
  qty = pos 0;
  order_ref = 0;
  match_num = 0;
}

-- tick_flags
abbrev pub buy_flag : ℕ
buy_flag = 1

abbrev pub printable : ℕ
printable = 2

abbrev pub cross : ℕ
cross = 4

abbrev pub halted : ℕ
halted = 8

abbrev pub short_sale_restricted : ℕ
short_sale_restricted = 16

abbrev pub day_ns : ℕ
day_ns = 86_400_000_000_000

-- itch::minimum_length; 0 for a type that is not handled.
abbrev pub minimum_length : ℕ → ℕ
minimum_length type =
    if type == b'A'
    then 36
    else if type == b'F'
    then 40
    else if type == b'E'
    then 31
    else if type == b'C'
    then 36
    else if type == b'X'
    then 23
    else if type == b'D'
    then 19
    else if type == b'U'
    then 35
    else if type == b'P'
    then 44
    else if type == b'Q'
    then 40
    else if type == b'H'
    then 25
    else if type == b'Y'
    then 20
    else 0

abbrev no_side : Buffer → Bool
no_side raw = not (raw 19 == b'B') && not (raw 19 == b'S')

abbrev bad_qty : ℕ → Bool
bad_qty n = not (is_valid_quantity (pos n))

abbrev bad_price : ℕ → Bool
bad_price n = not (is_valid_price (pos n))

module _ (raw : Buffer) (t : SymbolTable) (out : TickMsg) where
  -- 'A' and 'F'
  unfoldable pub decode_add_order : Bool × TickMsg
  decode_add_order =
      let sym_idx = lookup_ticker t (some raw) 24 in
      if sym_idx == not_found
        || be64 raw 11 == 0
        || bad_qty (be32 raw 20)
        || bad_price (be32 raw 32)
        || no_side raw
      then (false, out)
      else (
        true,
        record out {
          symbol_idx = sym_idx;
          order_ref = be64 raw 11;
          qty = pos (be32 raw 20);
          price = pos (be32 raw 32);
          flags = if raw 19 == b'B' then buy_flag else 0;
        },
      )

  -- 'E'
  unfoldable pub decode_order_executed : Bool × TickMsg
  decode_order_executed =
      let out' = record out { symbol_idx = be16 raw 1 } in
      if leb symbols (be16 raw 1) || be64 raw 11 == 0 || bad_qty (be32 raw 19)
      then (false, out')
      else (
        true,
        record out' {
          order_ref = be64 raw 11;
          qty = pos (be32 raw 19);
          match_num = be64 raw 23;
          flags = printable;
        },
      )

  -- 'C'
  unfoldable pub decode_order_exec_price : Bool × TickMsg
  decode_order_exec_price =
      let out' = record out { symbol_idx = be16 raw 1 } in
      if leb symbols (be16 raw 1)
        || be64 raw 11 == 0
        || bad_qty (be32 raw 19)
        || bad_price (be32 raw 32)
        || (not (raw 31 == b'Y') && not (raw 31 == b'N'))
      then (false, out')
      else (
        true,
        record out' {
          order_ref = be64 raw 11;
          qty = pos (be32 raw 19);
          match_num = be64 raw 23;
          price = pos (be32 raw 32);
          flags = if raw 31 == b'Y' then printable else 0;
        },
      )

  -- 'X'
  unfoldable pub decode_order_cancel : Bool × TickMsg
  decode_order_cancel =
      let out' = record out { symbol_idx = be16 raw 1 } in
      if leb symbols (be16 raw 1) || be64 raw 11 == 0 || bad_qty (be32 raw 19)
      then (false, out')
      else (true, record out' { order_ref = be64 raw 11; qty = pos (be32 raw 19) })

  -- 'D'
  unfoldable pub decode_order_delete : Bool × TickMsg
  decode_order_delete =
      let out' = record out { symbol_idx = be16 raw 1 } in
      if leb symbols (be16 raw 1) || be64 raw 11 == 0
      then (false, out')
      else (true, record out' { order_ref = be64 raw 11 })

  -- 'U'
  unfoldable pub decode_order_replace : Bool × TickMsg
  decode_order_replace =
      let out' = record out { symbol_idx = be16 raw 1 } in
      if leb symbols (be16 raw 1)
        || be64 raw 11 == 0
        || be64 raw 19 == 0
        || be64 raw 11 == be64 raw 19
        || bad_qty (be32 raw 27)
        || bad_price (be32 raw 31)
      then (false, out')
      else (
        true,
        record out' {
          order_ref = be64 raw 11;
          match_num = be64 raw 19;
          qty = pos (be32 raw 27);
          price = pos (be32 raw 31);
        },
      )

  -- 'P'
  unfoldable pub decode_trade : Bool × TickMsg
  decode_trade =
      let sym_idx = lookup_ticker t (some raw) 24 in
      if sym_idx == not_found || bad_qty (be32 raw 20) || bad_price (be32 raw 32) || no_side raw
      then (false, out)
      else (
        true,
        record out {
          symbol_idx = sym_idx;
          order_ref = be64 raw 11;
          qty = pos (be32 raw 20);
          price = pos (be32 raw 32);
          match_num = be64 raw 36;
          flags = if raw 19 == b'B' then printable + buy_flag else printable;
        },
      )

  -- 'Q'
  unfoldable pub decode_cross_trade : Bool × TickMsg
  decode_cross_trade =
      let sym_idx = lookup_ticker t (some raw) 19 in
      if sym_idx == not_found || ltb 1_000_000_000 (be64 raw 11) || bad_price (be32 raw 27)
      then (false, out)
      else (
        true,
        record out {
          symbol_idx = sym_idx;
          qty = pos (be64 raw 11);
          price = pos (be32 raw 27);
          match_num = be64 raw 31;
          flags = printable + cross;
        },
      )

  -- 'H'
  unfoldable pub decode_trading_action : Bool × TickMsg
  decode_trading_action =
      let sym_idx = lookup_ticker t (some raw) 11 in
      if sym_idx == not_found then (false, out) else (
        true,
        record out {
          symbol_idx = sym_idx;
          flags = if raw 19 == b'H' || raw 19 == b'P' then halted else 0;
        },
      )

  -- 'Y'
  unfoldable pub decode_reg_sho : Bool × TickMsg
  decode_reg_sho =
      let sym_idx = lookup_ticker t (some raw) 11 in
      if sym_idx == not_found then (false, out) else (
        true,
        record out {
          symbol_idx = sym_idx;
          flags = if raw 19 == b'1' || raw 19 == b'2' then short_sale_restricted else 0;
        },
      )

-- The switch. The checks of the length in each case repeat the one above it.
unfoldable pub decode_body : Buffer → SymbolTable → TickMsg → Bool × TickMsg
decode_body raw t out =
    if raw 0 == b'A' || raw 0 == b'F'
    then decode_add_order raw t out
    else if raw 0 == b'E'
    then decode_order_executed raw t out
    else if raw 0 == b'C'
    then decode_order_exec_price raw t out
    else if raw 0 == b'X'
    then decode_order_cancel raw t out
    else if raw 0 == b'D'
    then decode_order_delete raw t out
    else if raw 0 == b'U'
    then decode_order_replace raw t out
    else if raw 0 == b'P'
    then decode_trade raw t out
    else if raw 0 == b'Q'
    then decode_cross_trade raw t out
    else if raw 0 == b'H'
    then decode_trading_action raw t out
    else if raw 0 == b'Y'
    then decode_reg_sho raw t out
    else (false, out)

unfoldable pub decode_itch : Option Buffer → ℕ → SymbolTable → TickMsg → Bool × TickMsg
unfolding decode_body
decode_itch none len t out = (false, out)
decode_itch (some raw) len t out =
    let minimum = minimum_length (raw 0) in
    let timestamp = be_timestamp48 raw 5 in
    if ltb len 11 || (not (minimum == 0) && ltb len minimum) || leb day_ns timestamp
    then (false, out)
    else decode_body raw t (record no_tick { msg_type = raw 0; timestamp = timestamp })
