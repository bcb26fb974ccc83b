-- ===== src/Itch/Sim/Roundtrip.antt =====
-- decode_itch of luv_decode_itch.hpp reads back what luv_feed_sim.hpp generates.
use fort.Base.{
  ℕ, ◌^◌, ◌<◌, ◌≡◌, inl, inr, refl, ap, ◌∙◌, Bool, true, some, arith, if◌then◌else◌, Bool-cases,
}
use fort.Base.Int.{pos}
use fort.Numeric.{is_valid_price, is_valid_quantity}
use fort.Lob.RefMap.{symbols}
use fort.Lob.Book.{TickMsg}
use fort.Itch.Bytes.{Buffer, be16, be32, be64, be_timestamp48, load_ticker_key}
use fort.Itch.Symbols.{SymbolTable, lookup, lookup_ticker}
use fort.Itch.Decode.{
  no_tick, day_ns, printable, decode_itch, decode_order_delete, decode_order_executed,
  decode_order_cancel, decode_add_order,
}
use fort.Itch.Sim.{
  format_stock, gen_add_order, gen_order_executed, gen_order_cancel, gen_order_delete,
}

-- What a generated message says.
pub data SimMessage : Type 0 where
  add : Bool → ℕ → ℕ → SimMessage
  executed : ℕ → ℕ → SimMessage
  cancel : ℕ → SimMessage
  delete : SimMessage

abbrev pub generate : Buffer → ℕ → ℕ → ℕ → SimMessage → Buffer × ℕ
generate dst ts ref sym (add is_buy shares price) = gen_add_order dst ts ref sym is_buy shares price
generate dst ts ref sym (executed shares match_num) =
    gen_order_executed dst ts ref sym shares match_num
generate dst ts ref sym (cancel shares) = gen_order_cancel dst ts ref sym shares
generate dst ts ref sym delete = gen_order_delete dst ts ref sym

-- The quantity and the price that a message has are valid, and its symbol has a ticker in the table.
abbrev pub IsSane : SymbolTable → ℕ → SimMessage → Type 0
IsSane t sym (add is_buy shares price) =
    (is_valid_quantity (pos shares) ≡ true)
    × (is_valid_price (pos price) ≡ true)
    × (shares < 2 ^ 32)
    × (price < 2 ^ 32)
    × (lookup t (load_ticker_key (format_stock sym) 0) ≡ sym)
IsSane t sym (executed shares match_num) =
    (is_valid_quantity (pos shares) ≡ true) × (shares < 2 ^ 32) × (match_num < 2 ^ 64)
IsSane t sym (cancel shares) = (is_valid_quantity (pos shares) ≡ true) × (shares < 2 ^ 32)
IsSane t sym delete = Unit

abbrev pub decoded : ℕ → ℕ → ℕ → SimMessage → TickMsg
decoded ts ref sym (add is_buy shares price) = record no_tick {
  msg_type = b'A';
  symbol_idx = sym;
  timestamp = ts;
  order_ref = ref;
  qty = pos shares;
  price = pos price;
  flags = if is_buy then 1 else 0;
}
decoded ts ref sym (executed shares match_num) = record no_tick {
  msg_type = b'E';
  symbol_idx = sym;
  timestamp = ts;
  order_ref = ref;
  qty = pos shares;
  match_num = match_num;
  flags = printable;
}
decoded ts ref sym (cancel shares) = record no_tick {
  msg_type = b'X';
  symbol_idx = sym;
  timestamp = ts;
  order_ref = ref;
  qty = pos shares;
}
decoded ts ref sym delete = record no_tick {
  msg_type = b'D';
  symbol_idx = sym;
  timestamp = ts;
  order_ref = ref;
}

module _ (dst : Buffer) (ts ref sym : ℕ) (in_day : ts < day_ns) (some_ref : 0 < ref)
    (word : ref < 2 ^ 64) (known : sym < symbols) (t : SymbolTable) (out : TickMsg) where
  delete_fields :
      let (p, len) = gen_order_delete dst ts ref sym in
      (be16 p 1 ≡ sym) × (be_timestamp48 p 5 ≡ ts) × (be64 p 11 ≡ ref)
  unfolding gen_order_delete be16 be32 be64 be_timestamp48
  delete_fields = (omega arith, omega arith, omega arith)

  decode-delete :
      let (p, len) = gen_order_delete dst ts ref sym in
      decode_itch (some p) len t out ≡ (true, decoded ts ref sym delete)
  unfolding decode_itch decode_order_delete gen_order_delete
  decode-delete = let (a, b, c) = delete_fields in ground (arith, a, b, c, in_day, some_ref, known)

  module _ (shares : ℕ) (enough : is_valid_quantity (pos shares) ≡ true)
      (fits : shares < 2 ^ 32) where
    cancel_fields :
        let (p, len) = gen_order_cancel dst ts ref sym shares in
        (be16 p 1 ≡ sym) × (be_timestamp48 p 5 ≡ ts) × (be64 p 11 ≡ ref) × (be32 p 19 ≡ shares)
    unfolding gen_order_cancel be16 be32 be64 be_timestamp48
    cancel_fields = (omega arith, omega arith, omega arith, omega arith)

    decode-cancel :
        let (p, len) = gen_order_cancel dst ts ref sym shares in
        decode_itch (some p) len t out ≡ (true, decoded ts ref sym (cancel shares))
    unfolding decode_itch decode_order_cancel gen_order_cancel
    decode-cancel =
        let (a, b, c, d) = cancel_fields in
        ground (arith, a, b, c, d, in_day, some_ref, known, enough)

    module _ (match_num : ℕ) (long : match_num < 2 ^ 64) where
      executed_fields :
          let (p, len) = gen_order_executed dst ts ref sym shares match_num in
          (be16 p 1 ≡ sym)
          × (be_timestamp48 p 5 ≡ ts)
          × (be64 p 11 ≡ ref)
          × (be32 p 19 ≡ shares)
          × (be64 p 23 ≡ match_num)
      unfolding gen_order_executed be16 be32 be64 be_timestamp48
      executed_fields = (omega arith, omega arith, omega arith, omega arith, omega arith)

      decode-executed :
          let (p, len) = gen_order_executed dst ts ref sym shares match_num in
          decode_itch (some p) len t out ≡ (true, decoded ts ref sym (executed shares match_num))
      unfolding decode_itch decode_order_executed gen_order_executed
      decode-executed =
          let (a, b, c, d, e) = executed_fields in
          ground (arith, a, b, c, d, e, in_day, some_ref, known, enough)

    module _ (is_buy : Bool) (price : ℕ) (priced : is_valid_price (pos price) ≡ true)
        (small : price < 2 ^ 32)
        (listed : lookup t (load_ticker_key (format_stock sym) 0) ≡ sym) where
      add_fields :
          let (p, len) = gen_add_order dst ts ref sym is_buy shares price in
          (p 19 ≡ (if is_buy then b'B' else b'S'))
          × (be_timestamp48 p 5 ≡ ts)
          × (be64 p 11 ≡ ref)
          × (be32 p 20 ≡ shares)
          × (be32 p 32 ≡ price)
      unfolding gen_add_order be16 be32 be64 be_timestamp48
      add_fields = (refl, omega arith, omega arith, omega arith, omega arith)

      add_ticker :
          let (p, len) = gen_add_order dst ts ref sym is_buy shares price in
          load_ticker_key p 24 ≡ load_ticker_key (format_stock sym) 0
      unfolding gen_add_order load_ticker_key
      add_ticker = refl

      decode-add :
          let (p, len) = gen_add_order dst ts ref sym is_buy shares price in
          decode_itch (some p) len t out ≡ (true, decoded ts ref sym (add is_buy shares price))
      unfolding decode_itch decode_add_order gen_add_order lookup_ticker
      decode-add =
          let (a, b, c, d, e) = add_fields in
          let found = ap (lookup t) add_ticker ∙ listed in
          elim (Bool-cases is_buy) [
            | inl q ↦
                ground (arith, q, a, b, c, d, e, found, in_day, some_ref, known, enough, priced)
            | inr q ↦
                ground (arith, q, a, b, c, d, e, found, in_day, some_ref, known, enough, priced)
          ]

-- A generated message with a reference that is not 0, a time within the day and a known symbol is decoded to
-- what it was generated from, whatever stood in the buffer and in `out`; an added order needs its generated
-- ticker in the symbol table.
pub decode_itch-generate :
    (dst : Buffer) (ts ref sym : ℕ) (m : SimMessage) (t : SymbolTable) (out : TickMsg)
    → ts < day_ns
    → 0 < ref
    → ref < 2 ^ 64
    → sym < symbols
    → IsSane t sym m
    → let (p, len) = generate dst ts ref sym m in
      decode_itch (some p) len t out ≡ (true, decoded ts ref sym m)
decode_itch-generate dst ts ref sym (add is_buy shares price) t out a b c d (q, p, fq, fp, l) =
    decode-add dst ts ref sym a b c d t out shares q fq is_buy price p fp l
decode_itch-generate dst ts ref sym (executed shares match_num) t out a b c d (q, fq, fm) =
    decode-executed dst ts ref sym a b c d t out shares q fq match_num fm
decode_itch-generate dst ts ref sym (cancel shares) t out a b c d (q, fq) =
    decode-cancel dst ts ref sym a b c d t out shares q fq
decode_itch-generate dst ts ref sym delete t out a b c d _ =
    decode-delete dst ts ref sym a b c d t out
