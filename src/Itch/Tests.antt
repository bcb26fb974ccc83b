-- ===== src/Itch/Tests.antt =====
-- Runs of luv_decode_itch.hpp on messages of luv_feed_sim.hpp.
use fort.Base.{◌/◌, ◌<◌, ◌≡◌, ◌↔◌, refl, ap, Bool, true, Option, some, arith, ◌==◌, if◌then◌else◌}
use fort.Numeric.{is_valid_price, is_valid_quantity}
use fort.Lob.RefMap.{symbols}
use fort.Lob.Engine.{process}
use fort.Lob.Book.{TickMsg}
use fort.Lob.Engine.Tests.{fresh}
use fort.Itch.Bytes.{Buffer, load_ticker_key}
use fort.Itch.Symbols.{
  SymbolTable, clear, hash, insert_slot, put_symbol, insert, lookup_from, lookup, table_capacity,
}
use fort.Itch.Symbols.Laws.{insert-ends, lookup-insert_symbol}
use fort.Itch.Symbols.Table.{IsTable, clear-IsTable}
use fort.Itch.Decode.{no_tick, decode_itch}
use fort.Itch.Decode.Bounds.{handle, seen, process-decode_itch}
use fort.Itch.Sim.{format_stock, gen_order_cancel, gen_add_order}
use fort.Itch.Sim.Roundtrip.{decoded, add, cancel, decode_itch-generate}

abbrev blank : Buffer
blank = λ i. 0

-- Symbol 3 under its generated ticker, S0000003.
abbrev one_symbol : SymbolTable
one_symbol = let key = load_ticker_key (format_stock 3) 0 in put_symbol clear key 3 (hash key)

ticker_text : format_stock 12 7 ≡ b'2'
unfolding format_stock
ticker_text = refl

insert_one : insert clear (some (format_stock 3)) 3 ≡ some (true, one_symbol)
unfolding insert insert_slot
insert_one = refl

lookup_one : lookup one_symbol (load_ticker_key (format_stock 3) 0) ≡ 3
unfolding lookup lookup_from put_symbol hash load_ticker_key format_stock
lookup_one = refl

insert-ends_example :
    (ok : Bool) × (t' : SymbolTable) × (insert clear (some (format_stock 3)) 3 ≡ some (ok, t'))
    × IsTable t'
    × ((ok ≡ true) ↔ (◌<◌ 3 symbols × (clear.count < table_capacity / 2)))
insert-ends_example = insert-ends clear (format_stock 3) 3 clear-IsTable

lookup-insert_symbol_example :
    lookup one_symbol 77 ≡ (if 77 == load_ticker_key (format_stock 3) 0 then 3 else lookup clear 77)
lookup-insert_symbol_example =
    lookup-insert_symbol clear one_symbol (format_stock 3) 3 77 clear-IsTable insert_one

decode_itch-generate_example :
    let (p, len) = gen_add_order blank 34_200_000_000_000 9 3 true 100 25_0000 in
    decode_itch (some p) len one_symbol no_tick
    ≡ (true, decoded 34_200_000_000_000 9 3 (add true 100 25_0000))
unfolding is_valid_quantity is_valid_price
decode_itch-generate_example =
    decode_itch-generate blank 34_200_000_000_000 9 3 (add true 100 25_0000) one_symbol no_tick
      (omega arith) (omega arith) (omega arith) (omega arith)
      (refl, refl, omega arith, omega arith, lookup_one)

abbrev cancelled : Option Buffer
cancelled = some (gen_order_cancel blank 34_200_000_000_000 9 3 100).0

cancelled_decodes :
    decode_itch cancelled 23 clear no_tick ≡ (true, decoded 34_200_000_000_000 9 3 (cancel 100))
unfolding is_valid_quantity gen_order_cancel
cancelled_decodes =
    decode_itch-generate blank 34_200_000_000_000 9 3 (cancel 100) clear no_tick (omega arith)
      (omega arith) (omega arith) (omega arith) (refl, omega arith)

process-decode_itch_example :
    let m = (decode_itch cancelled 23 clear no_tick).1 in process fresh m ≡ handle (seen fresh m) m
process-decode_itch_example =
    process-decode_itch fresh cancelled 23 clear no_tick clear-IsTable
      (ap (λ (r : Bool × TickMsg). r.0) cancelled_decodes)
