-- ===== src/Itch/Sim.antt =====
-- The messages of SimFeedSource in luv_feed_sim.hpp. What the source draws at random, the symbol, the side,
-- the quantity, the price and the references, is an argument.
pub mod Roundtrip
use fort.Base.{ℕ, zero, suc, ◌+◌, ◌-◌, ◌/◌, ◌%◌, ◌^◌, Bool, ltb, if◌then◌else◌, update}
use fort.Itch.Bytes.{Buffer, put_u16_be, put_u32_be, put_u48_be, put_u64_be}

abbrev pub sim_max_msg_len : ℕ
sim_max_msg_len = 50

-- The decimal digits of `symbol_index` behind an S, padded by zeros to eight characters.
unfoldable pub format_stock : ℕ → ℕ → ℕ
format_stock symbol_index i = if ltb 0 i then b'0' + symbol_index / 10 ^ (7 - i) % 10 else b'S'

-- `memcpy` of eight bytes.
unfoldable pub copy8 : Buffer → ℕ → (ℕ → ℕ) → Buffer
copy8 dst at src =
    update
      (update
        (update
          (update
            (update (update (update (update dst at (src 0)) (at + 1) (src 1)) (at + 2) (src 2))
              (at + 3) (src 3))
            (at + 4) (src 4))
          (at + 5) (src 5))
        (at + 6) (src 6))
      (at + 7) (src 7)

unfoldable pub write_itch_header : Buffer → ℕ → ℕ → ℕ → Buffer
unfolding put_u16_be put_u32_be put_u48_be
write_itch_header dst msg_type locate ts =
    put_u48_be (put_u16_be (put_u16_be (update dst 0 msg_type) 1 locate) 3 0) 5 ts

-- The buffer and the length of the message.
unfoldable pub gen_add_order : Buffer → ℕ → ℕ → ℕ → Bool → ℕ → ℕ → Buffer × ℕ
unfolding put_u16_be put_u32_be put_u48_be put_u64_be write_itch_header copy8 format_stock
gen_add_order dst ts order_ref sym_idx is_buy shares price =
    let a = put_u64_be (write_itch_header dst b'A' sym_idx ts) 11 order_ref in
    let b = put_u32_be (update a 19 (if is_buy then b'B' else b'S')) 20 shares in
    (put_u32_be (copy8 b 24 (format_stock sym_idx)) 32 price, 36)

unfoldable pub gen_order_executed : Buffer → ℕ → ℕ → ℕ → ℕ → ℕ → Buffer × ℕ
unfolding put_u16_be put_u32_be put_u48_be put_u64_be write_itch_header
gen_order_executed dst ts ref sym_idx exec_shares match_num =
    let a = put_u64_be (write_itch_header dst b'E' sym_idx ts) 11 ref in
    (put_u64_be (put_u32_be a 19 exec_shares) 23 match_num, 31)

unfoldable pub gen_order_cancel : Buffer → ℕ → ℕ → ℕ → ℕ → Buffer × ℕ
unfolding put_u16_be put_u32_be put_u48_be put_u64_be write_itch_header
gen_order_cancel dst ts ref sym_idx cancel_shares =
    let a = put_u64_be (write_itch_header dst b'X' sym_idx ts) 11 ref in
    (put_u32_be a 19 cancel_shares, 23)

unfoldable pub gen_order_delete : Buffer → ℕ → ℕ → ℕ → Buffer × ℕ
unfolding put_u16_be put_u32_be put_u48_be put_u64_be write_itch_header
gen_order_delete dst ts ref sym_idx =
    (put_u64_be (write_itch_header dst b'D' sym_idx ts) 11 ref, 19)
