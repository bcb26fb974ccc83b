-- ===== src/Itch/Bytes.antt =====
-- The big-endian fields of luv_decode_itch.hpp (be16, be32, be64, be_timestamp48) and the writers of
-- luv_feed_sim.hpp. A buffer is a function from offsets to bytes; memcpy and the byte swap of a
-- little-endian host, or neither on a big-endian one, come to the same sum.
use fort.Base.{ℕ, ◌+◌, ◌*◌, ◌/◌, ◌%◌, ◌^◌, update}

abbrev pub Buffer : Type 0
Buffer = ℕ → ℕ

unfoldable pub be16 : Buffer → ℕ → ℕ
be16 p i = (p i * 256 + p (i + 1)) % 2 ^ 16

unfoldable pub be32 : Buffer → ℕ → ℕ
be32 p i = (((p i * 256 + p (i + 1)) * 256 + p (i + 2)) * 256 + p (i + 3)) % 2 ^ 32

unfoldable pub be64 : Buffer → ℕ → ℕ
unfolding be32
be64 p i = be32 p i * 2 ^ 32 + be32 p (i + 4)

unfoldable pub be_timestamp48 : Buffer → ℕ → ℕ
unfolding be16 be32
be_timestamp48 p i = be16 p i * 2 ^ 32 + be32 p (i + 2)

-- The ticker as a key, on a little-endian host.
unfoldable pub load_ticker_key : Buffer → ℕ → ℕ
load_ticker_key p i =
    (p i
      + 256
        * (p (i + 1)
            + 256
              * (p (i + 2)
                  + 256
                    * (p (i + 3)
                        + 256
                          * (p (i + 4)
                              + 256 * (p (i + 5) + 256 * (p (i + 6) + 256 * p (i + 7))))))))
    % 2 ^ 64

unfoldable pub put_u16_be : Buffer → ℕ → ℕ → Buffer
put_u16_be p i v = update (update p i (v / 2 ^ 8 % 256)) (i + 1) (v % 256)

unfoldable pub put_u32_be : Buffer → ℕ → ℕ → Buffer
unfolding put_u16_be
put_u32_be p i v = put_u16_be (put_u16_be p i (v / 2 ^ 16)) (i + 2) v

unfoldable pub put_u48_be : Buffer → ℕ → ℕ → Buffer
unfolding put_u16_be put_u32_be
put_u48_be p i v = put_u32_be (put_u16_be p i (v / 2 ^ 32)) (i + 2) v

unfoldable pub put_u64_be : Buffer → ℕ → ℕ → Buffer
unfolding put_u16_be put_u32_be
put_u64_be p i v = put_u32_be (put_u32_be p i (v / 2 ^ 32)) (i + 4) v
