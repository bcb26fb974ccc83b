-- ===== src/WebSocket/Utf8.antt =====
-- valid_utf8 of luv_websocket_parse.hpp. A text is a function from offsets to chars, of which the byte is
-- read; on bytes a mask is a remainder or a quotient.
pub mod Encoding
use fort.Base.{
  ℕ, zero, suc, ◌+◌, ◌*◌, ◌/◌, ◌%◌, Bool, true, false, ◌&&◌, ◌||◌, Option, none, some, ltb, leb,
  ◌==◌, if◌then◌else◌,
}

-- The lead byte's share of the code point, the continuation bytes and the least code point.
pub record Lead : Type 0 where
  pub code_point : ℕ
  pub continuation_count : ℕ
  pub minimum : ℕ

unfoldable pub lead_of : ℕ → Option Lead
lead_of first =
    if first / 32 == 6
    then some (record { code_point = first % 32; continuation_count = 1; minimum = 0x80 })
    else if first / 16 == 14
    then some (record { code_point = first % 16; continuation_count = 2; minimum = 0x800 })
    else if first / 8 == 30
    then some (record { code_point = first % 8; continuation_count = 3; minimum = 0x10000 })
    else none

-- The loop over `n` continuation bytes from `offset` on.
unfoldable pub continue_point : ℕ → (ℕ → ℕ) → ℕ → ℕ → Option ℕ
continue_point zero text offset code_point = some code_point
continue_point (suc n) text offset code_point =
    let next = text offset % 256 in
    let rest = continue_point n text (offset + 1) (code_point * 64 + next % 64) in
    if next / 64 == 2 then rest else none

abbrev pub bad_point : ℕ → ℕ → Bool
bad_point code_point minimum =
    ltb code_point minimum
    || ltb 0x10ffff code_point
    || (leb 0xd800 code_point && leb code_point 0xdfff)

-- What stands behind the lead byte: the offset after the character, if it is well formed.
unfoldable pub finish_char : (ℕ → ℕ) → ℕ → ℕ → Lead → Option ℕ
unfolding continue_point
finish_char text size offset lead =
    if ltb size (offset + lead.continuation_count)
    then none
    else elim (continue_point lead.continuation_count text offset lead.code_point) [
      | none ↦ none
      | some code_point ↦
          if bad_point code_point lead.minimum
          then none
          else some (offset + lead.continuation_count)
    ]

-- One round of the loop.
unfoldable pub next_char : (ℕ → ℕ) → ℕ → ℕ → Option ℕ
unfolding lead_of finish_char
next_char text size offset =
    let first = text offset % 256 in
    if leb first 0x7f
    then some (offset + 1)
    else elim (lead_of first) [ none ↦ none | some lead ↦ finish_char text size (offset + 1) lead ]

-- The loop, on fuel: it answers false if that runs out, and a round moves on by at least one byte.
unfoldable pub valid_from : ℕ → (ℕ → ℕ) → ℕ → ℕ → Bool
valid_from zero text size offset = leb size offset
valid_from (suc n) text size offset =
    let rest : Bool = elim (next_char text size offset) [
      | none ↦ false
      | some offset' ↦ valid_from n text size offset'
    ] in
    if leb size offset then true else rest

-- `none` is a null pointer.
unfoldable pub valid_utf8 : Option (ℕ → ℕ) → ℕ → Bool
valid_utf8 none size = size == 0
valid_utf8 (some text) size = valid_from size text size 0
