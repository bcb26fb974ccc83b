-- ===== src/WebSocket/Tests.antt =====
-- Runs of luv_websocket_parse.hpp on a few bytes.
use fort.Base.{ℕ, zero, suc, ◌≡◌, ◌↔◌, refl, Bool, true, false, some, List, [], ◌∷◌, arith}
use fort.WebSocket.Utf8.{valid_utf8, valid_from, next_char}
use fort.WebSocket.Utf8.Encoding.{WellFormed, valid_utf8-WellFormed}
use fort.WebSocket.Frame.{
  read_header, consumed, incomplete, Frame, FragmentState, no_fragment, Header, frame, read_header,
  accept, unmask, continue_message, payload_from,
}
use fort.WebSocket.Frame.Whole.{IsClientFrame, frame-IsClientFrame, frame-incomplete}
use fort.WebSocket.Frame.Text.{Holds, feed, message_with, joined, last_frame-WellFormed}

abbrev bytes_of : List ℕ → ℕ → ℕ
bytes_of [] i = 0
bytes_of (b ∷ bs) zero = b
bytes_of (b ∷ bs) (suc i) = bytes_of bs i

-- The euro sign, and a surrogate.
euro : valid_utf8 (some (bytes_of (0xe2 ∷ 0x82 ∷ 0xac ∷ []))) 3 ≡ true
unfolding valid_utf8 valid_from next_char
euro = refl

surrogate : valid_utf8 (some (bytes_of (0xed ∷ 0xa0 ∷ 0x80 ∷ []))) 3 ≡ false
unfolding valid_utf8 valid_from next_char
surrogate = refl

valid_utf8-WellFormed_example :
    (valid_utf8 (some (bytes_of (0xe2 ∷ 0x82 ∷ 0xac ∷ []))) 3 ≡ true)
    ↔ WellFormed (bytes_of (0xe2 ∷ 0x82 ∷ 0xac ∷ [])) 3 0
valid_utf8-WellFormed_example = valid_utf8-WellFormed (bytes_of (0xe2 ∷ 0x82 ∷ 0xac ∷ [])) 3

-- A final text frame with two bytes, masked by 1, 2, 3 and 4.
abbrev hi_frame : ℕ → ℕ
hi_frame = bytes_of (0x81 ∷ 0x82 ∷ 1 ∷ 2 ∷ 3 ∷ 4 ∷ 0x49 ∷ 0x6b ∷ [])

abbrev no_frame : Frame
no_frame = record { size = 0; payload_offset = 0; payload_size = 0; opcode = 0 }

hi_consumed : (frame hi_frame 8 no_fragment no_frame).0 ≡ consumed
unfolding frame read_header accept unmask valid_utf8 valid_from next_char
hi_consumed = refl

hi_incomplete : (frame hi_frame 7 no_fragment no_frame).0 ≡ incomplete
unfolding frame read_header
hi_incomplete = refl

frame-IsClientFrame_example :
    IsClientFrame hi_frame
      (frame hi_frame 8 no_fragment no_frame).1
      8
      (frame hi_frame 8 no_fragment no_frame).3
frame-IsClientFrame_example = frame-IsClientFrame hi_frame 8 no_fragment no_frame hi_consumed

frame-incomplete_example :
    frame hi_frame 7 no_fragment no_frame ≡ (incomplete, hi_frame, no_fragment, no_frame)
frame-incomplete_example = frame-incomplete hi_frame 7 no_fragment no_frame hi_incomplete

-- The euro sign in three frames of a byte each.
abbrev part : Bool → Header
part final = record { final = final; opcode = 0; header_size = 2; payload_size = 1 }

abbrev byte_frame : ℕ → ℕ → ℕ
byte_frame b = bytes_of (0 ∷ 0 ∷ 0 ∷ 0 ∷ 0 ∷ 0 ∷ b ∷ [])

abbrev begun : FragmentState
begun = record { fragmented = true; opcode = 1; message_size = 1; text = bytes_of (0xe2 ∷ []) }

begun-Holds : Holds begun (bytes_of (0xe2 ∷ [])) 1
begun-Holds = record { open_message = refl; is_text = refl; bytes = refl; kept = λ i l. refl }

last_frame-WellFormed_example :
    ((continue_message
        (byte_frame 0xac)
        (part true)
        (feed begun ((byte_frame 0x82, part false) ∷ []))).0
      ≡ consumed)
    ↔ WellFormed
        (joined
          (message_with (bytes_of (0xe2 ∷ [])) 1 ((byte_frame 0x82, part false) ∷ []))
          2
          (payload_from (byte_frame 0xac) (part true) 0))
        3
        0
last_frame-WellFormed_example =
    last_frame-WellFormed begun (bytes_of (0xe2 ∷ [])) 1 ((byte_frame 0x82, part false) ∷ [])
      (byte_frame 0xac) (part true) begun-Holds (omega arith) refl refl
