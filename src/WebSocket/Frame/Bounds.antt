-- ===== src/WebSocket/Frame/Bounds.antt =====
-- The header of a frame in luv_websocket_parse.hpp, and what is kept of a fragmented message.
use fort.Base.{
  ℕ, ◌+◌, ◌/◌, ◌%◌, ◌≤◌, ◌<◌, ◌≡◌, ◌⊎◌, inl, inr, refl, sym, Bool, true, not, ◌&&◌, ◌||◌, arith,
  ltb, ◌==◌, Bool-cases,
}
use fort.WebSocket.Frame.{
  max_web_socket_message_bytes, FrameResult, FragmentState, no_fragment, Header, HeaderResult, stop,
  go, is_control, bad_start, length_of, check_header, read_header, continue_message, start_message,
  accept,
}

-- What a header that is passed on says.
pub record IsHeader (size : ℕ) (h : Header) : Type 0 where
  pub there : h.header_size + 4 + h.payload_size ≤ size
  pub header_bounds : (2 ≤ h.header_size) × (h.header_size ≤ 10)
  pub small : h.payload_size ≤ max_web_socket_message_bytes
  pub control : is_control h.opcode ≡ true → (h.final ≡ true) × (h.payload_size ≤ 125)
  pub opcode_bounds : h.opcode < 16

pub HeaderResult-cases :
    (r : HeaderResult) → ((s : FrameResult) × (r ≡ stop s)) ⊎ ((h : Header) × (r ≡ go h))
HeaderResult-cases (stop s) = inl (s, refl)
HeaderResult-cases (go h) = inr (h, refl)

length_of-go :
    (input : ℕ → ℕ) (size : ℕ) (final : Bool) (opcode : ℕ) (h : Header)
    → length_of input size final opcode ≡ go h
    → (h.final ≡ final) × (h.opcode ≡ opcode) × (2 ≤ h.header_size) × (h.header_size ≤ 10)
unfolding length_of
length_of-go input size final opcode h e = ground (arith, e)

check_header-go :
    (size : ℕ) (h h' : Header)
    → check_header size h ≡ go h'
    → (2 ≤ h.header_size) × (h.header_size ≤ 10) × (h.opcode < 16)
    → IsHeader size h'
unfolding check_header
check_header-go size h h' e b =
    elim (Bool-cases (is_control h.opcode && (not h.final || ltb 125 h.payload_size))) [
      | inl bad ↦ cc (rw bad at e)
      | inr ok ↦ elim (Bool-cases (ltb max_web_socket_message_bytes h.payload_size)) [
        | inl bad ↦ cc (rw (ok, bad) at e)
        | inr ok' ↦ elim (Bool-cases (ltb size (h.header_size + 4 + h.payload_size))) [
          | inl bad ↦ cc (rw (ok, ok', bad) at e)
          | inr ok'' ↦
              let same : h ≡ h' = cc (rw (ok, ok', ok'') at e) in
              rw (sym same) (record {
                there = ground (arith, ok'');
                header_bounds = (b.0, b.1);
                small = ground (arith, ok');
                control = λ c. (ground (arith, ok, c), ground (arith, ok, c));
                opcode_bounds = b.2;
              })
        ]
      ]
    ]

pub read_header-IsHeader :
    (input : ℕ → ℕ) (size : ℕ) (h : Header) → read_header input size ≡ go h → IsHeader size h
unfolding read_header
read_header-IsHeader input size h e = elim (Bool-cases (ltb size 2)) [
  | inl bad ↦ cc (rw bad at e)
  | inr ok ↦ elim (Bool-cases (bad_start input)) [
    | inl bad ↦ cc (rw (ok, bad) at e)
    | inr ok' ↦
        let final = input 0 / 128 % 2 == 1 in
        let opcode = input 0 % 16 in
        elim (HeaderResult-cases (length_of input size final opcode)) [
          | inl (s, l) ↦ cc (rw (ok, ok', l) at e)
          | inr (h', l) ↦
              let (a, b, c, d) = length_of-go input size final opcode h' l in
              check_header-go size h' h (rw (ok, ok', l) at e) (c, d, omega (arith, b))
        ]
  ]
]

-- The state of a connection: what is kept of a fragmented message fits into the text buffer, and is of a text
-- or a binary message.
pub record IsFragment (s : FragmentState) : Type 0 where
  pub fits : s.message_size ≤ max_web_socket_message_bytes
  pub kind : s.fragmented ≡ true → (s.opcode == 1 || s.opcode == 2) ≡ true

pub no_fragment-IsFragment : IsFragment no_fragment
no_fragment-IsFragment = record { fits = omega arith; kind = λ h. cc }

module _ (buffer : ℕ → ℕ) (h : Header) (s : FragmentState) (v : IsFragment s)
    (small : h.payload_size ≤ max_web_socket_message_bytes) where
  continue_message-IsFragment : IsFragment (continue_message buffer h s).1
  unfolding continue_message
  continue_message-IsFragment = record {
    fits = ground (arith, v.fits, small);
    kind = λ f. ground (arith, f, v.kind);
  }

  start_message-IsFragment :
      (h.opcode == 1 || h.opcode == 2) ≡ true → IsFragment (start_message buffer h s).1
  unfolding start_message
  start_message-IsFragment o = record {
    fits = ground (arith, v.fits, small);
    kind = λ f. ground (arith, f, o, v.kind);
  }

  pub accept-IsFragment : IsFragment (accept buffer h s).1
  unfolding accept
  accept-IsFragment = ground (arith, v, continue_message-IsFragment, start_message-IsFragment)
