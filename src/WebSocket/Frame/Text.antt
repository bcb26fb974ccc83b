-- ===== src/WebSocket/Frame/Text.antt =====
-- The text of a fragmented message in luv_websocket_parse.hpp: it is checked as a whole at its last frame.
use fort.Base.{
  ℕ, ◌+◌, ◌-◌, ◌≤◌, ◌<◌, ◌≡◌, ◌↔◌, sym, Bool, true, false, not, ◌&&◌, some, List, [], ◌∷◌, arith,
  ltb, if◌then◌else◌,
}
use native.Mathlib.Nat.{add-zero, add_assoc}
use fort.WebSocket.Utf8.{valid_utf8}
use fort.WebSocket.Utf8.Encoding.{
  Encodes, one, two, three, four, WellFormed, done, char, valid_utf8-WellFormed,
}
use fort.WebSocket.Frame.{
  max_web_socket_message_bytes, consumed, FragmentState, Header, payload_from, copy_text,
  continue_message, start_message,
}

abbrev Agree : ℕ → (ℕ → ℕ) → (ℕ → ℕ) → Type 0
Agree n f g = (i : ℕ) → i < n → f i ≡ g i

-- Only the text below its size counts.
Encodes-Agree :
    (f g : ℕ → ℕ) (size i c j : ℕ) → Agree size f g → j ≤ size → Encodes f i c j → Encodes g i c j
Encodes-Agree f g size i c j same h (one a b) = one a (ground (arith, b, same i))
Encodes-Agree f g size i c j same h (two a b x y) =
    two a b (ground (arith, x, same i)) (ground (arith, y, same (i + 1)))
Encodes-Agree f g size i c j same h (three a b s x y z) =
    three a b s (ground (arith, x, same i)) (ground (arith, y, same (i + 1)))
      (ground (arith, z, same (i + 2)))
Encodes-Agree f g size i c j same h (four a b x y z w) =
    four a b (ground (arith, x, same i)) (ground (arith, y, same (i + 1)))
      (ground (arith, z, same (i + 2))) (ground (arith, w, same (i + 3)))

WellFormed-Agree :
    (f g : ℕ → ℕ) (size i : ℕ) → Agree size f g → WellFormed f size i → WellFormed g size i
WellFormed-Agree f g size i same done = done
WellFormed-Agree f g size i same (char {j = j} c e h w) =
    char c (Encodes-Agree f g size i c j same h e) h (WellFormed-Agree f g size j same w)

-- A message, and one of `n` bytes with a payload behind it.
abbrev pub joined : (ℕ → ℕ) → ℕ → (ℕ → ℕ) → ℕ → ℕ
joined message n payload i = if ltb i n then message i else payload (i - n)

-- The state holds the first `n` bytes of a text message.
pub record Holds (s : FragmentState) (message : ℕ → ℕ) (n : ℕ) : Type 0 where
  pub open_message : s.fragmented ≡ true
  pub is_text : s.opcode ≡ 1
  pub bytes : s.message_size ≡ n
  pub kept : (i : ℕ) → i < n → s.text i ≡ message i

module _ (buffer : ℕ → ℕ) (h : Header) (s : FragmentState) (message : ℕ → ℕ) (n : ℕ)
    (v : Holds s message n) where
  abbrev payload : ℕ → ℕ
  payload = payload_from buffer h 0

  abbrev longer : ℕ → ℕ
  longer = joined message n payload

  copied_same :
      Agree (n + h.payload_size) (copy_text s.text s.message_size payload h.payload_size) longer
  unfolding copy_text
  copied_same i l = ground (arith, v.bytes, v.kept i, l)

  continue_message-Holds :
      n + h.payload_size ≤ max_web_socket_message_bytes
      → h.final ≡ false
      → Holds (continue_message buffer h s).1 longer (n + h.payload_size)
  unfolding continue_message
  continue_message-Holds room open_end =
      let a = v.open_message in
      let b = v.is_text in
      let c = v.bytes in
      record {
        open_message = ground (arith, a, b, c, room, open_end);
        is_text = ground (arith, a, b, c, room, open_end);
        bytes = ground (arith, a, b, c, room, open_end);
        kept = λ i l. ground (arith, a, b, c, room, open_end, copied_same i l);
      }

  continue_message-last :
      n + h.payload_size ≤ max_web_socket_message_bytes
      → h.final ≡ true
      → ((continue_message buffer h s).0 ≡ consumed) ↔ (
          valid_utf8
            (some (copy_text s.text s.message_size payload h.payload_size))
            (n + h.payload_size)
          ≡ true)
  unfolding continue_message
  continue_message-last room end =
      let a = v.open_message in
      let b = v.is_text in
      let c = v.bytes in
      (λ e. ground (arith, a, b, c, room, end, e), λ e. ground (arith, a, b, c, room, end, e))

  last-WellFormed :
      n + h.payload_size ≤ max_web_socket_message_bytes
      → h.final ≡ true
      → ((continue_message buffer h s).0 ≡ consumed) ↔ WellFormed longer (n + h.payload_size) 0
  last-WellFormed room end =
      let text = copy_text s.text s.message_size payload h.payload_size in
      let size = n + h.payload_size in
      let (to, from) = continue_message-last room end in
      let (valid, back) = valid_utf8-WellFormed text size in
      (
        λ e. WellFormed-Agree text longer size 0 copied_same (valid (to e)),
        λ w. from (back (WellFormed-Agree longer text size 0 (λ i l. sym (copied_same i l)) w)),
      )

-- Continuation frames: the unmasked buffer and the header of each.
abbrev pub Fragments : Type 0
Fragments = List ((ℕ → ℕ) × Header)

pub feed : FragmentState → Fragments → FragmentState
feed s [] = s
feed s ((buffer, h) ∷ fs) = feed (continue_message buffer h s).1 fs

abbrev pub total_size : Fragments → ℕ
total_size [] = 0
total_size ((buffer, h) ∷ fs) = h.payload_size + total_size fs

-- The message with the payloads behind it.
abbrev pub message_with : (ℕ → ℕ) → ℕ → Fragments → ℕ → ℕ
message_with message n [] = message
message_with message n ((buffer, h) ∷ fs) =
    message_with (joined message n (payload_from buffer h 0)) (n + h.payload_size) fs

abbrev pub all_open : Fragments → Bool
all_open [] = true
all_open ((buffer, h) ∷ fs) = not h.final && all_open fs

feed-Holds :
    (s : FragmentState) (message : ℕ → ℕ) (n : ℕ) (fs : Fragments)
    → Holds s message n
    → n + total_size fs ≤ max_web_socket_message_bytes
    → all_open fs ≡ true
    → Holds (feed s fs) (message_with message n fs) (n + total_size fs)
unfolding feed
feed-Holds s message n [] v room o = rw (add-zero n) v
feed-Holds s message n ((buffer, h) ∷ fs) v room o =
    let w =
      continue_message-Holds buffer h s message n v (omega (arith, room)) (ground (arith, o)) in
    let r =
      feed-Holds (continue_message buffer h s).1 (joined message n (payload_from buffer h 0))
        (n + h.payload_size) fs w (omega (arith, room)) (ground (arith, o)) in
    rw (add_assoc n h.payload_size (total_size fs)) at r

-- A text message of which the state holds `n` bytes, then any number of continuation frames, then the last:
-- within the bound of a message, the last frame is consumed exactly if all bytes together are well-formed
-- UTF-8, also where a character is split between frames.
pub last_frame-WellFormed :
    (s : FragmentState) (message : ℕ → ℕ) (n : ℕ) (fs : Fragments) (buffer : ℕ → ℕ) (h : Header)
    → Holds s message n
    → n + total_size fs + h.payload_size ≤ max_web_socket_message_bytes
    → all_open fs ≡ true
    → h.final ≡ true
    → let m = n + total_size fs in
      ((continue_message buffer h (feed s fs)).0 ≡ consumed)
      ↔ WellFormed
          (joined (message_with message n fs) m (payload_from buffer h 0))
          (m + h.payload_size)
          0
last_frame-WellFormed s message n fs buffer h v room o end =
    let w = feed-Holds s message n fs v (omega (arith, room)) o in
    last-WellFormed buffer h (feed s fs) (message_with message n fs) (n + total_size fs) w room end

-- ... and how the state comes to hold them: a first text frame that is not the last.
pub start_message-Holds :
    (buffer : ℕ → ℕ) (h : Header) (s : FragmentState)
    → s.fragmented ≡ false
    → h.opcode ≡ 1
    → h.final ≡ false
    → let (r, s') = start_message buffer h s in
      (r ≡ consumed) × Holds s' (payload_from buffer h 0) h.payload_size
unfolding start_message copy_text
start_message-Holds buffer h s idle text open_end = (
  ground (arith, idle, text, open_end),
  record {
    open_message = ground (arith, idle, text, open_end);
    is_text = ground (arith, idle, text, open_end);
    bytes = ground (arith, idle, text, open_end);
    kept = λ i l. ground (arith, idle, text, open_end, l);
  },
)
