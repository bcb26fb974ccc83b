-- ===== src/WebSocket/Utf8/Encoding.antt =====
-- valid_utf8 of luv_websocket_parse.hpp against the encoding of RFC 3629.
use fort.Base.{
  ℕ, zero, suc, ◌+◌, ◌*◌, ◌/◌, ◌%◌, ◌≤◌, ◌<◌, ◌≡◌, ◌↔◌, ◌⊎◌, inl, inr, refl, true, false, some,
  arith, ltb, leb, ◌==◌, Bool-cases, Option-cases,
}
use fort.WebSocket.Utf8.{next_char, valid_from, valid_utf8}

-- The byte at an offset.
abbrev byte : (ℕ → ℕ) → ℕ → ℕ
byte text i = text i % 256

-- At `i` the text encodes the code point `c`, up to `j`.
pub data Encodes (text : ℕ → ℕ) (i c : ℕ) : ℕ → Type 0 where
  one : c < 0x80 → byte text i ≡ c → Encodes text i c (i + 1)
  two :
      0x80 ≤ c
      → c < 0x800
      → byte text i ≡ 0xc0 + c / 64
      → byte text (i + 1) ≡ 0x80 + c % 64
      → Encodes text i c (i + 2)
  three :
      0x800 ≤ c
      → c < 0x10000
      → ((c < 0xd800) ⊎ (0xdfff < c))
      → byte text i ≡ 0xe0 + c / 4096
      → byte text (i + 1) ≡ 0x80 + c / 64 % 64
      → byte text (i + 2) ≡ 0x80 + c % 64
      → Encodes text i c (i + 3)
  four :
      0x10000 ≤ c
      → c ≤ 0x10ffff
      → byte text i ≡ 0xf0 + c / 262144
      → byte text (i + 1) ≡ 0x80 + c / 4096 % 64
      → byte text (i + 2) ≡ 0x80 + c / 64 % 64
      → byte text (i + 3) ≡ 0x80 + c % 64
      → Encodes text i c (i + 4)

-- From `i` on the text is a sequence of encoded code points that ends at `size`.
pub data WellFormed (text : ℕ → ℕ) (size : ℕ) : ℕ → Type 0 where
  done : WellFormed text size size
  char :
      {i j : ℕ} (c : ℕ)
      → Encodes text i c j
      → j ≤ size
      → WellFormed text size j
      → WellFormed text size i

module _ (text : ℕ → ℕ) (size : ℕ) where
  Encodes-lt : {i j c : ℕ} → Encodes text i c j → i < j
  Encodes-lt (one a b) = omega arith
  Encodes-lt (two a b c d) = omega arith
  Encodes-lt (three a b c d e f) = omega arith
  Encodes-lt (four a b c d e f) = omega arith

  -- An encoded character is passed.
  Encodes-next_char : {i j c : ℕ} → Encodes text i c j → j ≤ size → next_char text size i ≡ some j
  unfolding next_char
  Encodes-next_char (one small b) h = ground (arith, small, b)
  Encodes-next_char (two lo hi a b) h = ground (arith, lo, hi, a, b, h)
  Encodes-next_char (three lo hi s a b c) h = ground (arith, lo, hi, s, a, b, c, h)
  Encodes-next_char (four lo hi a b c d) h = ground (arith, lo, hi, a, b, c, d, h)

  -- A passed character is encoded, within the text.
  record Passed (i j : ℕ) : Type 0 where
    pub further : i < j
    pub within : j ≤ size
    pub point : ℕ
    pub encoded : Encodes text i point j

  module _ (i j : ℕ) (inside : i < size) (e : next_char text size i ≡ some j) where
    one-Passed : leb (byte text i) 0x7f ≡ true → Passed i j
    unfolding next_char
    one-Passed ascii =
        let at : j ≡ i + 1 = ground (arith, ascii, e) in
        record {
          further = omega (arith, at);
          within = omega (arith, at);
          point = byte text i;
          encoded = rw at (one (ground (arith, ascii)) refl);
        }

    two-Passed : leb (byte text i) 0x7f ≡ false → (byte text i / 32 == 6) ≡ true → Passed i j
    unfolding next_char
    two-Passed high l =
        let a = byte text (i + 1) in
        let c = byte text i % 32 * 64 + a % 64 in
        let at : j ≡ i + 2 = ground (arith, high, l, e) in
        let cont : a / 64 ≡ 2 = ground (arith, high, l, e) in
        let good : 0x80 ≤ c = ground (arith, high, l, e) in
        record {
          further = omega (arith, at);
          within = ground (arith, high, l, e);
          point = c;
          encoded = rw at (two good (omega arith) (ground (arith, l)) (omega (arith, cont)));
        }

    three-Passed :
        leb (byte text i) 0x7f ≡ false
        → (byte text i / 32 == 6) ≡ false
        → (byte text i / 16 == 14) ≡ true
        → Passed i j
    unfolding next_char
    three-Passed high n l =
        let a = byte text (i + 1) in
        let b = byte text (i + 2) in
        let c = (byte text i % 16 * 64 + a % 64) * 64 + b % 64 in
        let at : j ≡ i + 3 = ground (arith, high, n, l, e) in
        let cont : (a / 64 ≡ 2) × (b / 64 ≡ 2) = ground (arith, high, n, l, e) in
        let big : 0x800 ≤ c = ground (arith, high, n, l, e) in
        let scalar : (c < 0xd800) ⊎ (0xdfff < c) = elim (Bool-cases (ltb c 0xd800)) [
          | inl low ↦ inl (ground (arith, low))
          | inr up ↦ inr (ground (arith, high, n, l, e, up))
        ] in
        record {
          further = omega (arith, at);
          within = ground (arith, high, n, l, e);
          point = c;
          encoded = rw at (
              three big (omega arith) scalar (ground (arith, l)) (omega (arith, cont))
                (omega (arith, cont)));
        }

    four-Passed :
        leb (byte text i) 0x7f ≡ false
        → (byte text i / 32 == 6) ≡ false
        → (byte text i / 16 == 14) ≡ false
        → Passed i j
    unfolding next_char
    four-Passed high n m =
        let a = byte text (i + 1) in
        let b = byte text (i + 2) in
        let d = byte text (i + 3) in
        let c = ((byte text i % 8 * 64 + a % 64) * 64 + b % 64) * 64 + d % 64 in
        let l : byte text i / 8 ≡ 30 = ground (arith, high, n, m, e) in
        let at : j ≡ i + 4 = ground (arith, high, n, m, e) in
        let cont : (a / 64 ≡ 2) × (b / 64 ≡ 2) × (d / 64 ≡ 2) = ground (arith, high, n, m, e) in
        let good : (0x10000 ≤ c) × (c ≤ 0x10ffff) = ground (arith, high, n, m, e) in
        record {
          further = omega (arith, at);
          within = ground (arith, high, n, m, e);
          point = c;
          encoded = rw at (
              four good.0 good.1 (omega (arith, l)) (omega (arith, cont)) (omega (arith, cont))
                (omega (arith, cont)));
        }

    next_char-Passed : Passed i j
    next_char-Passed = elim (Bool-cases (leb (byte text i) 0x7f)) [
      | inl ascii ↦ one-Passed ascii
      | inr high ↦ elim (Bool-cases (byte text i / 32 == 6)) [
        | inl l ↦ two-Passed high l
        | inr n ↦ elim (Bool-cases (byte text i / 16 == 14)) [
          | inl l ↦ three-Passed high n l
          | inr m ↦ four-Passed high n m
        ]
      ]
    ]

  WellFormed-le : {i : ℕ} → WellFormed text size i → i ≤ size
  WellFormed-le done = omega arith
  WellFormed-le (char c e h w) = omega (arith, h, Encodes-lt e)

  valid_from-WellFormed :
      (n i : ℕ) → size ≤ i + n → i ≤ size → valid_from n text size i ≡ true → WellFormed text size i
  unfolding valid_from
  valid_from-WellFormed zero i enough small ok =
      let at : i ≡ size = ground (arith, enough, small) in rw at done
  valid_from-WellFormed (suc n) i enough small ok = elim (Bool-cases (leb size i)) [
    | inl over ↦ let at : i ≡ size = ground (arith, over, small) in rw at done
    | inr more ↦ elim (Option-cases (next_char text size i)) [
      | inl e ↦ cc (rw (more, e) at ok)
      | inr (j, e) ↦
          let p = next_char-Passed i j (ground (arith, more)) e in
          let w =
            valid_from-WellFormed n j (omega (arith, enough, p.further)) p.within
              (rw (more, e) at ok) in
          char p.point p.encoded p.within w
    ]
  ]

  WellFormed-valid_from :
      (n : ℕ) {i : ℕ} → WellFormed text size i → size ≤ i + n → valid_from n text size i ≡ true
  unfolding valid_from
  WellFormed-valid_from zero w enough = ground (arith, enough)
  WellFormed-valid_from (suc n) done enough = ground arith
  WellFormed-valid_from (suc n) {i} (char {j = j} c e h w) enough =
      let lt = Encodes-lt e in
      let more : leb size i ≡ false = ground (arith, lt, h) in
      rw (more, Encodes-next_char e h) (WellFormed-valid_from n w (omega (arith, enough, lt)))

-- A text is accepted exactly if it is, from its begin to its end, a sequence of code points, none of them a
-- surrogate or above U+10FFFF, each in the encoding of RFC 3629, which is the shortest.
pub valid_utf8-WellFormed :
    (text : ℕ → ℕ) (size : ℕ) → (valid_utf8 (some text) size ≡ true) ↔ WellFormed text size 0
unfolding valid_utf8
valid_utf8-WellFormed text size = (
  valid_from-WellFormed text size size 0 (omega arith) (omega arith),
  λ w. WellFormed-valid_from text size size w (omega arith),
)
