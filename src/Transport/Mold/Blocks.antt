-- ===== src/Transport/Mold/Blocks.antt =====
-- The message blocks of luv_moldudp64.hpp: what `validate_message_block` accepts is what the iterator
-- reads to the end.
use fort.Base.{
  ℕ, zero, suc, ◌+◌, ◌-◌, ◌≤◌, ◌<◌, ◌≡◌, ◌↔◌, ◌⊎◌, inl, inr, refl, ap, Bool, true, false, ◌||◌,
  Option, none, some, List, [], ◌∷◌, arith, ltb, ◌==◌, Bool-cases,
}
use mathlib.Core.Bool.{false≢true}
use fort.Transport.Mold.{
  MessageIterator, message_iterator, next, next_in, walk_blocks, validate_message_block, read_be16,
  header_size,
}

-- Up to `n` calls of `next`, until it returns false.
pub drain : ℕ → MessageIterator → List (ℕ × ℕ) × MessageIterator
drain zero it = ([], it)
drain (suc n) it =
    let (m, it') = next it in
    let (ms, rest) = drain n it' in elim m [ none ↦ ([], it') | some x ↦ (x ∷ ms, rest) ]

abbrev pub length : List (ℕ × ℕ) → ℕ
length [] = 0
length (m ∷ ms) = suc (length ms)

-- `n` messages that end with the packet.
abbrev pub IsWhole : ℕ → List (ℕ × ℕ) × MessageIterator → Type 0
IsWhole n r = (length r.0 ≡ n) × (r.1.invalid ≡ false) × (r.1.offset ≡ r.1.size)

module _ (bytes : ℕ → ℕ) (size : ℕ) where
  abbrev reader : ℕ → MessageIterator
  reader offset = record { bytes = some bytes; size = size; offset = offset; invalid = false }

  walk_blocks-zero : (offset : ℕ) → walk_blocks 0 bytes size offset ≡ (offset == size)
  unfolding walk_blocks
  walk_blocks-zero offset = refl

  -- `next` at a message, and where there is none.
  next-message :
      (offset : ℕ)
      → 2 ≤ size - offset
      → 0 < read_be16 bytes offset
      → read_be16 bytes offset ≤ size - (offset + 2)
      → next (reader offset)
        ≡ (some (offset + 2, read_be16 bytes offset), reader (offset + 2 + read_be16 bytes offset))
  unfolding next next_in
  next-message offset a b c = ground arith

  next-stop :
      (offset : ℕ)
      → (size - offset < 2)
        ⊎ (read_be16 bytes offset ≡ 0)
        ⊎ (size - (offset + 2) < read_be16 bytes offset)
      → (next (reader offset)).0 ≡ none
  unfolding next next_in
  next-stop offset h = ground arith

  -- The test that ends a walk.
  abbrev stops : ℕ → Bool
  stops offset =
      ltb (size - offset) 2
      || (read_be16 bytes offset == 0 || ltb (size - (offset + 2)) (read_be16 bytes offset))

  walk_blocks-stop :
      (n offset : ℕ) → stops offset ≡ true → walk_blocks (suc n) bytes size offset ≡ false
  unfolding walk_blocks
  walk_blocks-stop n offset h = ground arith

  walk_blocks-message :
      (n offset : ℕ)
      → stops offset ≡ false
      → walk_blocks (suc n) bytes size offset
        ≡ walk_blocks n bytes size (offset + 2 + read_be16 bytes offset)
  unfolding walk_blocks
  walk_blocks-message n offset h = ground arith

  drain-stop : (n offset : ℕ) → stops offset ≡ true → length (drain (suc n) (reader offset)).0 ≡ 0
  unfolding drain
  drain-stop n offset h = rw ((next-stop offset (ground arith)), drain)

  drain-message :
      (n offset : ℕ)
      → stops offset ≡ false
      → let m = read_be16 bytes offset in
        let r = drain n (reader (offset + 2 + m)) in
        drain (suc n) (reader offset) ≡ ((offset + 2, m) ∷ r.0, r.1)
  unfolding drain
  drain-message n offset h =
      let q = next-message offset (ground arith) (ground arith) (ground arith) in
      let after : (next (reader offset)).1 ≡ reader (offset + 2 + read_be16 bytes offset) =
        ap (λ (x : Option (ℕ × ℕ) × MessageIterator). x.1) q in
      rw (q, drain) (rw after)

  drain-walk_blocks :
      (n offset : ℕ)
      → offset ≤ size
      → (walk_blocks n bytes size offset ≡ true) ↔ IsWhole n (drain n (reader offset))
  unfolding drain
  drain-walk_blocks zero offset h = (λ e. (refl, refl, walk_end offset e), λ e. end_walk offset e.2)
    where
      walk_end : (offset : ℕ) → walk_blocks 0 bytes size offset ≡ true → offset ≡ size
      walk_end offset e = ground (arith, walk_blocks-zero offset)

      end_walk : (offset : ℕ) → offset ≡ size → walk_blocks 0 bytes size offset ≡ true
      end_walk offset e = ground (arith, walk_blocks-zero offset)
  drain-walk_blocks (suc n) offset h = elim (Bool-cases (stops offset)) [
    | inl stop ↦
        rw (walk_blocks-stop n offset stop)
          (λ e. absurd (false≢true e), λ e. absurd (omega (arith, e.0, drain-stop n offset stop)))
    | inr go ↦
        let (out, into) =
          drain-walk_blocks n (offset + 2 + read_be16 bytes offset) (ground arith) in
        rw ((drain-message n offset go), (walk_blocks-message n offset go))
          (λ e. let (a, b, c) = out e in (ap suc a, b, c), λ e. into (omega (arith, e.0), e.1, e.2))
  ]

-- `validate_message_block` accepts a packet with a count exactly if the packet has a header and the
-- iterator reads that many messages from it, stays valid, and is at the end of the packet then.
pub validate_message_block-drain :
    (bytes : ℕ → ℕ) (size count : ℕ)
    → (validate_message_block (some bytes) size count ≡ true)
      ↔ ((header_size ≤ size) × IsWhole count (drain count (message_iterator (some bytes) size)))
unfolding validate_message_block
validate_message_block-drain bytes size count = elim (Bool-cases (ltb size header_size)) [
  | inl short ↦ rw short (λ e. absurd (false≢true e), λ e. absurd (ground (arith, short, e.0)))
  | inr long ↦
      let room : header_size ≤ size = ground arith in
      let (out, into) = drain-walk_blocks bytes size count header_size room in
      rw long (λ e. (room, out e), λ e. into e.1)
]

-- `next` of an iterator that is within its packet: a message that it returns is not empty, begins
-- behind its length field, and ends within the packet, where the iterator stands then; and when it
-- returns false, it has either read the packet to the end, or is invalid from then on.
pub next_bounds :
    (bytes : ℕ → ℕ) (size offset : ℕ) (invalid : Bool)
    → offset ≤ size
    → let r =
        next (record { bytes = some bytes; size = size; offset = offset; invalid = invalid }) in
      ((at length : ℕ)
        → r.0 ≡ some (at, length)
        → (at ≡ offset + 2)
          × (0 < length)
          × (at + length ≤ size)
          × (r.1.offset ≡ at + length)
          × (r.1.size ≡ size))
      × (r.0 ≡ none → (offset ≡ size) ⊎ (r.1.invalid ≡ true))
unfolding next next_in
next_bounds bytes size offset invalid h =
    (λ at length e. ground (arith, h, e), λ e. ground (arith, h, e))
