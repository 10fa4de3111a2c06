-- ===== src/Protocol/Wire.antt =====
-- protocol/Wire.h: the bounded reader and writer. A byte is a number below 256.
-- A read that returns false is `err` with the reader, which it leaves as it was; a write that
-- returns false is `none`. An access of `bytes_[i]` outside of the span is `out_of_bounds`,
-- and so is a slice that reaches outside.
pub mod Writes
pub mod Reads
pub mod RoundTrip
use dns_pro.Base.{
  ℕ, ◌+◌, ◌-◌, ◌*◌, ◌/◌, ◌%◌, ◌^◌, ◌<◌, bit_and, bit_or, Bool, ◌&&◌, List, [], ◌∷◌, ◌++◌, Option,
  none, some, ltb, leb, if◌then◌else◌, length, get_elem?, take, drop, Outcome, ok, out_of_bounds,
  ◌>>=◌, ◌>>◌, refuse_if, in_bounds,
}

abbrev pub Bytes : Type 0
Bytes = List ℕ

abbrev pub IsByte : ℕ → Type 0
IsByte b = b < 256

pub record Reader : Type 0 where
  pub bytes : Bytes
  pub offset : ℕ

abbrev pub start_at : Bytes → ℕ → Reader
start_at bytes offset = record { bytes = bytes; offset = offset }

unfoldable pub remaining : Reader → ℕ
remaining r = if leb r.offset (length r.bytes) then length r.bytes - r.offset else 0

abbrev pub byte_at : {E : Type 0} → Bytes → ℕ → Outcome E ℕ
byte_at bytes index = in_bounds (get_elem? bytes index)

-- `count` bytes from an index on, as a copy through a pointer or an iterator takes them.
abbrev pub slice : {E : Type 0} → Bytes → ℕ → ℕ → Outcome E Bytes
slice bytes begin count =
    if leb (begin + count) (length bytes) then ok (take count (drop begin bytes)) else out_of_bounds

abbrev pub advance : Reader → ℕ → Reader
advance r count = record r { offset = r.offset + count }

unfoldable pub read_u8 : Reader → Outcome Reader (ℕ × Reader)
unfolding remaining
read_u8 r = do
  refuse_if (ltb (remaining r) 1) r
  value ← byte_at r.bytes r.offset
  ok (value, advance r 1)

unfoldable pub read_u16 : Reader → Outcome Reader (ℕ × Reader)
unfolding remaining
read_u16 r = do
  refuse_if (ltb (remaining r) 2) r
  high ← byte_at r.bytes r.offset
  low ← byte_at r.bytes (r.offset + 1)
  ok (bit_or (high * 2 ^ 8) low % 2 ^ 16, advance r 2)

unfoldable pub read_u32 : Reader → Outcome Reader (ℕ × Reader)
unfolding remaining
read_u32 r = do
  refuse_if (ltb (remaining r) 4) r
  b3 ← byte_at r.bytes r.offset
  b2 ← byte_at r.bytes (r.offset + 1)
  b1 ← byte_at r.bytes (r.offset + 2)
  b0 ← byte_at r.bytes (r.offset + 3)
  ok (
    bit_or (bit_or (bit_or (b3 * 2 ^ 24 % 2 ^ 32) (b2 * 2 ^ 16 % 2 ^ 32)) (b1 * 2 ^ 8 % 2 ^ 32)) b0,
    advance r 4,
  )

unfoldable pub read_bytes : Reader → ℕ → Outcome Reader (Bytes × Reader)
unfolding remaining
read_bytes r count = do
  refuse_if (ltb (remaining r) count) r
  output ← slice r.bytes r.offset count
  ok (output, advance r count)

unfoldable pub skip : Reader → ℕ → Outcome Reader Reader
unfolding remaining
skip r count = do refuse_if (ltb (remaining r) count) r; ok (advance r count)

pub record Writer : Type 0 where
  pub maximum_size : ℕ
  pub bytes : Bytes

abbrev pub new_writer : ℕ → Writer
new_writer maximum_size = record { maximum_size = maximum_size; bytes = [] }

can_append : Writer → ℕ → Bool
can_append w count =
    leb (length w.bytes) w.maximum_size && leb count (w.maximum_size - length w.bytes)

abbrev pub push : Writer → Bytes → Writer
push w more = record w { bytes = w.bytes ++ more }

abbrev pub u16_bytes : ℕ → Bytes
u16_bytes value = bit_and (value / 2 ^ 8) 0xff ∷ bit_and value 0xff ∷ []

abbrev pub u32_bytes : ℕ → Bytes
u32_bytes value =
    bit_and (value / 2 ^ 24) 0xff
    ∷ bit_and (value / 2 ^ 16) 0xff
    ∷ bit_and (value / 2 ^ 8) 0xff
    ∷ bit_and value 0xff
    ∷ []

unfoldable pub write_u8 : Writer → ℕ → Option Writer
unfolding can_append
write_u8 w value = if can_append w 1 then some (push w (value ∷ [])) else none

unfoldable pub write_u16 : Writer → ℕ → Option Writer
unfolding can_append
write_u16 w value = if can_append w 2 then some (push w (u16_bytes value)) else none

unfoldable pub write_u32 : Writer → ℕ → Option Writer
unfolding can_append
write_u32 w value = if can_append w 4 then some (push w (u32_bytes value)) else none

unfoldable pub write_bytes : Writer → Bytes → Option Writer
unfolding can_append
write_bytes w bytes = if can_append w (length bytes) then some (push w bytes) else none
