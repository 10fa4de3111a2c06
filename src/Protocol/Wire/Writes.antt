-- ===== src/Protocol/Wire/Writes.antt =====
-- WireWriter as an all-or-nothing append: a chain of writes is one write of all the bytes.
use dns_pro.Base.{
  ℕ, ◌+◌, ◌≡◌, refl, [], ◌∷◌, ◌++◌, append_assoc, Option, none, some, leb, if◌then◌else◌, length,
  length-append, arith,
}
use dns_pro.Protocol.Wire.{
  Bytes, Writer, push, u16_bytes, u32_bytes, write_u8, write_u16, write_u32, write_bytes,
}

infixl 5 ◌>>=◌
abbrev pub ◌>>=◌ {ℓ κ} : {A : Type ℓ} {B : Type κ} → Option A → (A → Option B) → Option B
none >>= f = none
some a >>= f = f a

pub write_bytes_lem :
    (w : Writer) (bytes : Bytes)
    → write_bytes w bytes
      ≡ (if leb (length w.bytes + length bytes) w.maximum_size then some (push w bytes) else none)
unfolding write_bytes
write_bytes_lem w bytes = ground arith

pub write_bytes-append :
    (w : Writer) (xs ys : Bytes)
    → (write_bytes w xs >>= λ w'. write_bytes w' ys) ≡ write_bytes w (xs ++ ys)
write_bytes-append w xs ys = ground (
  arith,
  write_bytes_lem w xs,
  write_bytes_lem w (xs ++ ys),
  write_bytes_lem (push w xs) ys,
  length-append xs ys,
  length-append w.bytes xs,
  append_assoc w.bytes xs ys,
)

pub write_u8-bytes : (w : Writer) (v : ℕ) → write_u8 w v ≡ write_bytes w (v ∷ [])
unfolding write_u8 write_bytes
write_u8-bytes w v = refl

pub write_u16-bytes : (w : Writer) (v : ℕ) → write_u16 w v ≡ write_bytes w (u16_bytes v)
unfolding write_u16 write_bytes
write_u16-bytes w v = refl

pub write_u32-bytes : (w : Writer) (v : ℕ) → write_u32 w v ≡ write_bytes w (u32_bytes v)
unfolding write_u32 write_bytes
write_u32-bytes w v = refl
