-- ===== src/Protocol/Wire/RoundTrip.antt =====
-- Reading back the integers and byte strings that WireWriter appends.
use dns_pro.Base.{
  ℕ, suc, ◌+◌, ◌*◌, ◌/◌, ◌%◌, ◌^◌, ◌<◌, ◌≡◌, refl, sym, ◌∙◌, ap, List, [], ◌∷◌, ◌++◌, append_assoc,
  some, length, length-append, get_elem?, take, drop, drop-append, take-append, ok, arith, bit_and,
  bit_or,
}
use dns_pro.Base.Bits.{bit_and_low, bit_or_disjoint}
use dns_pro.Protocol.Wire.{
  Bytes, Reader, start_at, advance, read_u16, read_u32, read_bytes, u16_bytes, u32_bytes,
}

pub get_elem?-append {ℓ} :
    {A : Type ℓ} (xs ys : List A) (i : ℕ) → get_elem? (xs ++ ys) (length xs + i) ≡ get_elem? ys i
get_elem?-append [] ys i = ap (get_elem? ys) (omega arith)
get_elem?-append (x ∷ xs) ys i =
    ap (get_elem? (x ∷ (xs ++ ys)))
      (let e : suc (length xs) + i ≡ suc (length xs + i) = omega arith in e)
    ∙ get_elem?-append xs ys i

-- The reader after a front that has been read.
abbrev pub behind : Bytes → Bytes → Reader
behind front rest = start_at (front ++ rest) (length front)

pub behind-append :
    (front xs rest : Bytes)
    → advance (behind front (xs ++ rest)) (length xs) ≡ behind (front ++ xs) rest
behind-append front xs rest = rw (append_assoc front xs rest, length-append front xs)

low_byte : (v : ℕ) → bit_and v 0xff ≡ v % 256
low_byte v = bit_and_low 8 v

join_two : (x y : ℕ) → y < 256 → bit_or (x * 2 ^ 8) y ≡ x * 256 + y
join_two x y h = bit_or_disjoint 8 (x * 2 ^ 8) y (omega arith) (omega arith)

pub join_u16 :
    (v : ℕ) → v < 2 ^ 16 → bit_or (bit_and (v / 2 ^ 8) 0xff * 2 ^ 8) (bit_and v 0xff) % 2 ^ 16 ≡ v
join_u16 v h =
    rw (low_byte (v / 2 ^ 8), low_byte v, join_two (v / 2 ^ 8 % 256) (v % 256) (omega arith))
      (omega arith)

join_four :
    (b3 b2 b1 b0 : ℕ)
    → b3 < 256
    → b2 < 256
    → b1 < 256
    → b0 < 256
    → bit_or
        (bit_or (bit_or (b3 * 2 ^ 24 % 2 ^ 32) (b2 * 2 ^ 16 % 2 ^ 32)) (b1 * 2 ^ 8 % 2 ^ 32))
        b0
      ≡ b3 * 2 ^ 24 + b2 * 2 ^ 16 + b1 * 2 ^ 8 + b0
join_four b3 b2 b1 b0 h3 h2 h1 h0 = ground (
  arith,
  bit_or_disjoint 24 (b3 * 2 ^ 24 % 2 ^ 32) (b2 * 2 ^ 16 % 2 ^ 32) (omega arith) (omega arith),
  bit_or_disjoint 16 (b3 * 2 ^ 24 % 2 ^ 32 + b2 * 2 ^ 16 % 2 ^ 32) (b1 * 2 ^ 8 % 2 ^ 32)
      (omega arith) (omega arith),
  bit_or_disjoint 8 (b3 * 2 ^ 24 % 2 ^ 32 + b2 * 2 ^ 16 % 2 ^ 32 + b1 * 2 ^ 8 % 2 ^ 32) b0
      (omega arith) (omega arith),
)

join_u32 :
    (v : ℕ)
    → v < 2 ^ 32
    → bit_or
        (bit_or
          (bit_or
            (bit_and (v / 2 ^ 24) 0xff * 2 ^ 24 % 2 ^ 32)
            (bit_and (v / 2 ^ 16) 0xff * 2 ^ 16 % 2 ^ 32))
          (bit_and (v / 2 ^ 8) 0xff * 2 ^ 8 % 2 ^ 32))
        (bit_and v 0xff)
      ≡ v
join_u32 v h =
    rw
      (
        low_byte (v / 2 ^ 24),
        low_byte (v / 2 ^ 16),
        low_byte (v / 2 ^ 8),
        low_byte v,
        join_four (v / 2 ^ 24 % 256) (v / 2 ^ 16 % 256) (v / 2 ^ 8 % 256) (v % 256) (omega arith)
            (omega arith) (omega arith) (omega arith),
      )
      (omega arith)

pub read_u16-u16_bytes :
    (front rest : Bytes) (v : ℕ)
    → v < 2 ^ 16
    → read_u16 (behind front (u16_bytes v ++ rest)) ≡ ok (v, behind (front ++ u16_bytes v) rest)
unfolding read_u16
read_u16-u16_bytes front rest v h = ground (
  arith,
  get_elem?-append front (u16_bytes v ++ rest) 0,
  get_elem?-append front (u16_bytes v ++ rest) 1,
  length-append front (u16_bytes v ++ rest),
  join_u16 v h,
  behind-append front (u16_bytes v) rest,
)

pub read_u32-u32_bytes :
    (front rest : Bytes) (v : ℕ)
    → v < 2 ^ 32
    → read_u32 (behind front (u32_bytes v ++ rest)) ≡ ok (v, behind (front ++ u32_bytes v) rest)
unfolding read_u32
read_u32-u32_bytes front rest v h = ground (
  arith,
  get_elem?-append front (u32_bytes v ++ rest) 0,
  get_elem?-append front (u32_bytes v ++ rest) 1,
  get_elem?-append front (u32_bytes v ++ rest) 2,
  get_elem?-append front (u32_bytes v ++ rest) 3,
  length-append front (u32_bytes v ++ rest),
  join_u32 v h,
  behind-append front (u32_bytes v) rest,
)

pub read_bytes-append :
    (front xs rest : Bytes)
    → read_bytes (behind front (xs ++ rest)) (length xs) ≡ ok (xs, behind (front ++ xs) rest)
unfolding read_bytes
read_bytes-append front xs rest =
    rw (drop-append front (xs ++ rest), take-append xs rest)
      (ground (
        arith,
        length-append front (xs ++ rest),
        length-append xs rest,
        behind-append front xs rest,
      ))

drop_past :
    (front : Bytes) (x : ℕ) (rest : Bytes) → drop (length front + 1) (front ++ x ∷ rest) ≡ rest
drop_past [] x rest = refl
drop_past (y ∷ front) x rest =
    ap (λ (n : ℕ). drop n (y ∷ (front ++ x ∷ rest)))
      (let e : suc (length front) + 1 ≡ suc (length front + 1) = omega arith in e)
    ∙ drop_past front x rest

module _ (packet front : Bytes) (x : ℕ) (i : ℕ) (at : i ≡ length front) where
  pub get_elem?-at : (rest : Bytes) → packet ≡ front ++ x ∷ rest → get_elem? packet i ≡ some x
  get_elem?-at rest e =
      rw (e, at)
        (ap (get_elem? (front ++ x ∷ rest))
            (let z : length front ≡ length front + 0 = omega arith in z)
          ∙ get_elem?-append front (x ∷ rest) 0)

  pub slice-at :
      (xs rest : Bytes)
      → packet ≡ front ++ x ∷ (xs ++ rest)
      → take (length xs) (drop (i + 1) packet) ≡ xs
  slice-at xs rest e = rw (e, at, drop_past front x (xs ++ rest)) (take-append xs rest)

-- The same reads at an offset of a packet that is known by an equation.
module _ (packet front : Bytes) (i : ℕ) (at : i ≡ length front) where
  pub read_u16-at :
      (v : ℕ) (rest : Bytes)
      → v < 2 ^ 16
      → packet ≡ front ++ (u16_bytes v ++ rest)
      → read_u16 (start_at packet i) ≡ ok (v, start_at packet (i + 2))
  read_u16-at v rest h e =
      rw (e, at)
        (read_u16-u16_bytes front rest v h
          ∙ ap (λ r. ok (v, r)) (sym (behind-append front (u16_bytes v) rest)))
