-- ===== src/Protocol/Wire/Reads.antt =====
-- WireReader: no read leaves the span, and a read gives back what stands at its offset.
use dns_pro.Base.{
  ℕ, zero, suc, ◌+◌, ◌≤◌, ◌<◌, ◌≡◌, refl, some, List, [], ◌∷◌, arith, length, get_elem?, take, drop,
  length-take, length-drop, Ensures,
}
use dns_pro.Protocol.Wire.{Reader, read_u16, read_u32, read_bytes}

pub get_elem?-lt {ℓ} :
    {A : Type ℓ} (xs : List A) (i : ℕ) → i < length xs → (a : A) × (get_elem? xs i ≡ some a)
get_elem?-lt [] i h = absurd (omega arith)
get_elem?-lt (x ∷ xs) zero h = (x, refl)
get_elem?-lt (x ∷ xs) (suc i) h = get_elem?-lt xs i (omega arith)

-- What a read leaves: the same span, and an offset that it has moved and that lies inside.
pub record Moved (r : Reader) (count : ℕ) (r' : Reader) : Type 0 where
  pub same_bytes : r'.bytes ≡ r.bytes
  pub moved : r'.offset ≡ r.offset + count
  pub inside : r'.offset ≤ length r.bytes

module _ (r : Reader) where
  pub read_u16-Moved : Ensures (λ result. Moved r 2 result.1) (read_u16 r)
  unfolding read_u16
  read_u16-Moved =
      ground (arith, get_elem?-lt r.bytes r.offset, get_elem?-lt r.bytes (r.offset + 1))

  pub read_u32-Moved : Ensures (λ result. Moved r 4 result.1) (read_u32 r)
  unfolding read_u32
  read_u32-Moved = ground (
    arith,
    get_elem?-lt r.bytes r.offset,
    get_elem?-lt r.bytes (r.offset + 1),
    get_elem?-lt r.bytes (r.offset + 2),
    get_elem?-lt r.bytes (r.offset + 3),
  )

  -- The bytes are the slice at the offset.
  pub read_bytes-Moved :
      (count : ℕ)
      → r.offset ≤ length r.bytes
      → Ensures
          (λ result.
            Moved r count result.1
            × (result.0 ≡ take count (drop r.offset r.bytes))
            × (length result.0 ≡ count))
          (read_bytes r count)
  unfolding read_bytes
  read_bytes-Moved count h =
      ground (arith, length-take count (drop r.offset r.bytes), length-drop r.offset r.bytes)
