-- ===== src/Filter/Cuckoo/Index.antt =====
-- The two buckets of a fingerprint: the alternate of the alternate is the first, and both are
-- indices of the table, whose size is a power of two.
use dns_pro.Base.{ℕ, zero, suc, ◌^◌, ◌≤◌, ◌<◌, ◌≡◌, arith, length}
use native.Mathlib.Nat.{one-le-pow, pow-suc}
use dns_pro.Base.Bits.{bit_and_low, bit_xor_cancel, bit_xor-lt}
use dns_pro.Protocol.Wire.{Bytes}
use dns_pro.Filter.Cuckoo.{alternate_index, calc_fp, splitmix64, index_of, CuckooFilter}

pub alternate_index_twice :
    (bucket_count index fingerprint : ℕ)
    → alternate_index bucket_count (alternate_index bucket_count index fingerprint) fingerprint
      ≡ index
unfolding alternate_index
alternate_index_twice bucket_count index fingerprint = bit_xor_cancel index _

two-le-pow : (k : ℕ) → 0 < k → 2 ≤ 2 ^ k
two-le-pow zero h = absurd (omega arith)
two-le-pow (suc k) h = omega (arith, pow-suc 2 k, one-le-pow k 2)

pub alternate_index-lt :
    (k index fingerprint : ℕ)
    → 0 < k
    → index < 2 ^ k
    → alternate_index (2 ^ k) index fingerprint < 2 ^ k
unfolding alternate_index
alternate_index-lt k index fingerprint pos h =
    bit_xor-lt k index _ h
      (ground (arith, two-le-pow k pos, bit_and_low k (splitmix64 fingerprint)))

pub index_of-lt :
    (hash : Bytes → ℕ) (f : CuckooFilter) (k : ℕ) (item : Bytes)
    → length f.buckets ≡ 2 ^ k
    → index_of hash f item < 2 ^ k
unfolding index_of
index_of-lt hash f k item e = rw e (omega (arith, bit_and_low k (hash item), one-le-pow k 2))

pub calc_fp_pos : (hash : ℕ) → 0 < calc_fp hash
unfolding calc_fp
calc_fp_pos hash = omega arith

calc_fp-lt : (hash : ℕ) → calc_fp hash < 2 ^ 16
unfolding calc_fp
calc_fp-lt hash = omega arith

-- In a table of 2 ^ k buckets, both buckets of an item are inside of the table, and each is the
-- alternate of the other for the item's fingerprint, which is never the mark of an empty slot.
pub index_of-alternate_index :
    (hash : Bytes → ℕ) (f : CuckooFilter) (k : ℕ) (item : Bytes)
    → 0 < k
    → length f.buckets ≡ 2 ^ k
    → (let index1 = index_of hash f item in
        let fingerprint = calc_fp (hash item) in
        let index2 = alternate_index (length f.buckets) index1 fingerprint in
        (index1 < length f.buckets)
        × (index2 < length f.buckets)
        × (alternate_index (length f.buckets) index2 fingerprint ≡ index1)
        × (0 < fingerprint)
        × (fingerprint < 2 ^ 16))
index_of-alternate_index hash f k item pos e =
    let inside = index_of-lt hash f k item e in
    rw e (
      inside,
      alternate_index-lt k (index_of hash f item) (calc_fp (hash item)) pos inside,
      alternate_index_twice (2 ^ k) (index_of hash f item) (calc_fp (hash item)),
      calc_fp_pos (hash item),
      calc_fp-lt (hash item),
    )
