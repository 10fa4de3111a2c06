-- ===== src/Cache/Examples.antt =====
-- Runs of the cache and its policy: the address of x is 10.0.0.1 for a minute.
use dns_pro.Base.{
  ℕ, ◌≡◌, refl, ◌↔◌, ◌⊎◌, ◌+◌, ◌*◌, ◌/◌, ◌≤◌, true, none, some, List, [], ◌∷◌, bytes_eq, length,
  arith, if◌then◌else◌, leb, ok, err, ◌>>=◌, Ensures,
}
use dns_pro.Protocol.DomainName.{same_name, key_of}
use dns_pro.Protocol.Response.{same_question}
use dns_pro.Protocol.DomainName.Valid.{named}
use dns_pro.Protocol.Message.{Question, ResourceRecord, Message}
use dns_pro.Protocol.Writer.{default_header}
use dns_pro.Cache.Policy.{
  CacheableAddressSet, v4, cacheable_address_set, cacheable_address_set_iff, IsCacheable,
  address_set, collect_answers, answer_address, IpAddress,
}
use dns_pro.Cache.Shard.{
  CacheKey, CacheShard, new_shard, get, put, size, nanoseconds, remaining_seconds,
}
use dns_pro.Cache.Shard.Invariant.{IsShard, new_shard-IsShard}
use dns_pro.Cache.Shard.Lookup.{peek}
use dns_pro.Cache.Shard.Put.{WasPut, put-WasPut, stored_of}
use dns_pro.Cache.Shard.Runs.{
  Operation, getting, putting, operate_all, latest_all, nothing_yet, operate_all-new_shard, get-put,
}
use dns_pro.Cache.Shards.{
  DnsCache, new_cache, invalid_argument, sum_capacities, IsEven, new_cache_lem,
}

abbrev asked : Question
asked = record { name = named ((b'x' ∷ []) ∷ []); qtype = 1; question_class = 1 }

abbrev answered_with : ResourceRecord
answered_with = record {
  name = named ((b'X' ∷ []) ∷ []);
  rtype = 1;
  record_class = 1;
  ttl = 60;
  rdata_offset = 31;
  rdata = 10 ∷ 0 ∷ 0 ∷ 1 ∷ [];
}

abbrev upstream_answer : Message
upstream_answer = record {
  header = record default_header { is_response = true };
  questions = asked ∷ [];
  answers = answered_with ∷ [];
  authorities = [];
  additionals = [];
  wire_image = [];
}

abbrev cached : CacheableAddressSet
cached = record { addresses = v4 (10 ∷ 0 ∷ 0 ∷ 1 ∷ []) ∷ []; ttl = 60 }

cacheable_address_set_iff_example :
    (cacheable_address_set upstream_answer asked ≡ some cached)
    ↔ (IsCacheable upstream_answer asked × (cached ≡ address_set upstream_answer))
cacheable_address_set_iff_example = cacheable_address_set_iff upstream_answer asked cached

cacheable_address_set-cached : cacheable_address_set upstream_answer asked ≡ some cached
unfolding cacheable_address_set same_question same_name bytes_eq key_of collect_answers
    answer_address
cacheable_address_set-cached = refl

abbrev key_x : CacheKey
key_x = record { qname = 1 ∷ b'x' ∷ []; qtype = 1; qclass = 1 }

abbrev key_y : CacheKey
key_y = record { qname = 1 ∷ b'y' ∷ []; qtype = 1; qclass = 1 }

abbrev one_address : List IpAddress
one_address = v4 (10 ∷ 0 ∷ 0 ∷ 1 ∷ []) ∷ []

abbrev small : CacheShard
small = new_shard 1

put-WasPut_example :
    Ensures (WasPut small key_x (stored_of one_address 60 7)) (put small key_x one_address 60 7)
put-WasPut_example = put-WasPut small key_x one_address 60 7 (new_shard-IsShard 1)

-- Two puts into a shard with room for one, so that the second takes the slot.
abbrev two_puts : List Operation
two_puts = putting key_x one_address 60 7 ∷ putting key_y one_address 60 8 ∷ getting key_x 9 ∷ []

operate_all-new_shard_example :
    Ensures
      (λ shard.
        (size shard ≤ 1)
        × IsShard shard
        × ((key : CacheKey)
            → (peek shard key ≡ latest_all two_puts nothing_yet key) ⊎ (peek shard key ≡ none)))
      (operate_all two_puts (new_shard 1))
operate_all-new_shard_example = operate_all-new_shard 1 two_puts

get-put_example :
    Ensures
      (λ r. r.0 ≡ (
        if leb (7 + 60 * nanoseconds) 9
        then none
        else some (record {
          addresses = one_address;
          remaining_ttl = remaining_seconds (7 + 60 * nanoseconds) 9;
        })))
      (put small key_x one_address 60 7 >>= λ after. get after key_x 9)
get-put_example =
    get-put small key_x one_address 60 7 9 (new_shard-IsShard 1) (omega arith) (omega arith)
      (omega arith)

abbrev workers : ℕ
workers = 3

new_cache_lem_example :
    ((workers ≡ 0) × (new_cache 10 workers ≡ err invalid_argument))
    ⊎ ((cache : DnsCache) × (new_cache 10 workers ≡ ok cache)
        × (length cache.shards ≡ workers)
        × (sum_capacities cache.shards ≡ 10)
        × IsEven (10 / workers) cache.shards)
new_cache_lem_example = new_cache_lem 10 workers
