-- ===== src/Lib.antt =====
-- DNS_PRO, a filtering DNS forwarder: its wire protocol, its filtering data structures, its cache
-- of answers, the timers of its runtime and the queue of its filter updates.
--
-- A datagram goes through the parser (protocol/DnsParser.cpp) to the check on queries
-- (protocol/DnsQuery.cpp). The name asked for is looked up in the blocklist, whose exact part is a
-- trie of labels (RadixTree.cpp) behind a Cuckoo filter (CuckooFilter.cpp). A name that is not
-- blocked is asked of an upstream server with a query that the writer (protocol/DnsWriter.cpp)
-- made, and the answer is checked against the question (protocol/DnsResponse.cpp). What the policy
-- (CachePolicy.cpp) admits goes into the worker's shard of the cache (DNS_Cache.cpp), which
-- answers until the time to live is over.
--
-- Base               what the models share: Boolean tests and lists over the native numbers
--                    (Base/Tests, Base/Lists, Base/Arrays), the results of fallible code
--                    (Base/Results), bit fields (Base/Bits). An `Outcome` is a value, an error of
--                    the source, an access outside of a buffer, or a loop that ran out of fuel.
-- Protocol/Wire      protocol/Wire.h: WireReader is Reader, WireWriter is Writer, and each member
--                    function has its name. A slice that reaches outside of its bytes is an access
--                    outside of a buffer.
-- Protocol/DomainName  protocol/DomainName.h and .cpp: from_text, from_labels, to_string,
--                    to_canonical_string, canonical_suffix_key, canonical_label, is_subdomain_of;
--                    operator== is same_name. DomainName/Valid is about accepted names,
--                    DomainName/Presentation about text, DomainName/Case about the case of letters,
--                    DomainName/Canonical about keys and equality.
-- Protocol/Message   protocol/DnsMessage.h and the types of protocol/DnsParser.h.
-- Protocol/NameDecoder, Protocol/RecordParser, Protocol/Parser
--                    protocol/DnsParser.cpp: decode_name, parse_resource_record and parse_message.
--                    Each has a child module Total, about termination, bounds and the form of the
--                    result, and RoundTrip, about what the writer writes.
-- Protocol/Writer    protocol/DnsWriter.h and .cpp. Writer/Layout is the layout of a message,
--                    Writer/Flags the flags word.
-- Protocol/Query, Protocol/Response  protocol/DnsQuery.* and protocol/DnsResponse.*.
-- Filter/RadixTree   RadixTree.h and .cpp. A node's children are an association list in place of
--                    the unordered map. RadixTree/Paths is about paths, RadixTree/Rules about
--                    domains.
-- Filter/Cuckoo      CuckooFilter.h and .cpp. Cuckoo/Index is about the two buckets of an item,
--                    Cuckoo/Buckets about one write, Cuckoo/Kicks and Cuckoo/Insert about accepted
--                    insertions and Cuckoo/Refused about refused ones. Their tables have 2 ^ k
--                    buckets of four slots.
-- Filter/Blocklist   DomainBlocklist.h and .cpp: build is collect_rules and build_loop, which makes
--                    candidates until the prefilter takes all keys. stop_requested() is a function
--                    of the number of calls made.
-- Cache/Policy       CachePolicy.h and .cpp: which upstream responses the cache takes.
-- Cache/Shard        CacheShard of DNS_Cache.h and .cpp: get and put with its overload. The
--                    unordered map is an association list. Shard/Invariant is the agreement of
--                    index and slots, Shard/Lookup is about get, Shard/Stored and Shard/Clock about
--                    replaced slots and the hand, Shard/Put about put, Shard/Runs about sequences.
-- Cache/Shards       DNS_Cache of DNS_Cache.h and .cpp: the constructor and shard.
-- Runtime/TimerQueue  runtime/TimerQueue.h and .cpp: TimerQueue and its heap of registrations. A
--                    registration lies in a store under its address; its owner is no queue, this
--                    queue or another one. A callback answers as a parameter of the model does, by
--                    the calls made so far, and leaves the queue alone, as the header of the source
--                    asks. The field calls, which the code has not, records each call with its
--                    callback, context and completion. TimerQueue/Arming and TimerQueue/Expiry have
--                    its later operations. TimerQueue/Order is about heaps of keys,
--                    TimerQueue/Nodes about swaps, TimerQueue/Sift about sifting, TimerQueue/Remove
--                    and TimerQueue/Detach about remove_at, TimerQueue/Leave about disarm and the
--                    destructor, TimerQueue/Arm about arm, TimerQueue/Front about the next timer,
--                    TimerQueue/Calls about lists of calls, TimerQueue/Completed and
--                    TimerQueue/Completion about timers that are completed, TimerQueue/Dispatch
--                    about expire and cancel_all, TimerQueue/Wait about wait_timeout and sleep_for,
--                    and TimerQueue/Lifecycle about sequences of operations. A time point is its
--                    distance from the least one, and an overflow of signed words is an error.
-- Service/FilterUpdates  FilterUpdateController.h and .cpp: validate_filter_rule_set, the
--                    constructor, submit_replace, the rounds of run, seal and
--                    request_terminal_detach, each as its critical section with the promises that
--                    it answers next to it, outside of the lock. What apply answers, and whether it
--                    has committed by then, are arguments, and the answers that promises were given
--                    are a list. FilterUpdates/Rules is about the limits, FilterUpdates/Queue about
--                    the queue and its invariant, FilterUpdates/Submit about what is queued, and
--                    FilterUpdates/Promises about sequences of critical sections.
--
-- Numbers are natural numbers; the wrap-around of a word is written as a remainder. std::expected
-- is an `Outcome`, a byte is a number below 256, and a string is the list of its bytes. Sizes of
-- buffers in memory are taken to be below 2 ^ 64, so sums of offsets do not wrap.
--
-- Fuel: decode_name's loop has 255 rounds, since each label adds two or more to a size that stays
-- within 255, one for each pointer that the limits allow, and one more. The loop over character
-- strings has a round for each byte of the data and one more. The doubling in bit_ceil has the 63
-- steps to 2 ^ 63, its largest argument. build_loop has 65 rounds, since the count doubles in each
-- and the loop ends above half of 2 ^ 64. The loop of the cache's hand has a round for each slot and
-- one more, since each slot that the hand passes loses its chance. A timer goes up by as many levels
-- as its index at most, and the loops of the timer queue have a round for each timer and one more.
--
-- Not modelled: memory allocation and its failures (with buckets_.max_size() in CuckooFilter.cpp),
-- the overflow of a time of expiry beyond the last time point of the clock in DNS_Cache.cpp, the
-- stop of a build and of the publication by seal, and its sealed_acknowledged_, the hash xxHash (a
-- parameter of the filter), threads, sockets and the event loop (WorkerLoop.cpp,
-- WorkerSupervisor.cpp, DNS.cpp), the coroutines of the runtime (SleepAwaiter and the rest of
-- runtime/), the upstream channel (upstream/), and the publication of filters
-- (FilterPublication.cpp, and apply and finish_run of FilterUpdateController.cpp).
pub mod Base
pub mod Protocol
pub mod Filter
pub mod Cache
pub mod Runtime
pub mod Service
