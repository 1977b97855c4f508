-- ===== src/Lib.antt =====
-- Skipper is an HTTP router and reverse proxy. Its routes come from data clients as eskip text; the
-- routing package turns them into route tables, which find a route by the path (pathmux) and by
-- predicates; the proxy runs the filters of the route and forwards the request to an endpoint. What
-- protects the proxy and the endpoints from overload works beside this path: the queue listener
-- between the network and the HTTP server, the scheduler's queues and the circuit breakers, which
-- filters and the proxy ask before they let a request through.
--
-- This library models the route language with its lexer, printer and canonical form, the matcher of
-- routing over the tree of pathmux, the choice of an endpoint, these guards, the storage of the cache
-- filter and a predicate. The matcher builds its tree with Pathmux.Add and looks up with
-- Pathmux.Search; the other parts work on their own state and meet in the proxy, which is not
-- modelled. A call under a lock is one step.
--
-- Prelude: native numbers and their tests, lists, options, integers, association lists for maps, byte
--   strings, and sorting.
--
-- Eskip (eskip/): the route language, on byte strings.
--   Eskip.Lexer: eskip/lexer.go, every scanner; State has eskipLex with next, Lex and Error. The
--     fuel of next is one more than the length of the code, of which each comment takes a byte.
--   Eskip.Printer: eskip/string.go, escape, argsString and the functions up to Fprint. Literals and
--     Tokens read what is printed with the lexer. Formatting floats is a parameter.
--   Eskip.Route and Eskip.Definition: eskip/eskip.go, the types of routes, and newRouteDefinition
--     with applyPredicates and getStringArgs, from what the generated parser returns.
--   Eskip.Canonical: eskip/eq.go, Canonical and CanonicalList, and eskip/copy.go. sort.Slice, which
--     may exchange equal elements, is a parameter that keeps how often each element occurs. A list
--     of legacy headers stands for a map, in the order in which a call ranges over it.
--
-- Routing.Matcher (routing/matcher.go): the leaves with their conditions; Paths normalizes the paths of
--   routes, with a fuel of one more than the length of the path; Build has newLeaf and newMatcher,
--   and Found has matchPathTree and match. Leaves relates the leaves to the routes. The value that the
--   tree has for a path is the number of its leaves. Regular expressions, the cleaning of paths, the
--   predicates and the order of the map of path matchers are parameters.
--
-- LoadBalancer (loadbalancer/algorithm.go): the algorithms that choose an endpoint.
--   LoadBalancer.RoundRobin and LoadBalancer.PowerOfChoices: roundRobin, and powerOfRandomNChoices
--     with its random source as a parameter. The int64 index is the number of its 64 bits.
--   LoadBalancer.ConsistentHash: consistentHash, newConsistentHash with its ring, search,
--     boundedLoadSearch and Apply. The hash, the sort, which takes Less and stands for Swap, too, and
--     the operations of float64 are parameters.
--     The loops over the ring have its length as fuel: where the loop of searchRing has passed all
--     entries, it is at one that it has seen before, and does not return.
--
-- Filters.Cache (filters/cache/): the storage of the cache filter.
--   Filters.Cache.Shard: filters/cache/lru.go, lruShard. The map holds addresses of list elements;
--     Agree has the invariant between the two, and Refine the entries by their last use. The loop
--     that evicts takes the number of elements and one as fuel.
--   Filters.Cache.Storage: filters/cache/lru.go, ShardedByteLRU, and filters/cache/lru_storage.go. The
--     hash and the encoding of entries are parameters.
--
-- Circuit (circuit/): the breakers by host and settings.
--   Circuit.Sampler: circuit/binarysampler.go, newBinarySampler, tick, shift and highestSet. A frame
--     is a number below 2^64. Bits, Window, Seen and Count relate the frames to the events seen.
--   Circuit.Settings: circuit/breaker.go, BreakerSettings and mergeSettings.
--   Circuit.Breaker: circuit/breaker.go, circuit/consecutivebreaker.go and circuit/ratebreaker.go,
--     newBreaker, Allow, readyToTrip and countRate, over the two-step breaker of
--     github.com/sony/gobreaker as a parameter.
--   Circuit.Registry: circuit/registry.go, NewRegistry, mergeDefaults, dropIdle, get and Get. A
--     breaker is known by a number that counts how many were made before it.
--
-- QueueListener (queuelistener/): the listener that queues connections.
--   QueueListener.Ring: queuelistener/ring.go, every function; Deque and Range give its contract as
--     a list.
--   QueueListener.Listener: queuelistener/listener.go, listenInternal. One round of its loop is one
--     step, by the case of the select that is taken; View has the same steps on a list. The loop
--     over overdue connections takes the size of the queue as fuel, and each round makes the queue
--     shorter. Accept, which reads the channels that the loop offers, is not modelled.
--   QueueListener.Options: queuelistener/listener.go, listenWith with maxConcurrency and
--     maxQueueSize, bounce, and the rounds of listenExternal.
--
-- Scheduler (scheduler/scheduler.go): the queues of the fifo and lifo filters.
--   Scheduler.Preprocessor: registryPreProcessor.Do.
--   Scheduler.Fifo: fifoQueue, wait, status, reconfigure and close. Each access of a waiting request
--     to what is shared is a step, so that requests interleave in every way. The weighted semaphore
--     of golang.org/x/sync is a parameter, with what it documents as laws.
--   Scheduler.Pool and Scheduler.Registry: Registry, getFifoQueue, getQueue, deleteUnused, Do and
--     Close; the LIFO queue of github.com/aryszka/jobqueue is a parameter. Scheduler.Registry's
--     `fifo_kind` fills the interface `Kind` with the operations of Scheduler.Fifo.
--   Scheduler.Filter: filters/scheduler/fifo.go, CreateFilter, Request and Response of the fifo
--     filter.
--
-- Pathmux (pathmux/tree.go): the tree that finds values by the path.
--   Pathmux.Search: search and LookupMatcher, with url.QueryUnescape; Entries has the patterns that a
--     tree holds.
--   Pathmux.Add: Add, addPath, splitCommonPrefix and sortStaticChild; the fuel of addPath is the
--     length of the path, of which each call takes at least a byte, and a call without fuel returns
--     an error of its own. Patterns reads from the text of a path what it stands for, and
--     Search.Values has the tree as a map from such patterns to values.
--
-- Predicates.ContentLength: predicates/content/content_length_between.go, Create and Match.
--
-- Metrics, logs and test hooks are left out everywhere. Not modelled are the parser of eskip, which is
-- generated, Eq and EqLists of eskip, which compare floats and pointers and depend on the order of
-- maps, Lookup of pathmux, whose matcher takes nil, the Close of a connection after the
-- listener has quit, the route tables, the weighted algorithms of the load balancer, the rate limits, the other predicates, most
-- filters, the data clients and the proxy itself.
pub mod Circuit
pub mod Eskip
pub mod Filters
pub mod LoadBalancer
pub mod Pathmux
pub mod Predicates
pub mod Prelude
pub mod QueueListener
pub mod Routing
pub mod Scheduler
