-- ===== src/Lib.antt =====
-- Verification library for httplb, an HTTP client for Go with client-side load balancing.
--
-- A client keeps a pool of connections for each target. The resolver reports the addresses of a
-- target; the balancer (balancer.go) makes the pool create and drop connections for them, follows
-- their health through a checker (health/), and gives the pool a picker (picker/) over the
-- connections that are usable; the pool (transport.go) asks the picker for a connection for each
-- request and counts the requests of a connection, so that it is closed after the last of them.
--
-- The files and the code that they model:
--
-- Prelude and its children: lists by position, total maps, tests into Bool, signed integers,
-- words.
--
-- Heap: the package container/heap of Go's library, as functions over an interface of three
-- operations and their laws. Its documented algorithms (up, down, Init, Fix) are written out,
-- since the order that they leave is what the least-loaded picker relies on. Heap/Order,
-- Heap/Down, Heap/Up and Heap/Restore show what they do to a slice that is a heap but for one
-- element.
--
-- Transport/Connection: connection.startRequest, endRequest and close of transport.go. The counter
-- outstandingRequests is a 64-bit word in two's complement (a number below 2 ^ 64); a thread is
-- the point of the code where it stands, and a step is one atomic access (Add, Load,
-- CompareAndSwap, closing the channel, waiting for it). `run` follows a list of thread numbers:
-- any interleaving. Invariant, Return and Stuck are about what such runs reach.
--
-- Transport/Main: mainTransport of transport.go. Each part that holds m.mu is one function on a
-- record of the stored pools, the channels of activity, the goroutines closeWhenIdle and the pools
-- being closed; `run` follows any list of such parts. get_or_create_pool takes what other
-- goroutines do between its two parts as an argument. Two liberties make more happen than the code
-- allows: the part that makes a pool may run at any time, and the warm pools may be collected at
-- any time after the closing. Table has the facts on the map of pools, Cases the rules for the
-- branches of the parts; Invariant, Safety, Kept and Served are about the runs. Transport/Target
-- is the key of that map; Transport/Timeout is the choice of the timeout and of the server's name
-- in getOrCreatePool.
--
-- Transport/Request: transportPool.RoundTrip, connection.RoundTrip and hookReadCloser, with a log
-- of what runs at the end of a request. Finish and Rewrite are about the log and the request sent.
--
-- Client: client.go, the record clientOptions with applyDefaults; Client/Options: the functions
-- With* and the loop of NewClient. Options are functions on the record, as in the code; the data
-- type of Client/Last lists those that the package offers; Defaults, Settings and Configured say
-- what becomes of each setting. Strings, functions and objects are
-- numbers.
--
-- Attribute: attribute/attribute.go, with types and keys as numbers.
--
-- Murmur: internal/murmur3.go, words as numbers below 2 ^ 32, with bit_or and bit_xor of the
-- library. Stream is a reference that takes one byte at a time; Pieces compares Write with it.
--
-- Resolver/Rendezvous: resolver/rendezvous.go over any hash, the number of addresses asked for being
-- an integer and a panic no result; Laws and Loop give the heap of
-- addresses to Heap and follow the loop of computeSubset, Subset is about the result.
-- Resolver/Dns: the address family policy and ResolveOnce of resolver/resolver.go, the lookup and
-- the splitting of ports being arguments. Resolver/Polling: the loop of pollingResolverTask.run;
-- the times at which channels fire are arguments, and a hypothesis says that no timer fires before
-- it is due.
--
-- Transport/Pool: the lists conns and removedConns of a transportPool under NewConn, RemoveConn
-- and connClosed. Transport/Pool/Close: close, next to these, with a log of what it closes,
-- and CloseIdleConnections. Its wait ends with an event of its own, the return of the last close of
-- a connection, which may never come. Counting, Waiting and Once are about calls in any order. Transport/Pool/Serving: UpdatePicker,
-- ResolveNow, getConnection and prewarm. Transport/Main/Retry: the loop of mainTransport.RoundTrip
-- through a list of rounds, each with what others do meanwhile and what the pool answers; the code
-- itself has no bound on the rounds.
--
-- Picker/LeastLoaded: picker/leastloaded.go, the heap of items with acquire, release and update.
-- An item is an address in a store, so that a request which outlives its item still finds it;
-- index is a signed integer, load and tieBreak are 64-bit words. Laws gives the heap operations to
-- Heap; Compact and Append are the two halves of update; Single says that no
-- connection gets two items; Pickers has the two pickers over the
-- heap. Random tie-breaks are arguments, and so is the order in which Go ranges over a map.
--
-- Picker/RoundRobin: picker/roundrobin.go and the pick of picker/random.go; the swaps of
-- rand.Shuffle and the draws of rand.IntN are arguments. Picker/PowerOfTwo: picker/poweroftwo.go,
-- with the loads of shared items in a store.
--
-- Health/State: health/state.go. Health/Polling: health/polling.go, a probe at a time: the state,
-- the counter of results that speak against it, and what the tracker is told. Results are
-- arguments. Thresholds and intervals are natural numbers; the code accepts negative ones and its
-- comments give them no meaning.
--
-- Balancer: balancer.go, the state behind b.mu with newPickerLocked, computeUsableConnsLocked,
-- isWarmLocked, UpdateHealthState and warmedUp; Balancer/Connections: updateConns,
-- initConnInfoLocked, recycle, OnResolve and OnResolveError. Each method holds the lock to its end
-- and is one function from state to state. Connections are known by a number, connInfo is a total
-- map to Option, and the calls of the pool, of health checks and of contexts are logged in order.
-- The picker factory and the pool's NewConn are parameters. A health check is taken to have a
-- closer. The percentages computed with floating-point numbers and math.Round are written with
-- division of natural numbers, which agrees for any number of connections a machine holds. Usable,
-- Sets, Refresh, Serve, Sorting, Logs, Batch and Invariant are about these functions. Balancer/Loop is
-- receiveAddrs with the goroutines that call the balancer in between, one event at a time, and the
-- shutdown at its end; Running is about any list of such events. The pool answers the NewConn
-- calls of a batch by their positions. The equality of two sets of connections is
-- internal/conns/conns.go.
--
-- Balancer/Manager: connManager.reconcileAddresses and doUpdate of balancer.go. connsByAddr is the
-- list of its entries in the order in which `range` visits them, and the theorems hold for each
-- such list; Balancer/Manager/Recycle is recycleConns. Counts, Reconcile and Update are about what
-- is kept, what is connected to, and the result.
--
-- Resolver/MinConns: minConnsReceiver.OnResolve of resolver/min_conns.go, for addresses of any
-- type.
--
-- Bounds and fuel: the loops of Heap take fuel, and are always called with more than the length of
-- the slice, which is enough since an index moves at each round; bits.Len takes its argument as
-- fuel. The counters' theorems ask for fewer than 2 ^ 63 threads, loads for fewer than 2 ^ 64 - 1
-- requests: a process has no more.
--
-- Not modelled: the settings handed on to http.Transport; CloseIdleConnections and prewarm of
-- mainTransport, which only ask each pool; and what only calls Go's libraries (dialling, HTTP,
-- clocks, DNS, contexts). Durations of health checks and of the polling resolver are natural
-- numbers.
pub mod Prelude
pub mod Attribute
pub mod Balancer
pub mod Client
pub mod Health
pub mod Heap
pub mod Murmur
pub mod Picker
pub mod Resolver
pub mod Transport
