-- ===== src/Lib.antt =====
-- shimmy is a ring buffer for one producer and many consumers, a template over its block size,
-- capacity, overflow policy, consumer count and wait strategy (include/shimmy). This library
-- models its components and proves what they promise.
--
-- Config models the template parameters: the tags of include/shimmy/policies.hpp and
-- include/shimmy/wait_strategy.hpp, the static assertions of `Ring` and the slot index `seq &
-- mask`. Config/Index has the arithmetic of the index.
--
-- Ring models `Slot`, `Ring` and the producer's side of include/shimmy/ring.hpp: `init`, `publish`
-- with `await_consumers_past`, and the registration of cursors. Each store of `publish` is a
-- function. An array is a function from its indices, a byte is a number, and a 64-bit counter
-- wraps at 2^64. Ring/Log says what the slots hold when a log of messages has been published;
-- Ring/Publish, Ring/Cursors, Ring/Outcomes and Ring/Registration follow the operations on every
-- branch, and Ring/Claiming lets many consumers claim and give back cursors at once.
--
-- Consumer models the class `Consumer` of the same file. Consumer/Channel is what a channel
-- promises to one reader, as DESIGN.md describes it: the messages in order, of which the last
-- Capacity can still be read. Consumer/Refine compares the methods with it, and Consumer/Lifetime
-- follows the constructors and the destructor.
--
-- System puts a producer and `n` readers to work on one ring, one shared access at a time, in any
-- order: a step relation over the stores of Ring and the statuses of Consumer. The readers run the
-- loop that the comments of `Consumer` prescribe: read, read the bytes of the view, validate,
-- commit, and resync when lapped. System/Invariant states the invariant. System/Growth and
-- System/Stores follow it through the producer's stores, System/Reading and System/Moves through
-- the readers' loads and cursors; System/Producer and System/Reader put the steps together, and
-- System/Reached the reachable states. System/Safety is about what a reader sees, System/Progress
-- about the producer's wait.
--
-- Membership lets the consumers come and go while the producer publishes: the same accesses of the
-- producer and of the readers' loop, and between them those of `register_consumer`, of
-- `attach_consumer_at_current` in include/shimmy/shm_segment.hpp and of `unregister_consumer`, for
-- any number of consumers. Membership/Invariant states the invariant; Membership/Carry,
-- Membership/Touching and Membership/Producer follow it through the producer's steps,
-- Membership/Reading, Membership/Storing, Membership/Showing and Membership/Attending through the
-- consumers'. Membership/Reached has the states that come about, and Membership/Safety what both
-- sides can rely on. Under Backpressure a consumer that starts at message 0 does so before the
-- Capacity-th message, as the contract of `register_consumer` asks. Membership/TurnedAway runs a
-- consumer that finds every cursor taken. Membership/Buffers has the same steps with the store
-- buffers of x86-64, and Membership/Overtaken a run there in which a consumer takes over a cursor
-- that another one has given back.
--
-- StoreOrder takes the same producer and readers to x86-64: the stores of `publish`, `commit` and
-- `resync` wait in the store buffer of their thread and reach memory later, in their order;
-- `memcpy` stores its bytes from the first to the last. The memory orders of
-- include/shimmy/ring.hpp compile to plain loads and stores there. StoreOrder/Ahead and
-- StoreOrder/Drained follow the producer from what memory has to where it is, StoreOrder/Tied ties
-- each state to one of System, StoreOrder/Producing and StoreOrder/Consuming keep the tie along
-- the steps, and StoreOrder/Refine says what the readers can rely on.
--
-- The wait loop of `await_consumers_past` runs on fuel, one unit a round; its theorems speak of
-- every amount of fuel, and a call that is still waiting is a result of its own. The other loops
-- are bounded by the code and are structural recursion. Theorems about sequence numbers ask for
-- fewer than `writing_seq` messages, 2^64 - 2, since the last two numbers are the code's markers.
--
-- System, WaitStrategy/Eventcount and the theorems of Membership are sequentially consistent;
-- StoreOrder, WaitStrategy/StoreBuffer and Membership/Buffers have the store buffers of x86-64,
-- the only target that DESIGN.md names for this phase. Machines with weaker orders are not
-- modelled.
--
-- WaitStrategy models include/shimmy/wait_strategy.hpp and the loop of `read_blocking`, again on
-- fuel. WaitStrategy/Blocking says what the loop returns, and WaitStrategy/Calls which calls of
-- `wait` it makes until then; WaitStrategy/Eventcount puts `Futex::wait` and `Futex::notify` to
-- work on one stamp, with FUTEX_WAIT and FUTEX_WAKE as futex(2) documents them, and
-- WaitStrategy/Wakeups has the invariant of the two. WaitStrategy/StoreBuffer is the same protocol
-- on x86-64, where the stamp may wait in the producer's store buffer while `notify` loads
-- `waiters`, and WaitStrategy/LostWakeup is about the readers that sleep there.
-- WaitStrategy/Parking puts readers that block to work on the interleaved ring of System, each on
-- the slot of the message it wants; WaitStrategy/Parked and WaitStrategy/Attentive follow the
-- words that they sleep on, and WaitStrategy/Deadlock is about the producer's wait and the
-- sleepers. Its theorems ask for fewer than 2^32 messages, since a futex word is the low half of a
-- stamp. WaitStrategy/Sleepers counts the readers, and WaitStrategy/Watched has the part of the
-- invariant that both share.
--
-- Segment models include/shimmy/shm_segment.hpp: the header with its validation, the layout of a
-- segment, and in Segment/Factory the factories, `reset` and the move assignment as functions that
-- return the system calls they make. What the system answers, and the sizes that the compiler
-- gives a ring, are parameters. Segment/Resources is the account of open descriptors and mappings,
-- Segment/Torn and Segment/Teardown hold `reset` and the factories against it, Segment/Header says
-- which openers accept a segment, Segment/Align where the ring lies, and Segment/Attach what a
-- consumer that attaches late does to the producer. Segment/Messages has the texts of the
-- exceptions.
--
-- Bench models what the programs of bench/ compute. Bench/Options has the command line of
-- bench/common.hpp, Bench/Cpu its account of the machine and Bench/Timing its clock overhead and
-- its histogram; Bench/Latency the two loops of bench/latency_bench.cpp and Bench/Throughput the
-- loops, the cells and the sweep of bench/throughput_bench.cpp; Bench/Micro the bodies of
-- bench/ring_bench.cpp. Bench/Report has the decimal numbers, the streams and the CSV file;
-- Bench/Latency/Report and Bench/Throughput/Report have the rows and the two `main` functions,
-- whose lines Bench/Report/Columns, Bench/Report/Streams and the modules Rows and Streams follow;
-- Bench/Options/ReadBack reads a printed number back from the command line. Bench/Smoke is
-- bench/smoke_bench.cpp, and Version include/shimmy/version.hpp. The loops run the operations of
-- Ring, Consumer and WaitStrategy. What the loops find at each turn is given as a list, one entry
-- a turn. Bench/Latency/Stamps, Visits, Recorded and Samples follow the latency consumer from the
-- bytes of a send time to the histogram, Bench/Latency/Sending its producer,
-- Bench/Throughput/Drained a repetition and its readers, and Bench/Micro/PingPong the messages to
-- and fro. HdrHistogram and the type `double` are parameters, records of their functions with no
-- laws, and so are the clock's readings and the lines of the files under /sys.
--
-- Not modelled: of bench/, the threads' creation, pinning and start flags; tests, scripts and
-- build files. The branches for systems other than Linux are left out, and so are assertions about
-- the C++ layout of types.
pub mod Common
pub mod Config
pub mod Ring
pub mod Consumer
pub mod System
pub mod StoreOrder
pub mod Version
pub mod Membership
pub mod Bench
pub mod Segment
pub mod WaitStrategy
