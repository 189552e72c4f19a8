-- ===== src/Lib.antt =====
-- iracelog-service-manager: the computation that turns the messages of a running race into the
-- state that the service stores and serves, the events that are live in the service, and the streams
-- of the messages that it has stored.
--
-- A data provider publishes driver data and race states. The car processor follows every car
-- through its states, its stints, its pit stops and its drivers; the race processor, which reads
-- the car processor, keeps the race order, the laps of each car, the race graph of each class and
-- the start of the replay. The stint calculator plans the stints and pit stops that are left. The
-- provider server enters each event that is registered into a lookup with its own processor, and the
-- state server hands the messages published about an event to that processor and to the database;
-- clients ask the state server for the stored messages, a page or a stream at a time. A replay merges
-- several sources of messages by their times; from the stored messages of an event the analysis
-- server computes its analysis again. Each request comes from a caller whose rights a policy decides.
--
-- Files and code:
--   Base        tests on numbers and strings, slices, Go maps, panics, integers, floats
--   Car         pkg/grpc/processing/car/car_processor.go: CarProcessor. Car/Types has the messages
--               and the state, Car/Drivers the driver changes (updateCarInfo, markSeatTime,
--               driverEntryByName), Car/Stints the stint and pit records, Car/Machine the handlers
--               (handleComputeState and one function for each state), Car/Payload the entry points
--               ProcessCarPayload and ProcessStatePayload. The other files of Car hold proofs.
--   Race        pkg/grpc/processing/race/race_processor.go: RaceProcessor. Race/Types has the
--               state, Race/Laps processCarLaps and getLapInfo, Race/Graph the race graphs,
--               Race/Payload processReplayInfo, checkValidData and ProcessStatePayload. The other
--               files of Race hold proofs.
--   Stints      pkg/grpc/racestints/racestints_grpc.go: Calc, in Stints/Calc; proofs beside it.
--   Processing  pkg/grpc/processing/processor.go: Processor, which hands each message to the two
--               processors and publishes what follows. Processing/Compose has ComposeAnalysisData,
--               Processing/Steps the handlers ProcessState, ProcessCarData and ProcessSpeedmap with
--               the list of what they send; the other files hold proofs.
--   States      pkg/grpc/server/state: the calls GetStates, GetStateStream and the same for speedmaps
--               and driver data, over the repositories. States/Types has the requests and the
--               database, States/Repos the reads of a range (LoadRange, LoadRangeBySessionTime,
--               LoadRangeByID, LoadRangeByIDWithinSession and loadRange) of the repositories in
--               pkg/grpc/repository/bob, States/Pages the containers (createStatesContainer,
--               InitialRequest, NextRequest, toFetchEntries) and ResolveEvent, States/Streams the
--               calls of state_server.go. States/Rows says what the database answers; the other
--               files hold proofs.
--   Live        the events that are live: Live/Types and Live/Lookup model EventLookup and
--               EventProcessingData (pkg/utils/event_lookup.go), Live/Provider the calls
--               RegisterEvent, UnregisterEvent, UnregisterAll and ListLiveEvents
--               (pkg/grpc/server/provider/provider_server.go) with LiveEvents and GetEvent of the
--               proxy (pkg/grpc/server/util/proxy/local/local.go), Live/Publishing the calls
--               PublishState, PublishSpeedmap, PublishDriverData and PublishEventExtraInfo
--               (pkg/grpc/server/state/state_server.go), which drive the processor of an event. The
--               other files hold proofs.
--   Cache       pkg/utils/cache/loadercache/loadercache.go: Get, load and Invalidate of the cache, in
--               Cache/Loader; a proof beside it.
--   Replay      pkg/cmd/replay/util and pkg/grpc/server/analysis: the merge of several sources.
--               Replay/Peeks has the peeks and the loop that sendData and processData share,
--               Replay/Sending sendData with its pauses, Replay/Fetch the fetcher of stored messages
--               (data_fetcher.go), Replay/Recompute processData and RecomputeAnalysis (analysis_recompute.go),
--               Replay/Server the calls GetAnalysis and ComputeAnalysis. The other files hold proofs.
--   Auth        pkg/grpc/auth and pkg/grpc/permission: Auth/Policy has policy.rego with its data,
--               Auth/Callers the authenticators, handleAuth and the evaluator of opa.go, Auth/Reach what
--               is assumed of the policy engine. The other files hold proofs.
--   Examples    the theorems at concrete messages.
--
-- How Go is read. An operation takes the state and returns the new one; a pointer stored in a map is
-- the value stored under its key, since each is owned by one map and is written under its own key
-- only. A read through a nil pointer or out of a slice is the outcome `panic`; the state after a
-- panic is not modelled. A missing key of a map reads as the zero value. Maps are association lists;
-- a range over a map visits them in the order of the list, and no theorem fixes that list; the loop of
-- GetEvents takes the order of its visit as an argument, since its result keeps it. Messages are taken
-- with their sub-messages present. An `int32` or a duration is its bit pattern, with the
-- wrap-around written out. `float32` is a type with the operations used (Base/Floats), nothing is
-- assumed about them, and the rounded up quotient of seconds in Calc is a function argument.
-- Timestamps of speed maps are nanoseconds since the zero time. A send on a channel adds to the list
-- of what is sent; that it may block is not modelled. `slices.SortStableFunc` and `sort.Strings` are an
-- insertion sort by the same comparison.
--
-- An operation that returns a value and an error is a `Result`; errors are told apart by what they
-- mean. The database is a function that runs a query; where a theorem depends on its answers, they
-- are the selected rows in the order of their ids, which are distinct only where a theorem asks for it,
-- as those of race states are. A request for stored messages may lack its event selector, which is a
-- panic, and ends the call; the other requests have one. Its argument may be missing. The servers take the policy engine and the repositories as functions; a write to
-- the database is an entry of a list of writes that were tried, and since a failed write is only
-- logged, its result counts where the code uses it. Calls are modelled one at a time, each a function
-- of the lookup; the code guards the lookup by a mutex, but not in the watchdog, and the processor of
-- an event, but not in PublishSpeedmap.
--
-- The channel of a source of a replay is the list of what it gives until it is closed; that its sender
-- runs in another goroutine is not modelled. A panic in it is the outcome of the whole replay.
-- Reachability in the graph of roles is a function of the policy engine; the hash of an API key and
-- the cache of tenants are functions.
--
-- Bounds and fuel. The loop of Calc runs on fuel, where `none` means that the fuel ran out; a round
-- takes at least one nanosecond for a request in range, so one unit more than the nanoseconds of the
-- race is enough. Durations are bounded by 2 ^ 60 ns, so that sums of them do not overflow an
-- `int64`. A stream runs on fuel for its pages; every page but the last one sends a row, so more fuel
-- than there are rows is enough. The loops of a replay run on fuel for their rounds; each round hands
-- on a message, so as much fuel as there are messages is enough.
--
-- Not modelled: logging, the generated database code and the other repositories, the other RPC
-- servers, the broadcasts that deliver what a processor sends to the listeners
-- of its event, the workers that store its data, sessions, the message broker and the commands,
-- which are input and output or call services outside the repository.
pub mod Base
pub mod Car
pub mod Race
pub mod Stints
pub mod Processing
pub mod States
pub mod Live
pub mod Cache
pub mod Replay
pub mod Auth
pub mod Examples
