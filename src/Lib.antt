-- ===== src/Lib.antt =====
-- NexRAN is an O-RAN xApp: it controls the RAN slices of base stations (NodeBs) through a near-real-time
-- RIC. A REST interface changes a database of nodes, slices and UEs; each change becomes E2AP control
-- and subscription requests, which go out over RMR; KPM reports come back and move the shares of the
-- slices. This library models the program.
--
-- The parts, with the files of the repository:
--   Base: numbers, tests, keys, texts with atoi, and the ordered association lists that stand for
--     std::map.
--   Config: nexran::Config and xAppSettings (include/config.h, src/config.cc). Config/Items is the table
--     of items with what getopt_long is given, Config/Parse the command line, the environment and
--     validate, with Config/Parse/Load, Types and Given about what comes of them; Config/Usage is the
--     text of the usage; Config/Settings is the environment and the descriptor, with
--     Config/Settings/Sources about the endpoints that are registered.
--   Kpm: MetricsIndex, the sliding window of metrics, the report types, in Kpm/Decode the decoding of
--     KPM indications and in Kpm/Text the text of a report (lib/e2sm/include/e2sm_kpm.h,
--     lib/e2sm/src/e2sm_kpm.cc).
--   Resource: Ue, Slice, NodeB and ProportionalAllocationPolicy with create, update and serialize, the
--     validation of request bodies, and errors (include/nexran.h, include/restserver.h, src/ue.cc,
--     src/slice.cc, src/nodeb.cc, src/policy.cc). Resource/Policy/Throttle is about throttling,
--     Resource/Validate/Messages and Acceptable about what the validation reports and accepts.
--   E2sm: the NexRAN service model's controls, outcomes and indications
--     (lib/e2sm/include/e2sm_nexran.h, lib/e2sm/src/e2sm_nexran.cc). E2sm/Object has the objects that
--     encode themselves in their getters, event triggers included (lib/e2sm/include/e2sm.h).
--   E2ap: the requests, the tables of E2AP, the decoders of messages and handle_message
--     (lib/e2ap/include/e2ap.h, lib/e2ap/src/e2ap.cc). E2ap/Decode has the decoders, E2ap/State is what
--     is sent, E2ap/Handle what arrives; the Entries below the last two say what becomes of the tables,
--     E2ap/State/Carries which message carries a request.
--   App: the class App (include/nexran.h, src/nexran.cc). App/Store is serialize, add, del and update;
--     App/Bind the four bindings; App/Send the requests they make; App/Equalize the handler of KPM
--     indications, with App/Equalize/Effects and Shares about whom it tells; App/Call and App/Reach the calls as steps and the states that they reach;
--     App/Linked the pointers of slices to UEs.
--   App/Dispatch: handle_rmr_message and the agent interface of App (src/nexran.cc), with the E2AP and
--     KPM decoders composed as the program composes them; App/Dispatch/Steps has its properties.
--     App/Rmr is how send_message fills a buffer of RMR.
--   App/Trace: what the calls of App and the messages do to the request tracker, as rows of its own
--     operations; App/Trace/Served the states that they reach, App/Trace/Tables what stands in the
--     tables, App/Trace/Ids the ids of the requests, App/Trace/Messages the messages that carry them,
--     App/Trace/Fresh what follows for the handlers.
--   App/Group: RequestGroup and what response_handler answers for one (include/nexran.h, src/nexran.cc).
--   App/Process: main, start, stop, the registration with the application manager and the pass of
--     response_handler (src/main.cc, src/nexran.cc, src/restserver.cc). App/Process/Main is main,
--     App/Process/Threads the threads as steps, App/Process/Pass about a pass.
--   Rest: the routes and the handlers of the REST server (src/restserver.cc, include/version.h).
--     Rest/Reply has what the handlers share, Rest/Handlers one function for each of them, Rest/Handle
--     the dispatch, Rest/Context the RequestContext of include/restserver.h, Rest/Version the text of
--     the version; Rest/Steps shows the handlers as calls of App, Rest/Answers is about the status they
--     answer, with Rest/Status on how calls fail and Rest/Crashes on the requests that crash one.
--   Program: requests to the REST server and RMR messages as one sequence of events.
--   Examples: concrete inputs at which the properties are applied.
--
-- State and concurrency: E2AP and App take a mutex for each operation on their tables, so an operation
-- is one step from a state to a state. App::add hands its requests over after it has let the mutex go;
-- the model has this in the same step. The threads that the process starts, and the calls of stop that
-- wait for them, are the steps of App/Process/Threads. A pointer into App::db is the name and the address
-- of its object. Functions that report through AppError ** end in a value, an error, or a fault: a failed
-- assertion of rapidjson, a null or a dangling pointer, an erased iterator, a write outside of a buffer, or
-- a missing return whose value is used. Ue::bind_slice and Ue::unbind_slice have no return on the path that
-- does the work; no caller looks at their value, and the model takes them to come back. What was handed to RMR is the outbox of E2ap.
--
-- Integers are ℤ and ℕ; 64-bit counters wrap around at 2 ^ 64 as written in Kpm/Metrics. Loops are
-- structural recursion over the lists that they run through, so no fuel is needed; the digits of a number
-- are printed on a fuel of 20, and a long has at most 19.
--
-- Parameters stand for what is not in the repository: Json for rapidjson, Documents for rapidjson's
-- pointers and the file system, the environment and the list of what getopt_long returns, Version for
-- the texts that the build fills in, the codecs that asn1c generates (Codec, PduCodec, KpmCodec and
-- Decoders), Platform for RMR and std::hash, FloatOps for the machine's single precision arithmetic, the
-- printing of a double, the application manager's reply, and the time for std::time, which is one value
-- within a handler.
--
-- Not modelled: Pistache (the REST server's sockets) and the HTTP client, signals and the exit of their
-- handler, the scheduling of the threads, the mutex that cv.wait_for takes again, logging, the release
-- of memory, and the generated codecs.
pub mod Base
pub mod Kpm
pub mod Resource
pub mod E2sm
pub mod E2ap
pub mod App
pub mod Config
pub mod Rest
pub mod Program
pub mod Examples
