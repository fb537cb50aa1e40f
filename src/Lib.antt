-- ===== src/Lib.antt =====
-- landau, a Go library for services: databases, calls between services, jobs and logs.
--
-- The parts and the files that model them (paths from the repository's root):
--   data/mysql_interpolate.go     Data/Interpolate: `get_built_sql` is `GetBuiltSQL`; Buffer has the
--     buffer and the two escapes, Literal the reader of a MySQL literal that they are held against,
--     Weave and Build the statement as the query with texts in the place of its marks, Dates the
--     text of a time, Bound the theorems on the whole function.
--   data/db_conn_optimize.go      Data/ConnOptimize: `Optimizer` is the state of the file's variables,
--     with one function for each function of the file; Counting says when a connection is blocked,
--     Invariant what holds in every reachable state.
--   data/db_base.go               Data/Database: `World` is one database with the pool and the optimizer,
--     `query`, `exec2`, `insert2` and `exec_tx` its calls; Blocking joins them to the optimizer,
--     Settings has the pooled handle, Transaction the ends of `ExecTx`, Where `GetWhereClause`,
--     Options `NewDatabase` and the connection string, Wrap the calls inside a transaction,
--     Default the default database.
--   data/service_keepalive.go     Data/Keepalive: `Keepalive` is the state; Update has the results of
--     health checks, Receive the services that announce themselves, Select `GetServiceAddrByName`
--     with the turns of its calls, Failover what becomes of secondary addresses, Reconfig the look at
--     the configuration, which sorts slices that the mesh shares, Statics the page of the services.
--   api/serv_api.go, api/restful_api.go  Api: `Api` is the state of the package's variables; Values reads
--     codes out of responses, Serve has `httpHandleProxy`, `dispatchAction` and the handler for unknown
--     routes, with Access and Trace below it, Restful the entries with parameters in their paths.
--     Report has what a request leaves behind, the notice, the audit, the log and the metric.
--   prometheus/metrics.go         Prometheus/Metrics: the labels and the metrics of the requests; Counts has
--     what they have counted.
--   api/binding.go                Api/Binding: the keys of a form that are merged into lists, and the source
--     of a request's parameters.
--   data/json.go                  Data/Json: Structs has the types that a map is read into and the
--     look-ups, Setters what is set in a field, Unmarshal `jsonUnmarshalFromMap`, Typing the types of values.
--   data/http_helper.go           Data/HttpHelper: the options, the signature, the request and the call.
--   data/rabbit_mq_consumer.go    Data/RabbitConsumer: the options; Listen has the loop over the deliveries
--     and the handlers beside it, Handled the messages that are handled and acknowledged.
--   data/uamqp/                   Data/Uamqp: the connection and the channel of a consumer; Shuffle has the
--     random order of the nodes, Receiver what `CreateReceiver` leaves and how it recovers.
--   config/config.go              Config: the settings and their override by the environment.
--   protocol/bitmap.go            Protocol/Bitmap: texts of bits to bytes and back.
--   protocol/service_addr_helper.go  Protocol/ServiceAddr: the choice of an address and its cache;
--     Polling has the turns of the mode PollingServer.
--   util/cron_job.go              Util/CronJob: Proxy has the runs of a job as interleaved events,
--     Shutdown the polls of `CronJobShutdown`.
--   util/ip_helper.go             Util/IpHelper: addresses with and without brackets.
--   log/log_file_monitor.go, log/disk_usage_linux.go  Log/Monitor: the settings; Paths has the directories
--     of the log files, Clean the removal of old files when a disk is full, Daily the daily mode.
--   log/log.go, log/log_category_control.go  Log/Logger: where a message goes; Routes has the
--     messages that are lost, Category the switches of a call's log.
--   log/log.go, log/log_parser_*.go  Log/Parsers: a line of a log read back into its parts.
-- A request that is served and a response that is received note their sender in the state of
-- Data/Keepalive, where `get_service_addr_by_name` finds it, and calls by a service's name ask there.
-- The database layer and the health checks use the optimizer and the mesh through their functions
-- only; what a function does under one lock is one step of its state, and the steps outside it are others. Common has the shared lists, maps, texts,
-- numbers, words, sorts and tests.
--
-- Names are those of the source in snake case; a leading underscore is dropped. Strings are lists of
-- bytes, maps association lists, and a `range` over a map meets its keys in the list's order. Times and
-- counters are natural numbers without a bound; a byte keeps its wrap-around. What the code takes from
-- the Go runtime, from a clock or from another library is an argument: the floats' texts, the local
-- calendar and the stale bytes of a buffer (`Runtime`), the answers of health checks, the random
-- numbers and what the scheduler accepts.
--
-- Fuel: `next_turn` counts the tries down as the source does, and `append_rounds` the eight bits;
-- `timed_wait` counts the polls of `CronJobShutdown`, of which a context's deadline allows one for each
-- millisecond at most. All other loops are recursions on a list; the loop of `StartListen`, which never
-- ends, is run on the attempts that happen.
--
-- Not modelled: log4go and the mapping of forms, which are copies of other projects; gin's bindings, the
-- upload of files, the copy of values by reflection, the clients of other systems but the RabbitMQ
-- consumer, and start-up, which call other libraries only.
pub mod Common
pub mod Protocol
pub mod Data
pub mod Util
pub mod Api
pub mod Log
pub mod Config
pub mod Prometheus
