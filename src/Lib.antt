-- ===== src/Lib.antt =====
-- The serving agent: an HTTP server in front of a machine learning platform. A request is served
-- at once (`predict`, `generate`), or is put into a Redis queue by asynq (`asyncPredict`) and
-- served by a worker; the state of every task is a record in a webhook service, and periodic
-- checks bring the records in line with the queue.
--
-- Modules, and the code that they model:
--   Config               utils/config.go: the settings
--   Http                 Go's net/http as the source uses it; Http/Record is a world that records
--                        the requests, the closed responses and the seconds slept
--   Platform             platform/base.go and platform/error.go: the data exchanged, RequestError and
--                        the interfaces Platform and Webhook; Values and Codec are Go's maps and JSON
--   Platform/KServe      platform/kserve.go: sendRequest with its retries, Predict and Docs
--   Platform/KServe/Streaming  platform/kserve.go: Generate
--   Platform/Remote      sendRequest and the polling loop of platform/replicate.go and runpod.go
--   Platform/RunPod      platform/runpod.go
--   Platform/Replicate   platform/replicate.go
--   Platform/K8s         platform/k8s.go
--   Platform/Fetcher     platform/webhook.go: WebhookFetcher, over retry-go
--   Platform/InternalWebhook  platform/webhook.go: the client of the webhook service
--   Worker               worker/: the payload, the interface TaskDistributor, what asynq offers
--   Worker/Predict       worker/predict.go: enqueueing a task, and ProcessTaskRunPrediction
--   Worker/Distributor   worker/distributor.go: the listings, CheckArchivedTasks,
--                        ShutdownDistributor and CheckTaskStatus
--   Worker/Processor     worker/processor.go, and the connections of worker/distributor.go
--   Logging              worker/logger.go and utils/log.go
--   Api                  api/server.go and api/v1.go: the server, its replies, convertErrorCode
--   Api/Predict          api/v1.go: predict, generate and docs
--   Api/Queue            api/v1.go: asyncPredict
--   Api/Tasks            api/server.go: the handlers for tasks and for the queue, the checks
--   Api/Router           api/server.go: NewServer and the routes; api/metrics.go: the middleware that counts
--   Main                 main.go: PreCheck, the choice of the platform, the end of runServer
--   Main/Startup         main.go: main up to its signals; utils/config.go: LoadConfigs
--   Main/Startup/Ending  main.go: the whole program, from its settings to its end
--   Main/Goroutines      main.go: the goroutines of runServer, runGinServer, runTaskProcessor
--   Host                 Go's goroutines and net/http's server, as main.go uses them
--   System               the activities of the program, run at once and interleaved; System/Lifecycle
--                        and System/Recovery follow a task from its request to its end, without and
--                        with failures, System/Network joins the worker and the webhook client, and
--                        System/Store the checks, this client and a service of records
--   Trace                a world that records, newest first, the calls of the services with their
--                        answers; Trace/Record wraps any services so that they record,
--                        and Trace/Protocol is the protocol of one prediction
--   Tests                concrete services and requests, and the theorems at them
--
-- How the code is modelled. A Go function that has effects is a function of the world W to a
-- result and a new world (Common/Effects). The interfaces of the source (Platform, Webhook,
-- TaskDistributor, Fetcher) and what it takes from libraries (net/http, asynq, encoding/json,
-- fmt, the clock, uuid, prometheus) are records of operations, parameters of every definition
-- that uses them; the theorems hold for all of them. A `(T, error)` is a Result, and a `(T,
-- *RequestError)` is a Served, which has a third case for a panic. A Go `int` is an integer with
-- a sign, without its bound of 64 bits, but a `time.Duration` wraps around at them (Common/Time);
-- a status code is a natural number. The theorems on a handler wrap arbitrary services so that
-- each call is recorded with its answer, and speak of the calls.
--
-- Interfaces with laws. What is documented of code outside the repository, and used, stands in
-- records and hypotheses: the webhook service as a store of records (Worker/Distributor/Records),
-- as it answers under its addresses (Platform/InternalWebhook/Store), retry-go and what is left
-- of a request's body (Platform/Fetcher), asynq's retries and its archive
-- (Worker/Processor/Attempts, System/Recovery). The records that a listing of tasks names are a
-- set, a quotient of lists that forgets their order and repetitions
-- (Worker/Distributor/RecordSet).
--
-- Loops. The loop of KServe's sendRequest is structural on the rounds left, five at first, as the
-- source counts. The polling loops count the timeout down, as many rounds as the source has. The
-- other loops run over a list. The stream of a generation is the finite list of what the decoder
-- returns for one body, up to the end or an error. No other fuel is used.
--
-- Concurrency. Each request, task and round is a goroutine of its own. An activity is run over
-- services of its own, whose answers are arbitrary, since the other activities change them; a
-- trace of the program is any interleaving of the calls of its activities (System).
--
-- Not modelled: the log lines of the other files, gin's matching and binding of requests and its
-- recovery, the inside of Go's HTTP server, the asynq server, whose policy of retries is a
-- hypothesis (Worker/Processor/Attempts), the inside of retry-go, viper and promhttp
-- (parameters), and the mocks.
mod Common
pub mod Config
pub mod Host
pub mod Http
pub mod Logging
pub mod Platform
pub mod Worker
pub mod Trace
pub mod Api
pub mod Main
pub mod System
mod Tests
