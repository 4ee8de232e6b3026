-- ===== src/Api/Router.antt =====
-- api/server.go: the routes of `setupRouter` and the handlers behind them; and api/metrics.go: the
-- middleware that counts requests. Matching a request to a route, and binding its parts, is gin's.
use serving_agent.Common.{
  String, Bool, true, false, List, [], ◌∷◌, ◌++◌, map, Exec, pure, ◌>>=◌, ◌>>◌, Result, ok, itoa,
  ◌<>◌,
}
use serving_agent.Config.{Config}
use serving_agent.Platform.{InferRequest, DocsRequest, Format, Platform, Webhook}
use serving_agent.Worker.{Runtime, TaskDistributor}
use serving_agent.Api.{ResponseWriter, Server, Reply, panicked, status}
use serving_agent.Api.Queue.{ReplyCodec, async_predict}
use serving_agent.Api.Predict.{predict, generate, docs}
use serving_agent.Api.Tasks.{
  check_liveness, get_task, cancel_task, get_queue_size, pause_queue, unpause_queue,
  delete_all_pending_tasks, list_unfinished_tasks,
}

-- The handlers by their methods' names; `metrics` is that of promhttp.
pub data Endpoint : Type 0 where
  live : Endpoint
  ready : Endpoint
  metrics : Endpoint
  pause : Endpoint
  unpause : Endpoint
  delete_pending : Endpoint
  unfinished : Endpoint
  predict_now : Endpoint
  generate_now : Endpoint
  docs_now : Endpoint
  queue_size_now : Endpoint
  predict_later : Endpoint
  task : Endpoint
  cancel : Endpoint

-- `counted` says whether the middleware stands in front of the handler.
pub record Route : Type 0 where
  pub method : String
  pub path : String
  pub counted : Bool
  pub endpoint : Endpoint

abbrev route : String → String → Endpoint → Route
route method path endpoint = record {
  method = method;
  path = path;
  counted = false;
  endpoint = endpoint;
}

-- `router.Group`, with `Use(prometheusMiddleware())` if `counts`.
abbrev grouped : String → Bool → List Route → List Route
grouped prefix counts = map (λ (r : Route). record r { path = prefix <> r.path; counted = counts })

-- `setupRouter`
abbrev pub setup_router : List Route
setup_router =
    (route "GET" "/live" live
      ∷ route "GET" "/ready" ready
      ∷ route "GET" "/metrics" metrics
      ∷ route "POST" "/pause" pause
      ∷ route "POST" "/unpause" unpause
      ∷ route "POST" "/delete_pending" delete_pending
      ∷ route "GET" "/unfinished" unfinished
      ∷ [])
    ++ grouped "/v1" true (
        route "POST" "/predict" predict_now
        ∷ route "POST" "/generate" generate_now
        ∷ route "GET" "/docs" docs_now
        ∷ route "GET" "/queue_size" queue_size_now
        ∷ [])
    ++ grouped "/async/v1" true (route "POST" "/predict" predict_later ∷ [])
    ++ grouped "/task" false (route "GET" "/:id" task ∷ [])
    ++ grouped "/cancel" false (route "POST" "/:id" cancel ∷ [])

-- A `Server` with its router.
pub record Routed (W : Type 0) : Type 0 where
  pub server : Server W
  pub router : List Route

module _ {W : Type 0} where
  -- `NewServer`, which never fails.
  unfoldable pub new_server :
      Config → Platform W → TaskDistributor W → Webhook W → Result (Routed W)
  new_server config platform distributor webhook = ok (record {
    server = record {
      config = config;
      platform = platform;
      distributor = distributor;
      webhook = webhook;
    };
    router = setup_router;
  })

  -- `Handler`
  abbrev pub handler : Routed W → List Route
  handler routed = routed.router

  -- `Start`, over gin's `Run` of a router on an address.
  abbrev pub start :
      (List Route → String → Exec W (Result (Unit {0})))
      → Routed W
      → String
      → Exec W (Result (Unit {0}))
  start run routed address = run routed.router address

-- What gin hands to a handler: the results of the `ShouldBind` methods, the header `UID`, and
-- whether the response writer is an `http.Flusher`.
pub record Bound : Type 0 where
  pub infer : Result InferRequest
  pub model : Result DocsRequest
  pub task_id : Result String
  pub uid : String
  pub writer : ResponseWriter

module _ {W : Type 0} (format : Format) (codec : ReplyCodec) (runtime : Runtime W)
    (exposition : Exec W Reply) (server : Server W) where
  -- The handler of a route. `exposition` is promhttp's.
  unfoldable pub handle : Endpoint → Bound → Exec W Reply
  handle live bound = pure check_liveness
  handle ready bound = pure check_liveness
  handle metrics bound = exposition
  handle pause bound = pause_queue codec server
  handle unpause bound = unpause_queue codec server
  handle delete_pending bound = delete_all_pending_tasks codec server
  handle unfinished bound = list_unfinished_tasks codec server
  handle predict_now bound = predict format runtime server bound.infer bound.uid
  handle generate_now bound = generate format runtime server bound.writer bound.infer bound.uid
  handle docs_now bound = docs format runtime server bound.model
  handle queue_size_now bound = get_queue_size codec server
  handle predict_later bound = async_predict codec runtime server bound.infer bound.uid
  handle task bound = get_task codec server bound.task_id
  handle cancel bound = cancel_task codec server bound.task_id

-- The counters and the histogram of api/metrics.go, by their labels. A timer is what `NewTimer`
-- returns for the histogram with a path.
pub record HttpMetrics (Timer W : Type 0) : Type 0 where
  pub new_timer : String → Exec W Timer
  pub total_requests_inc : String → Exec W (Unit {0})
  pub response_status_inc : String → String → Exec W (Unit {0})
  pub observe_duration : Timer → Exec W (Unit {0})

module _ {Timer W : Type 0} (http_metrics : HttpMetrics Timer W) where
  -- What follows `ctx.Next()`, which a panic of the handler leaves at once.
  count_reply : String → Timer → Reply → Exec W Reply
  count_reply path timer (panicked m) = pure (panicked m)
  count_reply path timer reply = do
    http_metrics.total_requests_inc path
    http_metrics.response_status_inc path (itoa (status reply))
    http_metrics.observe_duration timer
    pure reply

  -- `prometheusMiddleware`, for a route with this path, in front of a handler.
  prometheus_middleware : String → Exec W Reply → Exec W Reply
  prometheus_middleware path next = do
    timer ← http_metrics.new_timer path
    reply ← next
    count_reply path timer reply

  behind : Bool → String → Exec W Reply → Exec W Reply
  behind true path next = prometheus_middleware path next
  behind false path next = next

  -- A request that gin has matched to a route.
  pub serve : Route → Exec W Reply → Exec W Reply
  serve r handler = behind r.counted r.path handler
