-- ===== src/System/Store.antt =====
-- The checks and the end of the queue with the client of the webhook service, over a service that
-- keeps the task records.
use serving_agent.Config.{Config}
use serving_agent.Http.{Http, Fetcher}
use serving_agent.Platform.{Format, JsonCodec, Webhook}
use serving_agent.Platform.InternalWebhook.{TaskCodec, new_internal_webhook, internal_webhook}
use serving_agent.Worker.{PayloadCodec, TaskDistributor, Runtime}

module _ {E : Type 0} (config : Config) (format : Format) (codec : JsonCodec) (tasks : TaskCodec)
    (http : Http E) (fetcher : Fetcher E) (payload_codec : PayloadCodec) (runtime : Runtime E)
    (distributor : TaskDistributor E) where
  abbrev pub webhook : Webhook E
  webhook = internal_webhook format codec tasks http fetcher (new_internal_webhook config)
