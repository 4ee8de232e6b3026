-- ===== src/Api/Predict/Protocol.antt =====
-- The handler `predict` keeps to the protocol of a prediction.
use serving_agent.Common.{String, ◌≡◌, ◌≢◌, ◌⊎◌, arith, eq_iff, ok, some}
use serving_agent.Platform.{Format, InferRequest}
use serving_agent.Worker.{Runtime}
use serving_agent.Api.{Server, Reply, json, panicked, convert_error_code, with_upload_webhook}
use serving_agent.Api.Predict.{predict}
use serving_agent.Api.Predict.Records.{run_predict, fresh_id}
use serving_agent.Trace.Protocol.{Phase, refused, crashed, closed, lost, phase_of, Conforms}

-- What a reply tells of the phase.
abbrev pub RepliesIn : Reply → Phase → Type 0
RepliesIn (json code body) p = (p ≡ closed) ⊎ ((code ≢ 200) × ((p ≡ refused) ⊎ (p ≡ lost)))
RepliesIn (panicked m) p = p ≡ crashed
RepliesIn _ p = ⊥

module _ {E : Type 0} (format : Format) (runtime : Runtime E) (server : Server E) where
  -- If the upload address can be written into the request, then over any services a run of the
  -- handler `predict` is a run of the same protocol, for the fresh id, the request with this
  -- address and the version `v1`, with nothing after it but a reading of this record: it panics
  -- if the platform crashed, and a reply before the protocol is closed is not a 200.
  pub predict-Refines :
      (request sent : InferRequest) (uid : String) (e : E)
      → with_upload_webhook server.config request ≡ some sent
      → let (r, w) = run_predict format runtime server (ok request) uid e in
        RepliesIn r (phase_of format (fresh_id format runtime server e) sent "v1" w.calls)
        × Conforms format (fresh_id format runtime server e) sent "v1" w.calls
  unfolding predict convert_error_code
  predict-Refines request sent uid e uploads = ground (
    arith,
    eq_iff (fresh_id format runtime server e) (fresh_id format runtime server e),
    eq_iff "running" "running",
  )
