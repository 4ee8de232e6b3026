-- ===== src/Api/Predict/Records.antt =====
-- What the prediction handlers leave in the task's record, over any services.
use serving_agent.Common.{String, true, ◌≡◌, List, ◌∷◌, some, arith, eq_iff, Result, ok}
use serving_agent.Platform.{Format, InferRequest, served}
use serving_agent.Worker.{Runtime}
use serving_agent.Worker.Predict.{succeeded_update, failed_update}
use serving_agent.Api.{
  ResponseWriter, Server, Reply, not_found, panicked, status, convert_error_code,
}
use serving_agent.Api.Predict.{predict, generate}
use serving_agent.Trace.{
  World, Call, start, create_call, update_call, predict_call, get_call, status_of, num_final_writes,
  created, PredictsRunning,
}
use serving_agent.Trace.Record.{recorded_runtime, recorded_server}

-- The calls of an answered prediction: the record was created as running, the platform's answer was
-- stored in it as succeeded, and it was read back.
abbrev pub Fulfilled : String → List Call → Type 0
Fulfilled id
      (get_call k (ok _)
        ∷ update_call u (ok _)
        ∷ predict_call _ _ (served _)
        ∷ create_call j s (ok _)
        ∷ _) =
    (k ≡ id) × (u.id ≡ id) × (u.status ≡ "succeeded") × (j ≡ id) × (s ≡ "running")
Fulfilled id _ = ⊥

-- How a handler leaves a record that was created: after a panic or a 404 it is still running and
-- nothing else was tried; otherwise one final status was written to it, and no second one.
abbrev pub Closed : String → Reply → List Call → Type 0
Closed id (panicked m) cs = (status_of id cs ≡ some "running") × (num_final_writes id cs ≡ 0)
Closed id not_found cs = (status_of id cs ≡ some "running") × (num_final_writes id cs ≡ 0)
Closed id _ cs = num_final_writes id cs ≡ 1

module _ {E : Type 0} (format : Format) (runtime : Runtime E) (server : Server E) where
  abbrev pub run_predict : Result InferRequest → String → E → Reply × World E
  run_predict bound uid e =
      predict format (recorded_runtime runtime) (recorded_server server) bound uid (start e)

  abbrev pub run_generate : ResponseWriter → Result InferRequest → String → E → Reply × World E
  run_generate writer bound uid e =
      generate format (recorded_runtime runtime) (recorded_server server) writer bound uid (start e)

  abbrev pub fresh_id : E → String
  fresh_id e = (runtime.new_uuid e).0

  -- If a prediction is answered with 200, then its last four calls, all acknowledged, created the
  -- record with the fresh id as `running`, got an answer from the platform, marked this record as
  -- `succeeded`, and read it back.
  pub predict-Fulfilled :
      (bound : Result InferRequest) (uid : String) (e : E)
      → status (run_predict bound uid e).0 ≡ 200
      → Fulfilled (fresh_id e) (run_predict bound uid e).1.calls
  unfolding predict succeeded_update failed_update convert_error_code
  predict-Fulfilled bound uid e h = ground arith

  -- If a prediction's record was created, the handler asks exactly once to write a final status
  -- to it, unless it panics: then it asks for none, and the record is left as `running`.
  pub predict-Closed :
      (bound : Result InferRequest) (uid : String) (e : E)
      → created (run_predict bound uid e).1.calls ≡ true
      → Closed (fresh_id e) (run_predict bound uid e).0 (run_predict bound uid e).1.calls
  unfolding predict succeeded_update failed_update convert_error_code
  predict-Closed bound uid e h =
      ground (arith, eq_iff (fresh_id e) (fresh_id e), eq_iff "succeeded" "failed")

  -- The prediction handler asks the platform only while the last acknowledged status of the
  -- record with the fresh id is `running`.
  pub predict-PredictsRunning :
      (bound : Result InferRequest) (uid : String) (e : E)
      → PredictsRunning (fresh_id e) (run_predict bound uid e).1.calls
  unfolding predict succeeded_update failed_update convert_error_code
  predict-PredictsRunning bound uid e = ground (arith, eq_iff (fresh_id e) (fresh_id e))

  -- If the record of a generation was created, the handler asks exactly once to write a final
  -- status to it, unless it panics or answers 404: then it asks for none, and the record is left
  -- as `running`.
  pub generate-Closed :
      (writer : ResponseWriter) (bound : Result InferRequest) (uid : String) (e : E)
      → created (run_generate writer bound uid e).1.calls ≡ true
      → Closed
          (fresh_id e)
          (run_generate writer bound uid e).0
          (run_generate writer bound uid e).1.calls
  unfolding generate succeeded_update failed_update convert_error_code
  generate-Closed writer bound uid e h =
      ground (arith, eq_iff (fresh_id e) (fresh_id e), eq_iff "succeeded" "failed")
