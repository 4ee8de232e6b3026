-- ===== src/Trace/Protocol.antt =====
-- Not code: the protocol of one prediction for one record, as a machine over the calls of a run.
use serving_agent.Common.{
  ◌≡◌, ◌&&◌, Bool, List, [], ◌∷◌, String, str_eq, Result, ok, err, if◌then◌else◌,
}
use serving_agent.Platform.{
  UpdateRequest, InferRequest, InferResponse, Format, error_text, Served, served, failure, panic,
}
use serving_agent.Worker.Predict.{succeeded_update, failed_update}
use serving_agent.Trace.{Call, create_call, update_call, get_call, predict_call, metric_call}

-- How far the prediction has come. When it has an answer, one update is due, which tells the webhook
-- of the answer; `strayed` is a call that the protocol does not allow.
pub data Phase : Type 0 where
  idle : Phase
  refused : Phase
  running : Phase
  due : UpdateRequest → Phase
  crashed : Phase
  closed : Phase
  lost : Phase
  strayed : Phase

-- The phase after a call that the webhook may refuse.
abbrev acknowledged : {A : Type 0} → Phase → Phase → Result A → Phase
acknowledged good bad (ok _) = good
acknowledged good bad (err _) = bad

-- The prediction of one request, at one version, for the record `id`.
module _ (format : Format) (id : String) (request : InferRequest) (version : String) where
  -- The record is claimed by a write of `running`, be it a creation or an update.
  abbrev claims : String → String → Bool
  claims k status = str_eq k id && str_eq status "running"

  abbrev answered : Served InferResponse → Phase
  answered (served r) = due (succeeded_update format id r)
  answered (failure f) = due (failed_update id (error_text f))
  answered (panic m) = crashed

  abbrev step : Phase → Call → Phase
  step p metric_call = p
  step idle (create_call k s a) = if claims k s then acknowledged running refused a else strayed
  step idle (update_call u a) =
      if claims u.id u.status then acknowledged running refused a else strayed
  step running (predict_call _ _ a) = answered a
  step (due u) (update_call _ a) = acknowledged closed lost a
  step closed (get_call k _) = if str_eq k id then closed else strayed
  step _ _ = strayed

  abbrev pub phase_of : List Call → Phase
  phase_of [] = idle
  phase_of (c ∷ cs) = step (phase_of cs) c

  -- What is asked of the platform is the request, and the update that is sent is the one that is due.
  abbrev Carries : Phase → Call → Type 0
  Carries running (predict_call r v _) = (r ≡ request) × (v ≡ version)
  Carries (due u) (update_call v _) = v ≡ u
  Carries _ _ = Unit

  abbrev pub Conforms : List Call → Type 0
  Conforms [] = Unit
  Conforms (c ∷ cs) = Carries (phase_of cs) c × Conforms cs
