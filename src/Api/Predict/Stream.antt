-- ===== src/Api/Predict/Stream.antt =====
-- The handler `generate` keeps to the protocol of a stream, as a machine over the calls of a run.
use serving_agent.Common.{
  Bool, true, false, ℕ, String, ◌≡◌, ◌≢◌, ◌⊎◌, ◌&&◌, List, [], ◌∷◌, arith, eq_iff, str_eq, ok, err,
  some, Result, if◌then◌else◌,
}
use serving_agent.Platform.{
  Format, InferRequest, UpdateRequest, update_of, error_text, Served, served, failure, panic,
}
use serving_agent.Worker.{Runtime}
use serving_agent.Worker.Predict.{failed_update}
use serving_agent.Api.{
  ResponseWriter, broken, Server, Reply, json, not_found, streamed, panicked, convert_error_code,
  with_upload_webhook,
}
use serving_agent.Api.Predict.{generate}
use serving_agent.Api.Predict.Records.{run_generate, fresh_id}
use serving_agent.Trace.{Call, create_call, update_call, generate_call, now_call}

-- How far the stream has come: `started` and `ended` know when it began, and `due` the update that
-- tells the webhook of its end; `strayed` is a call that the protocol does not allow.
pub data Phase : Type 0 where
  idle : Phase
  refused : Phase
  running : Phase
  started : ℕ → Phase
  ended : ℕ → Phase
  due : UpdateRequest → Phase
  crashed : Phase
  closed : Phase
  lost : Phase
  strayed : Phase

abbrev acknowledged : {A : Type 0} → Phase → Phase → Result A → Phase
acknowledged good bad (ok _) = good
acknowledged good bad (err _) = bad

module _ (format : Format) (id : String) (request : InferRequest) where
  abbrev answered : ℕ → Served (Unit {0}) → Phase
  answered began (served _) = ended began
  answered began (failure f) = due (failed_update id (error_text f))
  answered began (panic m) = crashed

  -- The update for a stream that was written to its end.
  abbrev streamed_update : ℕ → ℕ → UpdateRequest
  streamed_update began now = record (update_of id) {
    status = "succeeded";
    running_time = format.seconds began now;
  }

  abbrev step : Phase → Call → Phase
  step idle (create_call k s a) =
      if str_eq k id && str_eq s "running" then acknowledged running refused a else strayed
  step running (now_call now) = started now
  step (started began) (generate_call _ _ a) = answered began a
  step (ended began) (now_call now) = due (streamed_update began now)
  step (due u) (update_call _ a) = acknowledged closed lost a
  step _ _ = strayed

  abbrev pub phase_of : List Call → Phase
  phase_of [] = idle
  phase_of (c ∷ cs) = step (phase_of cs) c

  abbrev Carries : Phase → Call → Type 0
  Carries (started began) (generate_call r v _) = (r ≡ request) × (v ≡ "v1")
  Carries (due u) (update_call v _) = v ≡ u
  Carries _ _ = Unit

  -- What is asked of the platform is the request, and the update that is sent is the one that is due.
  abbrev pub Conforms : List Call → Type 0
  Conforms [] = Unit
  Conforms (c ∷ cs) = Carries (phase_of cs) c × Conforms cs

-- What a reply tells of the phase, and of whether the header has been sent by the end of the stream.
abbrev pub RepliesIn : Bool → Reply → Phase → Type 0
RepliesIn written streamed p = p ≡ closed
RepliesIn written not_found p = p ≡ running
RepliesIn written (panicked m) p = p ≡ crashed
RepliesIn written (broken body) p = (written ≡ true) × ((p ≡ closed) ⊎ (p ≡ lost))
RepliesIn written (json code body) p =
    (code ≢ 200) × ((p ≡ refused) ⊎ ((written ≡ false) × ((p ≡ closed) ⊎ (p ≡ lost))))

module _ {E : Type 0} (format : Format) (runtime : Runtime E) (server : Server E) where
  -- If the upload address can be written into the request, then over any services a run of the
  -- handler `generate` is a run of the protocol of a stream, for the fresh id and the request
  -- with this address, and nothing else is called: a record is created as running; if that is
  -- acknowledged and the writer can flush, the clock is read and the platform is asked once; a
  -- failure is written to the record, and after a stream that was served, the clock is read again
  -- and the record is updated with the time between the readings. What was streamed to its end
  -- has a closed record, a 404 leaves the record running, and a panic means that the platform
  -- crashed. Any other reply is an error: its status is no 200 if the record could not be created
  -- or if the header has not been sent by the end of the stream; otherwise the error follows what
  -- was sent under the status 200.
  pub generate-Refines :
      (writer : ResponseWriter) (request sent : InferRequest) (uid : String) (e : E)
      → with_upload_webhook server.config request ≡ some sent
      → let (r, w) = run_generate format runtime server writer (ok request) uid e in
        RepliesIn writer.written r (phase_of format (fresh_id format runtime server e) sent w.calls)
        × Conforms format (fresh_id format runtime server e) sent w.calls
  unfolding generate convert_error_code
  generate-Refines writer request sent uid e uploads =
      let id = fresh_id format runtime server e in
      ground (arith, eq_iff id id, eq_iff "running" "running")
