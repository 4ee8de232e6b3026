-- ===== src/Worker/Processor/Attempts.antt =====
-- How often the platform is asked for one task of the queue.
use serving_agent.Common.{
  ℕ, suc, ◌+◌, ◌≤◌, String, ◌≡◌, arith, eq_iff, ok, List, [], ◌∷◌, ◌++◌, ap, GoError,
}
use serving_agent.Platform.{Platform, Webhook, Format}
use serving_agent.Worker.{PayloadCodec, PayloadRunPrediction, Metrics}
use serving_agent.Worker.Predict.{
  TaskResult, done, failed, failed_skip_retry, panicked, process_task_run_prediction,
  succeeded_update, failed_update,
}
use serving_agent.Worker.Predict.Settles.{process_in}
use serving_agent.Trace.{Call, World, num_predictions, IsTerminal, status_of}

-- A result after which asynq runs the task again, as long as it may be retried: an error that does
-- not ask to skip the retry, or a panic, which asynq turns into an error.
abbrev pub IsRetriable : TaskResult → Type 0
IsRetriable done = ⊥
IsRetriable (failed e) = Unit
IsRetriable (failed_skip_retry m) = ⊥
IsRetriable (panicked m) = Unit

-- A task that asynq counts as done has a record with a final status.
abbrev pub IsFinal : String → TaskResult → List Call → Type 0
IsFinal id done cs = IsTerminal (status_of id cs)
IsFinal id _ cs = Unit

module _ {E : Type 0} (format : Format) (codec : PayloadCodec) (webhook : Webhook E)
    (platform : Platform E) (metrics : Metrics E) where
  abbrev process : String → World E → TaskResult × World E
  process bytes w = process_in format codec webhook platform metrics bytes w

  -- The calls on record when the run that begins in `w` is cut off: all that it would make, up to some
  -- moment.
  abbrev pub IsCutOff : String → World E → List Call → Type 0
  IsCutOff bytes w calls = (later : List Call) × ((process bytes w).1.calls ≡ later ++ calls)

  -- What is documented of asynq. A task that may be retried so many times is run, and run again after
  -- a result that is retriable. A run can also be cut off: when its lease expires, which counts as a
  -- failure, and when the server is shut down before it is over, after which the task is put back
  -- into the queue and no retry is counted; the second number counts this. Between two runs the
  -- services change as they will; the calls of the task stay on record. At the end are the last
  -- result and the world.
  pub data IsAttempted (bytes : String) : ℕ → ℕ → World E → TaskResult × World E → Type 0 where
    last : {n m : ℕ} {w : World E} → IsAttempted bytes n m w (process bytes w)
    retried :
        {n m : ℕ} {w : World E} {end : TaskResult × World E} (e : E)
        → IsRetriable (process bytes w).0
        → IsAttempted bytes n m (record (process bytes w).1 { env = e }) end
        → IsAttempted bytes (suc n) m w end
    expired :
        {n m : ℕ} {w : World E} {end : TaskResult × World E} (e : E) (calls : List Call)
        → IsCutOff bytes w calls
        → IsAttempted bytes n m (record { env = e; calls = calls }) end
        → IsAttempted bytes (suc n) m w end
    expired_last :
        {n m : ℕ} {w : World E} (e : E) (calls : List Call) (x : GoError)
        → IsCutOff bytes w calls
        → IsAttempted bytes n m w (failed x, record { env = e; calls = calls })
    put_back :
        {n m : ℕ} {w : World E} {end : TaskResult × World E} (e : E) (calls : List Call)
        → IsCutOff bytes w calls
        → IsAttempted bytes n m (record { env = e; calls = calls }) end
        → IsAttempted bytes n (suc m) w end

  process-num_predictions :
      (bytes : String) (w : World E)
      → num_predictions (process bytes w).1.calls ≤ num_predictions w.calls + 1
  unfolding process_task_run_prediction succeeded_update failed_update
  process-num_predictions bytes w = ground arith

  process-IsFinal :
      (bytes : String) (payload : PayloadRunPrediction) (w : World E)
      → codec.unmarshal bytes ≡ ok payload
      → IsFinal payload.id (process bytes w).0 (process bytes w).1.calls
  unfolding process_task_run_prediction succeeded_update failed_update
  process-IsFinal bytes payload w decoded =
      ground (arith, eq_iff payload.id payload.id, eq_iff "failed" "", eq_iff "succeeded" "")

  num_predictions-append :
      (later calls : List Call) → num_predictions calls ≤ num_predictions (later ++ calls)
  num_predictions-append [] calls = omega arith
  num_predictions-append (c ∷ later) calls = ground (arith, num_predictions-append later calls)

  cut_off-num_predictions :
      (bytes : String) (w : World E) (calls : List Call)
      → IsCutOff bytes w calls
      → num_predictions calls ≤ num_predictions w.calls + 1
  cut_off-num_predictions bytes w calls (later, whole) =
      let fewer = num_predictions-append later calls in
      let all = process-num_predictions bytes w in
      omega (arith, fewer, all, ap num_predictions whole)

  pub attempts-num_predictions :
      (bytes : String) (n m : ℕ) {w : World E} {end : TaskResult × World E}
      → IsAttempted bytes n m w end
      → num_predictions end.1.calls ≤ num_predictions w.calls + (n + 1 + m)
  attempts-num_predictions bytes n m (last {w = w}) = omega (arith, process-num_predictions bytes w)
  attempts-num_predictions bytes _ m (retried {n} {w = w} e again rest) =
      omega (arith, process-num_predictions bytes w, attempts-num_predictions bytes n m rest)
  attempts-num_predictions bytes _ m (expired {n} {w = w} e calls cut rest) =
      omega
        (arith, cut_off-num_predictions bytes w calls cut, attempts-num_predictions bytes n m rest)
  attempts-num_predictions bytes n m (expired_last {w = w} e calls x cut) =
      omega (arith, cut_off-num_predictions bytes w calls cut)
  attempts-num_predictions bytes n _ (put_back {m = m} {w = w} e calls cut rest) =
      omega
        (arith, cut_off-num_predictions bytes w calls cut, attempts-num_predictions bytes n m rest)

  pub attempts-IsFinal :
      (bytes : String) (payload : PayloadRunPrediction) (n m : ℕ) {w : World E}
      {end : TaskResult × World E}
      → codec.unmarshal bytes ≡ ok payload
      → IsAttempted bytes n m w end
      → IsFinal payload.id end.0 end.1.calls
  attempts-IsFinal bytes payload n m decoded (last {w = w}) =
      process-IsFinal bytes payload w decoded
  attempts-IsFinal bytes payload _ m decoded (retried {n} e again rest) =
      attempts-IsFinal bytes payload n m decoded rest
  attempts-IsFinal bytes payload _ m decoded (expired {n} e calls cut rest) =
      attempts-IsFinal bytes payload n m decoded rest
  attempts-IsFinal bytes payload n m decoded (expired_last e calls x cut) = tt
  attempts-IsFinal bytes payload n _ decoded (put_back {m = m} e calls cut rest) =
      attempts-IsFinal bytes payload n m decoded rest
