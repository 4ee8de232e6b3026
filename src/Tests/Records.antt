-- ===== src/Tests/Records.antt =====
-- A webhook service that keeps its records, and the two checks over it.
use serving_agent.Common.{
  false, eq_iff, ◌≡◌, ◌≢◌, refl, String, Option, none, some, [], ◌∷◌, ok, err, plain, pure, Result,
  str_eq, if◌then◌else◌,
}
use serving_agent.Worker.Predict.{process_task_run_prediction}
use serving_agent.Worker.Predict.Stored.{Leaves, LeavesRecords, process-Leaves}
use serving_agent.Platform.{Platform, served, Webhook, TaskInfo, UpdateRequest, null}
use serving_agent.Worker.{TaskDistributor, Runtime, Metrics}
use serving_agent.Worker.Distributor.Records.{
  Entry, Copies, RecordStore, IsReachable, Answers, written,
}
use serving_agent.Worker.Distributor.Failing.{LeavesAlone}
use serving_agent.Tests.Fixtures.{queued, payload_codec, payload, response, format}

abbrev pub Records : Type 0
Records = String → Copies

abbrev info_of : String → Option Entry → Result TaskInfo
info_of id none = err (plain "no such task")
info_of id (some t) = ok (record {
  id = id;
  status = t.status;
  running_time = "";
  outputs = null;
  created_at = 0;
  error_info = "";
  queue_id = t.queue_id;
})

info_of-Answers : (id : String) (v : Option Entry) → Answers v (info_of id v)
info_of-Answers id none = tt
info_of-Answers id (some t) = (refl, refl)

-- Two records are named as pending, and one as running.
abbrev webhook : Webhook Records
webhook = record {
  create_new_task = λ id uid model status n. pure (ok "created");
  update_task_info =
      λ u records. (ok tt, λ k. if str_eq u.id k then written u (records k) else records k);
  get_task_info = λ id. pure (ok null);
  get_task_info_object = λ id records. (info_of id (records id).0, records);
  get_task_id_by_model_status =
      λ model status. pure (ok (if str_eq status "pending" then "t1" ∷ "t2" ∷ [] else "t3" ∷ []));
}

store-update :
    (u : UpdateRequest) (records : Records)
    → (webhook.update_task_info u records).1 u.id ≡ written u (records u.id)
store-update u records = rw ((eq_iff u.id u.id).1 refl) refl

store-others :
    (u : UpdateRequest) (k : String) (records : Records)
    → str_eq u.id k ≡ false
    → (webhook.update_task_info u records).1 k ≡ records k
store-others u k records other = rw other refl

abbrev store : RecordStore webhook
store = record {
  copies = λ records. records;
  copies-get = λ id k records. refl;
  copies-update = λ u records good. store-update u records;
  copies-others = λ u k records other. store-others u k records other;
}

abbrev up : IsReachable webhook store
up = record {
  update-ok = λ u records. refl;
  get-Answers = λ id records. info_of-Answers id (records id).0;
}

abbrev pub distributor : TaskDistributor Records
distributor = record {
  distribute_task_run_prediction = λ p opts. pure (ok "q1");
  get_task_queue_info = λ q. pure (err (plain "redis is down"));
  delete_task = λ q id. pure (ok tt);
  list_archived_tasks = λ q. pure (ok (queued ∷ []));
  list_scheduled_tasks = λ q. pure (ok []);
  list_pending_tasks = λ q. pure (ok (queued ∷ []));
  list_retry_tasks = λ q. pure (ok []);
  list_active_tasks = λ q. pure (ok []);
  list_unfinished_tasks = λ q. pure (ok (queued ∷ []));
  pause_queue = λ q. pure (ok tt);
  unpause_queue = λ q. pure (ok tt);
}

abbrev pub runtime : Runtime Records
runtime = record { now = pure 7; sleep = λ n. pure tt; new_uuid = pure "t1" }

abbrev pub both : Entry → Copies
both t = (some t, some t)

-- The task of `t2` is in the queue; that of `t1` is lost; that of `t3` is running, and its copy to be
-- shown has expired.
abbrev records : Records
records k =
    if str_eq k "t1"
    then both (record { status = "pending"; queue_id = "q9" })
    else if str_eq k "t3"
    then (none, some (record { status = "running"; queue_id = "q9" }))
    else both (record { status = "pending"; queue_id = "q1" })

abbrev pub failed : Entry
failed = record { status = "failed"; queue_id = "q9" }

abbrev alone : LeavesAlone store.copies runtime distributor
alone = record { copies-delete = λ q id k e. refl; copies-now = λ k e. refl }

abbrev platform : Platform Records
platform = record {
  predict = λ req version. pure (served response);
  generate = λ req version. pure (served tt);
  docs = λ req. pure (served null);
}

abbrev metrics : Metrics Records
metrics = record {
  predict_failure_inc = pure tt;
  predict_time_set = λ x. pure tt;
  queue_size_set = λ n. pure tt;
  queue_size_ratio_set = λ n k. pure tt;
  task_status_set_to_failed_set = λ n. pure tt;
}

abbrev others : LeavesRecords store.copies platform metrics
others = record {
  copies-predict = λ req version k e. refl;
  copies-failure_inc = λ k e. refl;
  copies-time_set = λ n k e. refl;
}

process-Leaves_example :
    let (res, after) =
      process_task_run_prediction format payload_codec webhook platform metrics "task" records in
    Leaves res (records "t1") (after "t1") × ((k : String) → "t1" ≢ k → after k ≡ records k)
process-Leaves_example =
    process-Leaves format payload_codec webhook platform metrics store others "task" payload records
      refl
