-- ===== src/Worker/Distributor/Records.antt =====
-- Not code: what is documented of the webhook service, as a store of records that keeps what it is
-- told, and what the checks are to do to such a store.
use serving_agent.Common.{
  String, Bool, false, eq_iff, subst, Bool-cases, inl, inr, ◌≡◌, ◌&&◌, ◌||◌, not, Option, none,
  some, List, Result, ok, err, contains, str_eq, if◌then◌else◌,
}
use serving_agent.Platform.{Webhook, TaskInfo, UpdateRequest}

-- What the checks look at in a record.
pub record Entry : Type 0 where
  pub status : String
  pub queue_id : String

-- A record has two copies: the one that a question is answered with, which may have expired, and the
-- one in the database.
abbrev pub Copies : Type 0
Copies = Option Entry × Option Entry

-- An empty text in an update leaves the record's text alone.
abbrev pub kept : String → String → String
kept old new = if str_eq new "" then old else new

abbrev changed : UpdateRequest → Option Entry → Option Entry
changed u none = none
changed u (some t) =
    some (record { status = kept t.status u.status; queue_id = kept t.queue_id u.queue_id })

abbrev pub written : UpdateRequest → Copies → Copies
written u (shown, row) = (if u.database_only then shown else changed u shown, changed u row)

-- What an acknowledged update does to its record; of one that was refused nothing is known, but no
-- update touches another record.
pub record RecordStore {E : Type 0} (webhook : Webhook E) : Type 0 where
  pub copies : E → String → Copies
  pub copies-get :
      (id k : String) (e : E) → copies (webhook.get_task_info_object id e).1 k ≡ copies e k
  pub copies-update :
      (u : UpdateRequest) (e : E)
      → (webhook.update_task_info u e).0 ≡ ok tt
      → copies (webhook.update_task_info u e).1 u.id ≡ written u (copies e u.id)
  pub copies-others :
      (u : UpdateRequest) (k : String) (e : E)
      → str_eq u.id k ≡ false
      → copies (webhook.update_task_info u e).1 k ≡ copies e k

-- The answer to a question about a record: an error where there is none to show.
abbrev pub Answers : Option Entry → Result TaskInfo → Type 0
Answers none (err _) = Unit
Answers (some t) (ok info) = (info.status ≡ t.status) × (info.queue_id ≡ t.queue_id)
Answers _ _ = ⊥

-- No update is refused, and no question about a record that can be shown fails.
pub record IsReachable {E : Type 0} (webhook : Webhook E) (store : RecordStore webhook)
    : Type 0 where
  pub update-ok : (u : UpdateRequest) (e : E) → (webhook.update_task_info u e).0 ≡ ok tt
  pub get-Answers :
      (id : String) (e : E) → Answers (store.copies e id).0 (webhook.get_task_info_object id e).0

abbrev pub failed_entry : Option Entry → Option Entry
failed_entry none = none
failed_entry (some t) = some (record t { status = "failed" })

abbrev pub failed_copies : Copies → Copies
failed_copies (shown, row) = (failed_entry shown, failed_entry row)

-- A record that has this status although its task is not in the queue is given up; of one that cannot
-- be shown, the database's copy.
abbrev pub given_up : List String → String → Copies → Copies
given_up unfinished status (none, row) = (none, failed_entry row)
given_up unfinished status (some t, row) =
    if not (contains unfinished t.queue_id) && str_eq t.status status
    then failed_copies (some t, row)
    else (some t, row)

-- The same for a record that was named as pending or as running.
abbrev pub settled : List String → Bool → Bool → Copies → Copies
settled unfinished pending running (none, row) =
    if pending || running then (none, failed_entry row) else (none, row)
settled unfinished pending running (some t, row) =
    if not (contains unfinished t.queue_id)
      && (pending && str_eq t.status "pending" || running && str_eq t.status "running")
    then failed_copies (some t, row)
    else (some t, row)

-- The law of a reachable service, for any record.
pub copies-written :
    {E : Type 0} (webhook : Webhook E) (store : RecordStore webhook) (u : UpdateRequest)
    (k : String) (e : E)
    → (webhook.update_task_info u e).0 ≡ ok tt
    → store.copies (webhook.update_task_info u e).1 k
      ≡ (if str_eq u.id k then written u (store.copies e k) else store.copies e k)
copies-written webhook store u k e good = elim (Bool-cases (str_eq u.id k)) [
  | inl same ↦
      let is : u.id ≡ k = (eq_iff u.id k).0 same in
      rw same (
        subst (λ j. store.copies (webhook.update_task_info u e).1 j ≡ written u (store.copies e j))
          is (store.copies-update u e good))
  | inr other ↦ rw other (store.copies-others u k e other)
]
