-- ===== src/Tests/Service.antt =====
-- A webhook service that keeps records under their addresses, and the checks with the client of it.
use text.Mathlib.TextLemmas.{append_cancel_left}
use serving_agent.Common.{
  String, Bool, false, ◌≡◌, refl, ◌<>◌, Option, none, some, [], ◌∷◌, Result, ok, err, plain, pure,
  true, str_eq, if◌then◌else◌, Exec, arith, eq_iff, ap, ◌∙◌, sym, subst,
}
use serving_agent.Http.{HttpRequest, HttpResponse, Http, Fetcher}
use serving_agent.Platform.{
  Webhook, Json, bool, null, str, obj, field, end, num, made, JsonCodec, UpdateRequest, TaskInfo,
}
use serving_agent.Platform.InternalWebhook.{TaskCodec, new_internal_webhook}
use serving_agent.Platform.InternalWebhook.Store.{RecordService, Shows}
use serving_agent.Worker.Distributor.Records.{Entry, Copies, written, kept}
use serving_agent.Tests.Fixtures.{config, format, payload_codec}
use serving_agent.Tests.Records.{runtime, distributor}
use serving_agent.System.Store.{webhook}
use serving_agent.Worker.Distributor.Failing.{LeavesAlone}
use serving_agent.Tests.Wire.{packed, unpacked, unpacked-packed}

abbrev url : String
url = (new_internal_webhook config).url

abbrev address : String → String
address k = url <> "/" <> k

-- What each address shows.
abbrev Site : Type 0
Site = String → Copies

abbrev text_of : Json → String
text_of (str s) = s
text_of
      (obj (
        field _ (str id) (
          field _ (str status) (
            field _ _ (field _ _ (field _ _ (field _ (str queue_id) (field _ (bool flag) _)))))))) =
    packed id status queue_id flag
text_of _ = ""

abbrev wire_codec : JsonCodec
wire_codec = record {
  write = λ v. ok (text_of v);
  parse = λ s. ok (str s);
  parse_map = λ s. ok (made end);
  parse_maps = λ s. ok (made (field "task_id" (str s) end) ∷ []);
  number = λ n. num n;
}

abbrev task_of_text : String → TaskInfo
task_of_text s =
    let (id, status, queue_id, _) = unpacked s in
    record {
      id = id;
      status = status;
      running_time = "";
      outputs = null;
      created_at = 0;
      error_info = "";
      queue_id = queue_id;
    }

abbrev wire_tasks : TaskCodec
wire_tasks = record { parse_task = λ s. ok (task_of_text s) }

abbrev changed : String → String → Option Entry → Option Entry
changed status queue_id none = none
changed status queue_id (some t) =
    some (record { status = kept t.status status; queue_id = kept t.queue_id queue_id })

abbrev both_changed : Bool → String → String → Copies → Copies
both_changed database_only status queue_id (shown, row) =
    (if database_only then shown else changed status queue_id shown, changed status queue_id row)

abbrev put : String × String × String × Bool → Site → Site
put (id, status, queue_id, database_only) site a =
    if str_eq (address id) a then both_changed database_only status queue_id (site a) else site a

abbrev shown : Option Entry → Result HttpResponse
shown none = ok (record { status_code = 404; body = ok "" })
shown (some t) = ok (record { status_code = 200; body = ok (packed "" t.status t.queue_id false) })

abbrev received : Option String → Site → Site
received none site = site
received (some bytes) site = put (unpacked bytes) site

-- A body with the question is a question about a model, for which record `t1` is named.
abbrev asked : String → Option String → Site → Result HttpResponse
asked a none site = shown (site a).0
asked a (some bytes) site = ok (record { status_code = 200; body = ok "t1" })

abbrev serve : String → String → Option String → Exec Site (Result HttpResponse)
serve method a body site =
    if str_eq method "PUT"
    then (ok (record { status_code = 200; body = ok "" }), received body site)
    else (asked a body site, site)

abbrev site_http : Http Site
site_http = record {
  builds = λ method a. true;
  perform = λ timeout req. pure (err (plain "unused"));
  close = λ res. pure tt;
  sleep = λ n. pure tt;
}

abbrev site_fetcher : Fetcher Site
site_fetcher = record { send_request = λ req timeout tries. serve req.method req.url req.body }

address-eq : (i k : String) → str_eq (address i) (address k) ≡ str_eq i k
address-eq i k = ground (
  arith,
  eq_iff i k,
  eq_iff (address i) (address k),
  append_cancel_left (url <> "/") i k,
  ap address,
)

changed_lem :
    (u : UpdateRequest) (c : Copies)
    → both_changed u.database_only u.status u.queue_id c ≡ written u c
changed_lem u (none, none) = refl
changed_lem u (none, some row) = refl
changed_lem u (some t, none) = refl
changed_lem u (some t, some row) = refl

put_lem :
    (u : UpdateRequest) (site : Site) (k : String)
    → put (unpacked (packed u.id u.status u.queue_id u.database_only)) site (address k)
      ≡ (if str_eq u.id k then written u (site (address k)) else site (address k))
put_lem u site k =
    ap (λ fields. put fields site (address k))
      (unpacked-packed u.id u.status u.queue_id u.database_only)
    ∙ rw (address-eq u.id k, changed_lem u (site (address k))) refl

shown-Shows : (v : Option Entry) → Shows wire_codec wire_tasks v (shown v)
shown-Shows none = λ h. omega (arith, h)
shown-Shows (some t) =
    let text = packed "" t.status t.queue_id false in
    (
      refl,
      (
        text,
        str text,
        text,
        task_of_text text,
        refl,
        refl,
        refl,
        refl,
        ap (λ x. x.1) (unpacked-packed "" t.status t.queue_id false),
        ap (λ x. x.2) (unpacked-packed "" t.status t.queue_id false),
      ),
    )

served_put :
    (u : UpdateRequest) (req : HttpRequest) (k : String) (site : Site)
    → req.method ≡ "PUT"
    → req.url ≡ url
    → req.body ≡ some (packed u.id u.status u.queue_id u.database_only)
    → (serve req.method req.url req.body site).1 (address k)
      ≡ (if str_eq u.id k then written u (site (address k)) else site (address k))
served_put u req k site is_put at with_body = rw (is_put, with_body) (put_lem u site k)

served_get :
    (id : String) (req : HttpRequest) (site : Site)
    → req.method ≡ "GET"
    → req.url ≡ address id
    → req.body ≡ none
    → serve req.method req.url req.body site ≡ (shown (site (address id)).0, site)
served_get id req site is_get at bare = rw (is_get, at, bare) refl

served_put-200 :
    (req : HttpRequest) (site : Site)
    → req.method ≡ "PUT"
    → (serve req.method req.url req.body site).0 ≡ ok (record { status_code = 200; body = ok "" })
served_put-200 req site is_put = rw is_put refl

abbrev service :
    RecordService wire_codec wire_tasks site_http site_fetcher (new_internal_webhook config).url
service = record {
  copies = λ site k. site (address k);
  bytes_of = λ u. packed u.id u.status u.queue_id u.database_only;
  write-update = λ u. refl;
  builds-put = refl;
  builds-get = λ id t e is. refl;
  copies-close = λ res k e. refl;
  put-200 = λ u req t n e is_put at with_body. (ok "", served_put-200 req e is_put);
  copies-put = λ u req t n k e. served_put u req k e;
  copies-get = λ id req t n k e is_get at bare.
      ap (λ r. r.1 (address k)) (served_get id req e is_get at bare);
  get-Shows = λ id req t n e is_get at bare.
      subst (λ r. Shows wire_codec wire_tasks (e (address id)).0 r.0)
        (sym (served_get id req e is_get at bare)) (shown-Shows (e (address id)).0);
}

abbrev alone : LeavesAlone service.copies runtime distributor
alone = record { copies-delete = λ q id k e. refl; copies-now = λ k e. refl }

-- The task of the one record is not in the queue, and its copy to be shown has expired.
abbrev site : Site
site a =
    if str_eq a (address "t1")
    then (none, some (record { status = "pending"; queue_id = "q9" }))
    else (none, none)

abbrev failed : Copies
failed = (none, some (record { status = "failed"; queue_id = "q9" }))

abbrev client : Webhook Site
client =
    webhook config format wire_codec wire_tasks site_http site_fetcher payload_codec runtime
      distributor
