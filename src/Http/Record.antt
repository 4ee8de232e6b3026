-- ===== src/Http/Record.antt =====
-- Not code: a world that records, newest first, the requests with their answers, the closed
-- responses and the seconds slept.
use serving_agent.Common.{ℕ, suc, ◌+◌, List, [], ◌∷◌, Result, ok}
use serving_agent.Http.{HttpRequest, HttpResponse, Http, Fetcher}

pub data HttpCall : Type 0 where
  sent : HttpRequest → Result HttpResponse → HttpCall
  closed : HttpResponse → HttpCall
  slept : ℕ → HttpCall

pub record HttpWorld (E : Type 0) : Type 0 where
  pub env : E
  pub log : List HttpCall

abbrev pub fresh : {E : Type 0} → E → HttpWorld E
fresh e = record { env = e; log = [] }

abbrev pub recorded_http : {E : Type 0} → Http E → Http (HttpWorld E)
recorded_http h = record {
  builds = h.builds;
  perform = λ timeout req w.
      let (a, e) = h.perform timeout req w.env in (a, record { env = e; log = sent req a ∷ w.log });
  close =
      λ res w. let (a, e) = h.close res w.env in (a, record { env = e; log = closed res ∷ w.log });
  sleep = λ n w. let (a, e) = h.sleep n w.env in (a, record { env = e; log = slept n ∷ w.log });
}

abbrev pub num_sent : List HttpCall → ℕ
num_sent [] = 0
num_sent (sent _ _ ∷ log) = suc (num_sent log)
num_sent (_ ∷ log) = num_sent log

-- The responses that arrived, and so were opened.
abbrev pub num_opened : List HttpCall → ℕ
num_opened [] = 0
num_opened (sent _ (ok _) ∷ log) = suc (num_opened log)
num_opened (_ ∷ log) = num_opened log

abbrev pub num_closed : List HttpCall → ℕ
num_closed [] = 0
num_closed (closed _ ∷ log) = suc (num_closed log)
num_closed (_ ∷ log) = num_closed log

abbrev pub time_slept : List HttpCall → ℕ
time_slept [] = 0
time_slept (slept n ∷ log) = n + time_slept log
time_slept (_ ∷ log) = time_slept log

-- A fetcher's call counts as one request, however often it tries.
abbrev pub recorded_fetcher : {E : Type 0} → Fetcher E → Fetcher (HttpWorld E)
recorded_fetcher f = record {
  send_request = λ req timeout retries w.
      let (a, e) = f.send_request req timeout retries w.env in
      (a, record { env = e; log = sent req a ∷ w.log });
}
