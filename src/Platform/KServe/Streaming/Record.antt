-- ===== src/Platform/KServe/Streaming/Record.antt =====
-- Not code: a world that records, newest first, what happens while a generation is streamed.
use serving_agent.Common.{Bool, List, [], ◌∷◌, Exec, Result}
use serving_agent.Http.{HttpRequest, HttpResponse, Http}
use serving_agent.Platform.KServe.Streaming.{StreamingMessage, StreamClient}

pub data StreamCall : Type 0 where
  sent : HttpRequest → Result HttpResponse → StreamCall
  closed : HttpResponse → StreamCall
  looked : Bool → StreamCall
  encoded : StreamingMessage → Result (Unit {0}) → StreamCall
  flushed : StreamCall

pub record StreamWorld (E : Type 0) : Type 0 where
  pub env : E
  pub log : List StreamCall

abbrev pub fresh : {E : Type 0} → E → StreamWorld E
fresh e = record { env = e; log = [] }

abbrev pub noted : {E A : Type 0} → (A → StreamCall) → Exec E A → Exec (StreamWorld E) A
noted call run w = let (a, e) = run w.env in (a, record { env = e; log = call a ∷ w.log })

-- `sleep` is not called.
abbrev pub recorded_http : {E : Type 0} → Http E → Http (StreamWorld E)
recorded_http h = record {
  builds = h.builds;
  perform = λ timeout req. noted (sent req) (h.perform timeout req);
  close = λ res. noted (λ _. closed res) (h.close res);
  sleep = λ n w. let (a, e) = h.sleep n w.env in (a, record { env = e; log = w.log });
}

abbrev pub recorded_client : {E : Type 0} → StreamClient E → StreamClient (StreamWorld E)
recorded_client c = record {
  is_gone = noted looked c.is_gone;
  encode = λ m. noted (encoded m) (c.encode m);
  flush = noted (λ _. flushed) c.flush;
}
