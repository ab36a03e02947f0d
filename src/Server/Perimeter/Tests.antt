-- ===== src/Server/Perimeter/Tests.antt =====
-- A chat request at the edge of src/server.rs, and two threads that want the last permit.
use nano_llm.Common.{
  ◌+◌, ◌≤◌, lit, true, false, ◌≡◌, ◌↔◌, ◌⊎◌, refl, some, List, [], ◌∷◌, ◌++◌, map, length, ok,
  arith,
}
use nano_llm.Server.Capacity.{Thread, here, there, Reach, start, more, load, exchange, fail}
use nano_llm.Server.Capacity.Bounded.{held, Reach-bounded}
use nano_llm.Server.Http.{HttpRequest, is_authenticated}
use nano_llm.Server.Http.Bearer.{HasKey, is_authenticated_iff}
use nano_llm.Server.Serialize.{commas}
use nano_llm.Server.Perimeter.{
  max_request_body_bytes, buffer_body, socket_admit, json_response, models_response,
}
use nano_llm.Server.Perimeter.Body.{whole, OnTime, buffer_body_iff}
use nano_llm.Server.Perimeter.Admission.{Admitted, socket_admit-Admitted}
use nano_llm.Config.Tests.{raw, env, config, built}
use nano_llm.Server.Perimeter.Models.{escaped_entry, models_response-escaped}

abbrev request : HttpRequest
request = record {
  method = lit "POST";
  path = lit "/v1/chat/completions";
  headers =
      (lit "Authorization", lit "bearer key")
      ∷ (lit "Content-Type", lit "application/json; charset=UTF-8")
      ∷ [];
  body = [];
  body_chunks = some ((0, lit "{") ∷ (1000000000, lit "}") ∷ []);
}

is_authenticated_iff_example :
    (is_authenticated false (some (lit "key")) request ≡ true)
    ↔ ((false ≡ true) ⊎ HasKey (some (lit "key")) request)
is_authenticated_iff_example = is_authenticated_iff false (some (lit "key")) request

buffer_body_iff_example : (buffer_body request ≡ ok (lit "{}")) ↔ (
    (lit "{}" ≡ whole request.body_chunks request.body)
    × (length (lit "{}") ≤ max_request_body_bytes)
    × OnTime request.body_chunks)
buffer_body_iff_example = buffer_body_iff request (lit "{}")

socket_admit-Admitted_example :
    Admitted false
      (some (lit "key"))
      []
      (lit "id")
      request
      3
      (socket_admit false (some (lit "key")) [] (lit "id") request 3)
socket_admit-Admitted_example =
    socket_admit-Admitted false (some (lit "key")) [] (lit "id") request 3

abbrev two : List Thread
two = Thread.idle ∷ Thread.idle ∷ []

-- Both read the last permit, the first takes it, the second fails to and reads 0.
race :
    Reach
      (record { available = 1; threads = two })
      (record { available = 0; threads = Thread.holding ∷ Thread.seen 0 ∷ [] })
race =
    more (more (more (more start (here (load 1))) (there (here (load 1)))) (here (exchange 0)))
      (there (here (fail 0 1 (omega arith))))

Reach-bounded_example :
    (0 + held (Thread.holding ∷ Thread.seen 0 ∷ []) ≡ 1)
    × (held (Thread.holding ∷ Thread.seen 0 ∷ []) ≤ 1)
    × (0 ≤ 1)
Reach-bounded_example =
    Reach-bounded 1 two (record { available = 0; threads = Thread.holding ∷ Thread.seen 0 ∷ [] })
      (refl, (refl, tt)) race

models_response-escaped_example :
    models_response config.routes
    ≡ json_response 200 (
        lit "{\"object\":\"list\",\"data\":["
        ++ commas (map escaped_entry config.routes)
        ++ lit "]}")
models_response-escaped_example = models_response-escaped raw true env config built
