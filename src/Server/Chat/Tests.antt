-- ===== src/Server/Chat/Tests.antt =====
-- A chat request to a configured model, answered by a provider of src/server.rs's kind that is slow
-- once.
use nano_llm.Common.{Text, lit, false, Option, none, some, [], ◌∷◌, ltb, if◌then◌else◌, err}
use nano_llm.Float.{F64}
use nano_llm.Provider.{TargetErrorKind, new, pending, ready, Provider, World}
use nano_llm.Server.Http.{HttpRequest}
use nano_llm.Server.Chat.Handled.{Handled}
use nano_llm.Server.Chat.Socket.Delivered.{Delivered}

abbrev overloaded : Provider
overloaded = record {
  complete = λ request moment.
      if ltb moment 9 then pending else ready (err (new TargetErrorKind.overloaded (some 503)));
  complete_stream = λ request moment. ready (err (new TargetErrorKind.overloaded (some 503)));
}

abbrev world : World
world = record {
  now = λ moment. moment;
  cancelled = λ moment. false;
  provider_factory = λ target. overloaded;
}

abbrev chat : HttpRequest
chat = record {
  method = lit "POST";
  path = lit "/v1/chat/completions";
  headers = (lit "content-type", lit "application/json") ∷ [];
  body =
      lit
        "{\"model\":\"own\",\"stream\":true,\"messages\":[{\"role\":\"user\",\"content\":\"Hi\"}]}";
  body_chunks = none;
}

abbrev no_floats : Text → Option F64
no_floats t = none
