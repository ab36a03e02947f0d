-- ===== src/Server/Tests.antt =====
-- Runs of the server code of src/server.rs, and the theorems about it at concrete inputs.
use nano_llm.Common.{
  ℕ, ◌*◌, ◌≡◌, ◌≤◌, refl, Text, lit, text_eq, true, false, Option, none, some, List, [], ◌∷◌, arith,
  if◌then◌else◌, Result, ok, err,
}
use nano_llm.Config.{ProviderKind, RuntimeTarget}
use nano_llm.Request.{CanonicalRequest, ToolChoice}
use nano_llm.Response.{
  FinishReason, NativeTerminal, ResponseMetadata, ChatResponse, normalize_terminal,
  validate_outcome, choice_allows, valid_usage, declared_tools,
}
use nano_llm.Json.{field}
use nano_llm.Response.Stream.{
  AssistantDelta, ChatChunk, StreamAssembler, new, accept_parts, sort_calls,
}
use nano_llm.Response.Stream.Push.{push, usage_chunk, completed_calls}
use nano_llm.Provider.{TargetErrorKind, TargetError, Poll, pending, ready, Provider, World}
use nano_llm.Provider
use nano_llm.Server.Dispatch.{
  RouteDispatch, RouteExhausted, block_on_until, dispatch_route, saturating_add, second,
  route_exhausted, AttemptOutcome, attempt_at,
}
use nano_llm.Server.Dispatch.Failover.{Served, dispatch_route-Served}
use nano_llm.Server.Dispatch.Terminates.{dispatch_route_total}
use nano_llm.Server.StreamDispatch.{StreamRouteDispatch, dispatch_stream_route}
use nano_llm.Server.StreamDispatch.Started.{Started, dispatch_stream_route-Started}
use nano_llm.Server.Gate.{StreamSuccessState, first, metadata_of}
use nano_llm.Server.Gate.Session.{
  Event, choice, usage, step, continue, emit, accept_all, emit-accepted,
}

abbrev request : CanonicalRequest
request = record {
  fields = [];
  model = lit "fast";
  stream = true;
  include_usage = true;
  max_tokens = none;
  temperature = none;
  top_p = none;
  stop = none;
  tool_choice = ToolChoice.none;
  instruction = none;
}

abbrev target : Text → RuntimeTarget
target model = record {
  model = model;
  provider = ProviderKind.openai;
  model_suffix = model;
  api_key = none;
  api_base = [];
  timeout = 8;
  explicit_timeout = none;
}

abbrev reply : ChatResponse
reply = record {
  id = lit "r";
  object = lit "chat.completion";
  created = 1;
  model = lit "fast";
  choices = [];
  usage = none;
}

abbrev opening : ChatChunk
opening = record {
  id = lit "chatcmpl-1-1";
  object = lit "chat.completion.chunk";
  created = 1;
  model = lit "fast";
  choices =
      record {
        index = 0;
        delta = record {
          role = some (lit "assistant");
          content = some (lit "hi");
          tool_calls = [];
        };
        finish_reason = none;
      }
      ∷ [];
  usage = none;
}

-- "down" refuses, "slow" never answers, anything else answers; a moment takes a second.
providers : RuntimeTarget → Provider
providers t = record {
  complete = λ _ m.
      if text_eq t.model (lit "down")
      then ready (err (Provider.from_upstream_status 503))
      else if text_eq t.model (lit "slow")
      then pending
      else ready (ok reply);
  complete_stream = λ _ m.
      if text_eq t.model (lit "down")
      then ready (err (Provider.from_upstream_status 503))
      else ready (ok (λ k. some (ok opening)));
}

abbrev world : World
world = record { now = λ m. m * second; cancelled = λ m. false; provider_factory = providers }

runs : Unit {0}
unfolding dispatch_route block_on_until saturating_add providers text_eq lit
    Provider.from_upstream_status route_exhausted
runs = tt

abbrev served : RouteDispatch
served = record {
  response = reply;
  attempts =
      attempt_at 0 (target (lit "down"))
        (AttemptOutcome.failed TargetErrorKind.overloaded (some 503))
      ∷ attempt_at 1 (target (lit "slow")) (AttemptOutcome.failed TargetErrorKind.timeout none)
      ∷ attempt_at 2 (target (lit "up")) AttemptOutcome.succeeded
      ∷ [];
  diagnostics = record {
    requested_model = lit "fast";
    selected_provider = some ProviderKind.openai;
    selected_model = some (lit "up");
    attempt_count = 3;
    error_kind = none;
    upstream_status = none;
  };
}

abbrev route : List RuntimeTarget
route = target (lit "down") ∷ target (lit "slow") ∷ target (lit "up") ∷ []

failover_run : dispatch_route world 10 request 120 route 0 ≡ some (ok served, 32)
unfolding runs
failover_run = refl

dispatch_route-Served_example :
    Served world request (saturating_add 0 (120 * second)) 1 route 32 (ok served)
dispatch_route-Served_example =
    dispatch_route-Served world 10 request 120 route 0 32 (ok served) failover_run

silent_until : (m : ℕ) → 200 ≤ m → saturating_add 0 (120 * second) ≤ m * second
unfolding saturating_add
silent_until m h = omega arith

dispatch_route_total_example :
    (r : Result RouteExhausted RouteDispatch × ℕ) × (dispatch_route world 201 request 120 route 0
      ≡ some r)
dispatch_route_total_example =
    dispatch_route_total world request 120 route 0 201 200 silent_until (omega arith)

abbrev stream_route : List RuntimeTarget
stream_route = target (lit "down") ∷ target (lit "up") ∷ []

-- A moment takes half a second.
abbrev faster : World
faster = record world { now = λ m. m * 500000000 }

abbrev committed_to : StreamRouteDispatch
committed_to = record {
  first_chunk = opening;
  stream = λ k. some (ok opening);
  attempts =
      attempt_at 0 (target (lit "down"))
        (AttemptOutcome.failed TargetErrorKind.overloaded (some 503))
      ∷ attempt_at 1 (target (lit "up")) AttemptOutcome.succeeded
      ∷ [];
  diagnostics = record {
    requested_model = lit "fast";
    selected_provider = some ProviderKind.openai;
    selected_model = some (lit "up");
    attempt_count = 2;
    error_kind = none;
    upstream_status = none;
  };
  idle_timeout = 8 * second;
  include_usage = true;
}

stream_failover_run :
    dispatch_stream_route faster 10 request 120 stream_route 0 ≡ some (ok committed_to, 25)
unfolding runs dispatch_stream_route first
stream_failover_run = refl

dispatch_stream_route-Started_example :
    Started faster request (saturating_add 0 (120 * second)) 1 stream_route 25 (ok committed_to)
dispatch_stream_route-Started_example =
    dispatch_stream_route-Started faster 10 request 120 stream_route 0 25 (ok committed_to)
      stream_failover_run

abbrev says : Option Text → AssistantDelta
says text = record { role = none; content = text; tool_calls = [] }

abbrev events : List Event
events =
    choice 0 (says (some (lit "hi"))) none
    ∷ choice 0 (says none) (some NativeTerminal.stop)
    ∷ usage (record { prompt_tokens = 1; completion_tokens = 2; total_tokens = 3 })
    ∷ []

abbrev stamp : ResponseMetadata
stamp = record { id = lit "chatcmpl-1-1"; created = 1 }

streams : Unit {0}
unfolding emit step continue push usage_chunk new accept_parts completed_calls sort_calls
    normalize_terminal validate_outcome choice_allows valid_usage declared_tools field text_eq lit
streams = tt

-- What `emit` leaves after the opening chunk.
abbrev rest : List ChatChunk
rest =
    record opening {
      choices =
          record { index = 0; delta = says none; finish_reason = some FinishReason.stop } ∷ [];
    }
    ∷ record opening {
      choices = [];
      usage = some (record { prompt_tokens = 1; completion_tokens = 2; total_tokens = 3 });
    }
    ∷ []

abbrev ended : StreamAssembler
ended = record (new request stamp 1) {
  started = true;
  saw_content = true;
  terminal = true;
  emitted_usage = true;
}

stream_run : emit events (new request stamp 1) ≡ (opening ∷ rest, ended)
unfolding streams
stream_run = refl

emit-accepted_example :
    (g : StreamSuccessState) × (first opening true ≡ some g)
    × (lit "fast" ≡ lit "fast")
    × ((accept_all rest (metadata_of opening) g).0 ≡ true)
    × ((accept_all rest (metadata_of opening) g).1.terminal ≡ true)
emit-accepted_example = emit-accepted request stamp 1 events opening rest ended stream_run
