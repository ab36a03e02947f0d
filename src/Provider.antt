-- ===== src/Provider.antt =====
-- The boundary between routing and the provider adapters (src/providers.rs): target errors, and
-- what a provider is to the router. The adapters and the network behind it are parameters.
pub mod Transport
use nano_llm.Common.{
  ℕ, Text, lit, Bool, Option, none, some, leb, ◌==◌, ◌&&◌, ◌||◌, if◌then◌else◌, Result,
}
use nano_llm.Config.{RuntimeTarget}
use nano_llm.Request.{CanonicalRequest}
use nano_llm.Response.{ChatResponse}
use nano_llm.Response.Stream.{ChatChunk}

pub data TargetErrorKind : Type 0 where
  timeout connection_error rate_limited authentication permission_denied rejected_request
        invalid_response overloaded upstream_http :
      TargetErrorKind

pub record TargetError : Type 0 where
  pub kind : TargetErrorKind
  pub upstream_status : Option ℕ
  pub safe_message : Text

unfoldable pub safe_message_of : TargetErrorKind → Text
safe_message_of TargetErrorKind.timeout = lit "upstream request timed out"
safe_message_of TargetErrorKind.connection_error = lit "could not connect to upstream"
safe_message_of TargetErrorKind.rate_limited = lit "upstream rate limited the request"
safe_message_of TargetErrorKind.authentication = lit "upstream authentication failed"
safe_message_of TargetErrorKind.permission_denied = lit "upstream permission denied"
safe_message_of TargetErrorKind.rejected_request = lit "upstream rejected the request"
safe_message_of TargetErrorKind.invalid_response = lit "upstream returned an invalid response"
safe_message_of TargetErrorKind.overloaded = lit "upstream is overloaded"
safe_message_of TargetErrorKind.upstream_http = lit "upstream returned an HTTP error"

unfoldable pub new : TargetErrorKind → Option ℕ → TargetError
unfolding safe_message_of
new kind upstream_status = record {
  kind = kind;
  upstream_status = upstream_status;
  safe_message = safe_message_of kind;
}

abbrev pub timed_out : TargetError
timed_out = new TargetErrorKind.timeout none

abbrev pub invalid : TargetError
invalid = new TargetErrorKind.invalid_response none

unfoldable pub status_kind : ℕ → TargetErrorKind
status_kind status =
    if status == 401
    then TargetErrorKind.authentication
    else if status == 403
    then TargetErrorKind.permission_denied
    else if status == 408 || status == 504
    then TargetErrorKind.timeout
    else if status == 429
    then TargetErrorKind.rate_limited
    else if leb 400 status && leb status 499
    then TargetErrorKind.rejected_request
    else if status == 503 || status == 529
    then TargetErrorKind.overloaded
    else TargetErrorKind.upstream_http

unfoldable pub from_upstream_status : ℕ → TargetError
unfolding new status_kind
from_upstream_status status = new (status_kind status) (some status)

pub data Poll (A : Type 0) : Type 0 where
  pending : Poll A
  ready : A → Poll A

-- The item that the k-th call of `next` on the iterator gives.
abbrev pub ProviderStream : Type 0
ProviderStream = ℕ → Option (Result TargetError ChatChunk)

-- A provider answers each poll of its operations; the number is the moment of the poll.
pub record Provider : Type 0 where
  pub complete : CanonicalRequest → ℕ → Poll (Result TargetError ChatResponse)
  pub complete_stream : CanonicalRequest → ℕ → Poll (Result TargetError ProviderStream)

-- What the router observes outside itself. Every look at the clock or at the cancellation flag,
-- every poll and every pull on a stream is one moment, and moments are numbered in order.
pub record World : Type 0 where
  pub now : ℕ → ℕ
  pub cancelled : ℕ → Bool
  pub provider_factory : RuntimeTarget → Provider
