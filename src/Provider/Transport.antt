-- ===== src/Provider/Transport.antt =====
-- The HTTP transport below the adapters (src/providers.rs): its requests and responses, and what an
-- implementation offers. The implementations are parameters.
use nano_llm.Common.{ℕ, Text, Bool, false, List, Result}

pub data TransportTlsVerification : Type 0 where
  bundled_roots : TransportTlsVerification

pub record SecureTransportPolicy : Type 0 where
  pub tls_verification : TransportTlsVerification
  pub follow_redirects : Bool

-- SecureTransportPolicy::default
abbrev pub secure : SecureTransportPolicy
secure = record {
  tls_verification = TransportTlsVerification.bundled_roots;
  follow_redirects = false;
}

pub record OutboundRequest : Type 0 where
  pub method : Text
  pub url : Text
  pub headers : List (Text × Text)
  pub body : Text

pub record OutboundResponse : Type 0 where
  pub status : ℕ
  pub body : Text

pub data TransportErrorKind : Type 0 where
  timed_out not_connected : TransportErrorKind

pub record TransportError : Type 0 where
  pub kind : TransportErrorKind

-- The items that the iterator over the body still has.
abbrev pub OutboundByteStream : Type 0
OutboundByteStream = List (Result TransportError Text)

pub record OutboundStreamResponse : Type 0 where
  pub status : ℕ
  pub body : OutboundByteStream

pub record OutboundTransport : Type 0 where
  pub execute : SecureTransportPolicy → OutboundRequest → Result TransportError OutboundResponse
  pub execute_stream :
      SecureTransportPolicy → OutboundRequest → Result TransportError OutboundStreamResponse
