-- ===== src/Lib.antt =====
-- nano-llm: a gateway that serves one chat endpoint from an ordered list of provider targets.
--
-- The parts and the files that model them (paths from the repository's root):
--   Json, Float                src/request.rs: JSON values; f64 as far as it is used.
--   Request                    src/request.rs: the decoder of chat requests. Outcome has its
--                              results, Shape the checks on values, Tools those on tools and
--                              options, Turns the turn machine and Conversation its grammar, Top
--                              validate_top, Canonical the canonical form, Route what a route asks
--                              of a request, Parse the JSON parser, whose position is the text
--                              that is left.
--   Response                   src/response.rs: usage, finish reasons, call identifiers (Ids),
--                              buffered answers (Buffered), the stream assembler (Stream).
--   Config                     src/config/: the runtime configuration. Raw and Error are raw.rs and
--                              error.rs, Secrets is secrets.rs, Names, ApiBase and Build are
--                              validate.rs, Display the route table of runtime.rs. Ipv6 is what the
--                              standard library reads as an IPv6 address.
--   Provider                   src/providers.rs: target errors, the provider interface, and the
--                              transport's (Transport).
--   OpenAiCompatible           src/openai_compatible.rs: what the upstream sends (Native), the
--                              event decoder (Decoder, with a reference without buffers in
--                              Decoder/Reference), the JSON that is sent (Encode), and complete and
--                              complete_stream (Adapter).
--   Server                     src/server.rs: routing (Dispatch, StreamDispatch), the check on
--                              chunks (Gate), the JSON that it writes (Serialize), the event
--                              stream (Sse), the permits for generations (Capacity), who may enter
--                              (Http), the admission of requests (Perimeter), and a chat
--                              request from its body to its answer (Chat, and Chat/Socket for the
--                              listener).
--   Common                     shared names, texts as UTF-8 bytes, results, lists.
-- A handler that mutates its receiver returns the new state beside its result. Static and dynamic
-- texts are byte lists, `lit` gives the bytes of an ASCII literal.
--
-- The outside of the program is a `World`: a clock, a cancellation flag and providers, each read at
-- numbered moments, so that any interleaving of time, disconnects and upstream progress is some
-- World. block_on_until takes fuel, and enough fuel is given by the moment at which the clock passes
-- the overall deadline. write_sse_stream takes fuel for one round more than the stream has items
-- left, the JSON parser for one more than the bytes of its input. The search for a call identifier
-- takes one round more than there are identifiers in use, which always suffices. `next` of the event
-- decoder takes one round more than there are bytes left, which always suffices too.
--
-- `unwrap` and `unreachable!` of the request decoder are a fault of their own, `panic`, beside the
-- refusals, so that a theorem can say that none is reached. Where the JSON parser panics on what the
-- upstream sends, `panicked` stands beside the errors of the target. Parsing of f64 is a parameter.
--
-- Not modelled: sockets, threads and signals, TLS and the HTTP client, logging, the YAML scanner and
-- the argument parser, which are libraries or pure input and output; the translation of requests and
-- answers for Anthropic and Gemini (src/anthropic.rs, src/gemini.rs), for which a provider is a
-- parameter; the reading of the configuration file (src/config/yaml.rs) and the command line
-- (src/cli.rs).
pub mod Common
pub mod Float
pub mod Json
pub mod Request
pub mod Config
pub mod Response
pub mod Provider
pub mod Server
pub mod OpenAiCompatible
