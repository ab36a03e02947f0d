-- ===== src/OpenAiCompatible/Adapter/Outbound.antt =====
-- What the upstream reads from the request that src/openai_compatible.rs sends.
use nano_llm.Common.{
  suc, Text, lit, text_eq, text_eq-false, is_utf8, Distinct, Bool, true, false, ◌≡◌, ◌≢◌, refl, sym,
  ap, ◌∙◌, some, length, if◌then◌else◌, ok,
}
use nano_llm.Json.{JsonValue, Fields, of_fields, field}
use nano_llm.Config.{RuntimeTarget}
use nano_llm.Request.{CanonicalRequest}
use nano_llm.Request.Parse.{keys, decode_json_object}
use nano_llm.OpenAiCompatible.Encode.{encode_object, replace_field}
use nano_llm.OpenAiCompatible.Encode.Elements.{IsJson, HoldJson}
use nano_llm.OpenAiCompatible.Encode.Decoded.{decode_json_object-encode_object}
use nano_llm.OpenAiCompatible.Adapter.{
  or_empty, messages_of, compatible_messages, outbound_fields, outbound_request,
}
use nano_llm.OpenAiCompatible.Adapter.Replaced.{
  field-replace_field, Distinct-replace_field, HoldJson-replace_field, AreJson-combined,
  AreJson-messages_of,
}

-- The members that the upstream reads.
pub record IsSent (target : RuntimeTarget) (request : CanonicalRequest) (stream : Bool)
    (sent : Fields) : Type 0 where
  pub model : field sent (lit "model") ≡ some (JsonValue.string target.model_suffix)
  pub messages : field sent (lit "messages") ≡ some (compatible_messages request)
  pub streamed :
      field sent (lit "stream")
      ≡ (if stream then some (JsonValue.bool true) else field request.fields (lit "stream"))
  pub others :
      (name : Text)
      → name ≢ lit "model"
      → name ≢ lit "messages"
      → name ≢ lit "stream"
      → field sent name ≡ field request.fields name

untouched :
    (fields : Fields) (n : Text) (v : JsonValue) (name : Text)
    → name ≢ n
    → field (replace_field fields n v) name ≡ field fields name
untouched fields n v name other =
    field-replace_field fields n v name
    ∙ ap (λ t. if t then some v else field fields name) (text_eq-false n name λ p. other (sym p))

module _ (target : RuntimeTarget) (request : CanonicalRequest) where
  abbrev named : Fields
  named = replace_field request.fields (lit "model") (JsonValue.string target.model_suffix)

  abbrev told : Fields
  told = replace_field named (lit "messages") (compatible_messages request)

  told-IsSent : IsSent target request false told
  unfolding text_eq lit
  told-IsSent = record {
    model =
        field-replace_field named (lit "messages") (compatible_messages request) (lit "model")
        ∙ field-replace_field request.fields (lit "model") (JsonValue.string target.model_suffix)
            (lit "model");
    messages =
        field-replace_field named (lit "messages") (compatible_messages request) (lit "messages");
    streamed =
        field-replace_field named (lit "messages") (compatible_messages request) (lit "stream")
        ∙ field-replace_field request.fields (lit "model") (JsonValue.string target.model_suffix)
            (lit "stream");
    others = λ name m g s.
        untouched named (lit "messages") (compatible_messages request) name g
        ∙ untouched request.fields (lit "model") (JsonValue.string target.model_suffix) name m;
  }

  outbound_fields-IsSent :
      (stream : Bool) → IsSent target request stream (outbound_fields target request stream)
  unfolding outbound_fields text_eq lit
  outbound_fields-IsSent false = told-IsSent
  outbound_fields-IsSent true =
      let whole = told-IsSent in
      record {
        model =
            field-replace_field told (lit "stream") (JsonValue.bool true) (lit "model")
            ∙ whole.model;
        messages =
            field-replace_field told (lit "stream") (JsonValue.bool true) (lit "messages")
            ∙ whole.messages;
        streamed = field-replace_field told (lit "stream") (JsonValue.bool true) (lit "stream");
        others = λ name m g s.
            untouched told (lit "stream") (JsonValue.bool true) name s ∙ whole.others name m g s;
      }

  module _ (distinct : Distinct (keys request.fields)) (json : HoldJson (of_fields request.fields))
      (suffix : is_utf8 target.model_suffix ≡ true)
      (instruction : is_utf8 (or_empty request.instruction) ≡ true) where
    told-HoldJson : HoldJson (of_fields told)
    unfolding compatible_messages IsJson is_utf8 lit
    told-HoldJson =
        HoldJson-replace_field named (lit "messages") (compatible_messages request) refl
          (AreJson-combined request.instruction
            (messages_of (field request.fields (lit "messages"))) instruction
            (AreJson-messages_of request.fields (field request.fields (lit "messages")) json refl))
          (HoldJson-replace_field request.fields (lit "model")
            (JsonValue.string target.model_suffix) refl suffix json)

    told-Distinct : Distinct (keys told)
    told-Distinct = Distinct-replace_field named (lit "messages") (compatible_messages request) (
        Distinct-replace_field request.fields (lit "model") (JsonValue.string target.model_suffix)
          distinct)

    outbound_fields-decoded :
        (stream : Bool)
        → let sent = outbound_fields target request stream in
          decode_json_object (suc (length (encode_object sent))) (encode_object sent) ≡ ok sent
    unfolding outbound_fields is_utf8 lit IsJson
    outbound_fields-decoded false =
        decode_json_object-encode_object told told-Distinct told-HoldJson
    outbound_fields-decoded true =
        decode_json_object-encode_object (replace_field told (lit "stream") (JsonValue.bool true))
          (Distinct-replace_field told (lit "stream") (JsonValue.bool true) told-Distinct)
          (HoldJson-replace_field told (lit "stream") (JsonValue.bool true) refl tt told-HoldJson)

    -- For a request whose members are JSON of distinct names, and a model name and an instruction
    -- in UTF-8: the body of `outbound_request`, decoded as this program decodes its own requests,
    -- is an object that names the target's model, has the messages of `compatible_messages`, asks
    -- for a stream if one is wanted and as the request does otherwise, and has every other member
    -- as the request has it.
    pub outbound_request-IsSent :
        (stream : Bool)
        → let sent_body = (outbound_request target request stream).body in
          (sent : Fields) × (decode_json_object (suc (length sent_body)) sent_body ≡ ok sent)
          × IsSent target request stream sent
    unfolding outbound_request
    outbound_request-IsSent stream = (
      outbound_fields target request stream,
      outbound_fields-decoded stream,
      outbound_fields-IsSent stream,
    )
