-- ===== src/Server/Perimeter/Admission.antt =====
-- What the listener admits (src/server.rs, socket_admit), and what it answers itself.
use nano_llm.Common.{
  ℕ, ◌+◌, ◌-◌, Text, lit, text_eq, text_eq_iff, Bool, true, false, ◌≡◌, refl, ap, sym, subst, ◌∙◌,
  ◌⊎◌, inl, inr, ◌&&◌, Bool-cases, Option, List, [], ◌∷◌, ◌++◌, ◌==◌, ==→eq, arith,
}
use nano_llm.Config.{RuntimeRoute}
use nano_llm.Server.Sse.{HttpResponse}
use nano_llm.Server.Http.{HttpRequest, is_authenticated, valid_json_content_type, select_request_id}
use nano_llm.Server.Http.Bearer.{HasKey, is_authenticated_iff}
use nano_llm.Server.Perimeter.{
  GatewayErrorKind, contract, json_response, error_response, plain_error, with_request_id,
  models_response, SocketAdmission, respond, chat, is_chat, starts_with, handle_other, socket_admit,
}

starts_with-rest :
    (prefix text : Text) → starts_with prefix text ≡ true → (rest : Text) × (text ≡ prefix ++ rest)
unfolding starts_with
starts_with-rest [] text e = (text, refl)
starts_with-rest (p ∷ prefix) [] e = absurd (cc e)
starts_with-rest (p ∷ prefix) (b ∷ text) e =
    let (rest, same) = starts_with-rest prefix text (ground (arith, e)) in
    let first : p ≡ b = ground (arith, e) in (rest, cc (first, same))

starts_with-append : (prefix rest : Text) → starts_with prefix (prefix ++ rest) ≡ true
unfolding starts_with
starts_with-append [] rest = refl
starts_with-append (p ∷ prefix) rest =
    let again = starts_with-append prefix rest in ground (arith, again)

module _ (no_auth : Bool) (master_key : Option Text) (routes : List RuntimeRoute)
    (generated_uuid_v4 : Text) (request : HttpRequest) (available : ℕ) where
  -- Authentication is off, or the request carries the configured key.
  abbrev pub MayEnter : Type 0
  MayEnter = (no_auth ≡ true) ⊎ HasKey master_key request

  -- The request has this method and this path.
  abbrev pub Asks : Text → Text → Type 0
  Asks path method = (request.path ≡ path) × (request.method ≡ method)

  abbrev pub UnderV1 : Type 0
  UnderV1 = (rest : Text) × (request.path ≡ lit "/v1/" ++ rest)

  -- The answer to a request that is no chat, before it carries its id.
  pub data Other (answer : HttpResponse) : Type 0 where
    health :
        Asks (lit "/health") (lit "GET")
        → answer ≡ json_response 200 (lit "{\"status\":\"ok\"}")
        → answer.status ≡ 200
        → Other answer
    closed : UnderV1 → ¬ MayEnter → answer.status ≡ 401 → Other answer
    models :
        Asks (lit "/v1/models") (lit "GET")
        → MayEnter
        → answer ≡ models_response routes
        → answer.status ≡ 200
        → Other answer
    unknown :
        ¬ Asks (lit "/health") (lit "GET")
        → (¬ UnderV1) ⊎ (MayEnter × ¬ Asks (lit "/v1/models") (lit "GET"))
        → answer.status ≡ 404
        → Other answer

  -- What each refusal of a chat request means, and its status.
  abbrev pub Because : GatewayErrorKind → ℕ → Type 0
  Because GatewayErrorKind.authentication_failed status = (status ≡ 401) × ¬ MayEnter
  Because GatewayErrorKind.unsupported_media_type status =
      (status ≡ 415) × MayEnter × (valid_json_content_type request ≡ false)
  Because GatewayErrorKind.capacity_exhausted status =
      (status ≡ 503) × MayEnter × (valid_json_content_type request ≡ true) × (available ≡ 0)
  Because _ status = ⊥

  -- The verdict and the permits that are left, with the reason for them.
  pub data Admitted : SocketAdmission × ℕ → Type 0 where
    other :
        (answer : HttpResponse)
        → is_chat request ≡ false
        → Other answer
        → Admitted (
          respond (with_request_id answer (select_request_id request generated_uuid_v4)),
          available,
        )
    refused :
        (kind : GatewayErrorKind) (message : Text)
        → is_chat request ≡ true
        → Because kind (plain_error kind message).status
        → Admitted (
          respond (
              with_request_id
                (plain_error kind message)
                (select_request_id request generated_uuid_v4)),
          available,
        )
    admitted :
        (left : ℕ)
        → is_chat request ≡ true
        → MayEnter
        → valid_json_content_type request ≡ true
        → available ≡ left + 1
        → Admitted (chat (select_request_id request generated_uuid_v4), left)

  enters : is_authenticated no_auth master_key request ≡ true → MayEnter
  enters e = (is_authenticated_iff no_auth master_key request).0 e

  stays_out : is_authenticated no_auth master_key request ≡ false → ¬ MayEnter
  stays_out e h = cc (e, (is_authenticated_iff no_auth master_key request).1 h)

  same_line :
      (path method : Text)
      → (text_eq request.path path && text_eq request.method method) ≡ true
      → Asks path method
  same_line path method e = (
    (text_eq_iff request.path path).0 (ground (arith, e)),
    (text_eq_iff request.method method).0 (ground (arith, e)),
  )

  differs :
      (path method : Text)
      → (text_eq request.path path && text_eq request.method method) ≡ false
      → ¬ Asks path method
  differs path method e (p, m) =
      let same = (text_eq_iff request.path path).1 p in
      let like = (text_eq_iff request.method method).1 m in absurd (ground (arith, e, same, like))

  handle_other-Other :
      (answer : HttpResponse) × (handle_other no_auth master_key routes generated_uuid_v4 request
        ≡ with_request_id answer (select_request_id request generated_uuid_v4))
      × Other answer
  unfolding handle_other plain_error error_response contract json_response models_response
  handle_other-Other =
      elim (Bool-cases
        (text_eq request.path (lit "/health") && text_eq request.method (lit "GET"))) [
          | inl p ↦ rw p (_, refl, health (same_line _ _ p) refl refl)
          | inr p ↦ rw p (elim (Bool-cases (starts_with (lit "/v1/") request.path)) [
            | inr q ↦ rw q (
              _,
              refl,
              unknown (differs _ _ p)
                  (inl λ (rest, same).
                    cc (
                      q,
                      ap (starts_with (lit "/v1/")) same ∙ starts_with-append (lit "/v1/") rest,
                    ))
                  refl,
            )
            | inl q ↦ rw q (elim (Bool-cases (is_authenticated no_auth master_key request)) [
              | inr r ↦ rw r (_, refl, closed (starts_with-rest _ _ q) (stays_out r) refl)
              | inl r ↦
                  rw r
                    (elim (Bool-cases (
                      text_eq request.path (lit "/v1/models")
                      && text_eq request.method (lit "GET"))) [
                        | inl u ↦ rw u (_, refl, models (same_line _ _ u) (enters r) refl refl)
                        | inr u ↦
                            rw u (
                              _,
                              refl,
                              unknown (differs _ _ p) (inr (enters r, differs _ _ u)) refl,
                            )
                      ])
            ])
          ])
        ]

  otherwise :
      is_chat request ≡ false
      → Admitted
          (respond (handle_other no_auth master_key routes generated_uuid_v4 request), available)
  otherwise p =
      let (answer, same, why) = handle_other-Other in
      subst (λ r. Admitted (respond r, available)) (sym same) (other answer p why)

  -- `socket_admit` takes a permit exactly for a chat request that may enter and declares JSON, while
  -- one is left, and takes one. Any other request leaves the permits as they are and is answered at
  -- once, under its request id. A chat request that may not enter gets 401 whatever else is wrong
  -- with it, then one that does not declare JSON 415, then one for which no permit is left 503. Of
  -- the others, GET /health gets 200 without a key, anything below /v1/ that may not enter 401, GET
  -- /v1/models the models with 200, and all else 404.
  pub socket_admit-Admitted :
      Admitted (socket_admit no_auth master_key routes generated_uuid_v4 request available)
  unfolding socket_admit plain_error error_response contract json_response
  socket_admit-Admitted = elim (Bool-cases (is_chat request)) [
    | inr p ↦ rw p (otherwise p)
    | inl p ↦ rw p (elim (Bool-cases (is_authenticated no_auth master_key request)) [
      | inr q ↦ rw q (refused GatewayErrorKind.authentication_failed _ p (refl, stays_out q))
      | inl q ↦ rw q (elim (Bool-cases (valid_json_content_type request)) [
        | inr r ↦ rw r (refused GatewayErrorKind.unsupported_media_type _ p (refl, enters q, r))
        | inl r ↦ rw r (elim (Bool-cases (available == 0)) [
          | inl u ↦ rw u (
              refused GatewayErrorKind.capacity_exhausted _ p
                (refl, enters q, r, ==→eq available 0 u))
          | inr u ↦ rw u (admitted (available - 1) p (enters q) r (ground (arith, u)))
        ])
      ])
    ])
  ]
