-- ===== src/Server/Chat/Checks.antt =====
-- How the checks of a chat request are put together (src/server.rs, the matches of
-- chat_response_with_permit and of begin_socket_stream_with_permit).
use nano_llm.Common.{
  ◌≡◌, refl, sym, ◌∙◌, subst, ok_injective, Option, none, some, Result, ok, err, ok_or, ◌>>=◌,
}
use nano_llm.Request.{DecodeError}
use nano_llm.Request.Outcome.{Fault, Gives, gives, refuses}
use nano_llm.Request.Parse.Strings.{Stop, fault}
use nano_llm.Request.Parse.Strings.Ends.{Ends, ends, faults}
use nano_llm.Server.Chat.{
  CompletionContext, Exit, answered, panicked, decode_error_with_context, or_answer,
  parsed_or_answer,
}

-- A value with the property, or an end that R allows.
pub data Safe {A : Type 0} (R : Exit → Type 0) (P : A → Type 0) (m : Result Exit A) : Type 0 where
  safe : (a : A) → m ≡ ok a → P a → Safe R P m
  leaves : (x : Exit) → m ≡ err x → R x → Safe R P m

pub Safe-bind :
    {A B : Type 0} {R : Exit → Type 0} {P : A → Type 0} {Q : B → Type 0} (m : Result Exit A)
    (f : A → Result Exit B)
    → Safe R P m
    → ((a : A) → P a → Safe R Q (f a))
    → Safe R Q (m >>= f)
Safe-bind m f (safe a e h) k = rw e (k a h)
Safe-bind m f (leaves x e h) k = rw e (leaves x refl h)

pub or_answer-Safe :
    {A : Type 0} {R : Exit → Type 0} {P : A → Type 0} (context : CompletionContext)
    (m : Result Fault A)
    → ((a : A) → m ≡ ok a → P a)
    → ((error : DecodeError)
        → m ≡ err (Fault.refused error)
        → R (answered (decode_error_with_context error context)))
    → (m ≡ err Fault.panic → R panicked)
    → Safe R P (or_answer context m)
unfolding or_answer
or_answer-Safe context (ok a) h k l = safe a refl (h a refl)
or_answer-Safe context (err (Fault.refused error)) h k l = leaves _ refl (k error refl)
or_answer-Safe context (err Fault.panic) h k l = leaves panicked refl (l refl)

pub parsed_or_answer-Safe :
    {A : Type 0} {R : Exit → Type 0} {P Q : A → Type 0} (context : CompletionContext)
    (m : Result Stop A)
    → Ends P m
    → ((a : A) → m ≡ ok a → P a → Q a)
    → ((error : DecodeError)
        → m ≡ err (fault (Fault.refused error))
        → R (answered (decode_error_with_context error context)))
    → (m ≡ err (fault Fault.panic) → R panicked)
    → Safe R Q (parsed_or_answer context m)
unfolding parsed_or_answer or_answer
parsed_or_answer-Safe context m (ends a e h) g k l = rw e (safe a refl (g a e h))
parsed_or_answer-Safe context m (faults (Fault.refused error) e) g k l =
    rw e (leaves _ refl (k error e))
parsed_or_answer-Safe context m (faults Fault.panic e) g k l = rw e (leaves panicked refl (l e))

pub known-Safe :
    {A : Type 0} {R : Exit → Type 0} {P : A → Type 0} (o : Option A) (x : Exit)
    → (o ≡ none → R x)
    → ((a : A) → o ≡ some a → P a)
    → Safe R P (ok_or o x)
known-Safe none x h k = leaves x refl (h refl)
known-Safe (some a) x h k = safe a refl (k a refl)

pub Gives-value :
    {A : Type 0} {P : A → Type 0} {m : Result Fault A} (a : A) → Gives m P → m ≡ ok a → P a
Gives-value {P = P} a (gives b e h) r = subst P (ok_injective (sym e ∙ r)) h
Gives-value a (refuses x e) r = absurd (cc (e, r))

pub Gives-no_panic :
    {A : Type 0} {P : A → Type 0} {m : Result Fault A} → Gives m P → ¬ (m ≡ err Fault.panic)
Gives-no_panic (gives b e h) r = absurd (cc (e, r))
Gives-no_panic (refuses x e) r = absurd (cc (e, r))
