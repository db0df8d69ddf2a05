-- ===== src/HttpServer/Answer.antt =====
-- From the bytes of a request to the bytes of its response.
use chaonet.Common.{
  ℕ, ◌+◌, ◌≤◌, ◌<◌, ◌≡◌, ap, ◌∙◌, Bool, true, false, List, [], ◌∷◌, ◌++◌, Option, none, some,
  Result, ok, ◌>>=◌, if◌then◌else◌, length, arith,
}
use chaonet.Buffer.{Buffer, fresh, contents, max_size}
use chaonet.Buffer.Layout.{IsValid}
use chaonet.Http.{Request, Context, new_context}
use chaonet.Http.Whole.{Parts, IsWritten, Reads, request_text, parse_request-text}
use chaonet.HttpResponse.{Response, unknown_status}
use chaonet.HttpResponse.Written.{message_text, power, append_to_buffer-Grew}
use chaonet.HttpServer.Closing.{WantsClose, WantsClose-true, wants_close-WantsClose}
use chaonet.HttpServer.{
  Effect, sends, shuts_down, wants_close, when_closing, on_request, after_parse, on_message,
}

-- The response that a callback is given.
abbrev pub empty_response : Bool → Response
empty_response close = record {
  headers = [];
  status_code = unknown_status;
  status_message = [];
  close_connection = close;
  body = [];
}

-- A response that can be written.
pub record IsWritable (r : Response) : Type 0 where
  pub short : length r.body < power 12
  pub room : 8 + length (message_text r) ≤ max_size

-- What is told a connection that gets a response.
pub record Told (r : Response) (effects : List Effect) : Type 0 where
  pub closing : r.close_connection ≡ true → effects ≡ sends (message_text r) ∷ shuts_down ∷ []
  pub keeping : r.close_connection ≡ false → effects ≡ sends (message_text r) ∷ []

on_request-text :
    (callback : Request → Response → Response) (req : Request)
    → IsWritable (callback req (empty_response (wants_close req)))
    → (effects : List Effect) × (on_request callback req none ≡ ok effects)
      × Told (callback req (empty_response (wants_close req))) effects
unfolding on_request
on_request-text callback req w =
    let r = callback req (empty_response (wants_close req)) in
    let (out, run, g) =
      append_to_buffer-Grew r fresh fresh-IsValid w.short (omega (arith, w.room)) in
    (
      sends (message_text r) ∷ when_closing r,
      ap (λ o. o >>= λ b. ok (sends (contents b) ∷ when_closing r)) run
          ∙ ap (λ text. ok (sends text ∷ when_closing r)) g.appended,
      record {
        closing = λ h. ap (λ b. sends (message_text r) ∷ (if b then shuts_down ∷ [] else [])) h;
        keeping = λ h. ap (λ b. sends (message_text r) ∷ (if b then shuts_down ∷ [] else [])) h;
      },
    )
  where
    fresh-IsValid : IsValid fresh
    fresh-IsValid = omega arith

-- How a whole request is answered.
pub record Answered (callback : Request → Response → Response) (p : Parts) (time : ℕ)
    (rest : List ℕ) (o : Option (Result (List Effect × Context × Buffer))) : Type 0 where
  pub request : Request
  pub reads : Reads p time request
  pub close : Bool
  pub closes_if : WantsClose p → close ≡ true
  pub closes_only_if : close ≡ true → WantsClose p
  pub effects : List Effect
  pub told : Told (callback request (empty_response close)) effects
  pub left : Buffer
  pub run : o ≡ some (ok (effects, new_context, left))
  pub valid : IsValid left
  pub stays : contents left ≡ rest

-- A whole request at the front of the buffer of a new connection, for which no file is opened, is
-- answered with the text of the response that the callback makes for its parts and an empty response,
-- which closes the connection exactly if the client wants it, provided that the response can be
-- written. The connection is shut down if the callback's response says so, and only then. The parser is
-- new again, and the bytes behind the request stay in the buffer. One pass of the parser for each line
-- is enough.
pub on_message-text :
    (callback : Request → Response → Response) (p : Parts) (fuel : ℕ) (b : Buffer) (time : ℕ)
    (rest : List ℕ)
    → length p.headers + 1 < fuel
    → IsWritten p
    → IsValid b
    → contents b ≡ request_text p ++ rest
    → ((req : Request) (close : Bool)
        → Reads p time req
        → IsWritable (callback req (empty_response close)))
    → Answered callback p time rest (on_message fuel callback none new_context b time)
unfolding on_message after_parse
on_message-text callback p fuel b time rest n w v e writable =
    let (b', req, run, reads, valid, left) = parse_request-text p fuel b time rest n w v e in
    let (effects, answered, told) =
      on_request-text callback req (writable req (wants_close req) reads) in
    record {
      request = req;
      reads = reads;
      close = wants_close req;
      closes_if = WantsClose-true p time req reads;
      closes_only_if = wants_close-WantsClose p time req reads;
      effects = effects;
      told = told;
      left = b';
      run =
          ap (λ r. elim r [ none ↦ none | some o ↦ some (o >>= after_parse callback none) ]) run
          ∙ ap (λ o. some (o >>= λ es. ok (es, new_context, b'))) answered;
      valid = valid;
      stays = left;
    }
