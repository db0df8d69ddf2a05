-- ===== src/Socks/Tests.antt =====
-- A request for the host "a" by the user "u", and a byte behind it.
use chaonet.Common.{ℕ, ◌≡◌, refl, false, List, [], ◌∷◌, ◌++◌, Option, some, ok, arith, replicate}
use chaonet.Buffer.{Buffer}
use chaonet.Buffer.Layout.{IsValid}
use chaonet.Socks.{Tunnels, on_server_message}
use chaonet.Socks.Requests.{
  Request, IsRequest, request_text, Answered, address, on_server_message-Answered,
}
use chaonet.Socks.Partial.{on_server_message-incomplete}

abbrev request : Request
request = record {
  port_high = 0;
  port_low = 80;
  ip_0 = 0;
  ip_1 = 0;
  ip_2 = 0;
  ip_3 = 1;
  user = 117 ∷ [];
  host = some (97 ∷ []);
}

request-IsRequest : IsRequest request
request-IsRequest = record {
  byte_0 = omega arith;
  byte_1 = omega arith;
  byte_2 = omega arith;
  byte_3 = omega arith;
  no_nul = (λ e. omega (arith, e), tt);
  named = (omega arith, (λ e. omega (arith, e), tt));
}

abbrev resolve : List ℕ → Option (List ℕ)
resolve name = some (10 ∷ 0 ∷ 0 ∷ 7 ∷ [])

abbrev no_tunnels : Tunnels
no_tunnels conn = false

abbrev whole : Buffer
whole = record {
  storage = replicate 8 0 ++ (request_text request ++ 9 ∷ 0 ∷ []);
  reader_index = 8;
  writer_index = 21;
}

-- The last byte has not come.
abbrev cut : Buffer
cut = record whole { writer_index = 19 }

whole-IsValid : IsValid whole
whole-IsValid = omega arith

cut-IsValid : IsValid cut
cut-IsValid = omega arith

on_server_message-Answered_example :
    Answered no_tunnels 5 whole request
      (9 ∷ [])
      (address resolve request)
      (on_server_message resolve no_tunnels 5 whole false)
on_server_message-Answered_example =
    on_server_message-Answered resolve no_tunnels 5 whole false request whole-IsValid refl
      request-IsRequest (9 ∷ []) refl (omega arith)

on_server_message-incomplete_example :
    on_server_message resolve no_tunnels 5 cut false ≡ ok (no_tunnels, cut, [])
on_server_message-incomplete_example =
    on_server_message-incomplete resolve no_tunnels 5 cut false request 0 [] cut-IsValid refl
      request-IsRequest refl (omega arith)
