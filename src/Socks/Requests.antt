-- ===== src/Socks/Requests.antt =====
-- Requests of SOCKS 4 and 4a, written by a client and read by the proxy.
use chaonet.Common.{
  ℕ, ◌+◌, ◌*◌, ◌≤◌, ◌<◌, ◌≡◌, refl, sym, ap, ◌∙◌, subst, Bool, true, false, List, [], ◌∷◌, ◌++◌,
  append_assoc, Option, none, some, Result, ok, ◌>>=◌, lt→ltb, le→ltb-eq-false, if_true, if_false,
  length, drop, length-append, drop-append, find_byte, find_byte-found, Without, update, arith,
  get_or, ◌==◌, ◌&&◌, if◌then◌else◌,
}
use chaonet.Buffer.{Buffer, contents, readable_bytes, retrieve_until}
use chaonet.Buffer.Bytes.{swap32, load32, swap32-load32}
use chaonet.Buffer.Layout.{IsValid}
use chaonet.Buffer.Consume.{readable-length, retrieve_until-Took}
use chaonet.Socks.{
  Effect, opens, sends, shuts, Tunnels, complete, host_name, after_user, header_of, answer, granted,
  rejected, on_server_message, port_of,
}

-- A CONNECT request: a port and an address in network order, a user id, and for SOCKS 4a a host name
-- behind an address 0.0.0.x.
pub record Request : Type 0 where
  pub port_high : ℕ
  pub port_low : ℕ
  pub ip_0 : ℕ
  pub ip_1 : ℕ
  pub ip_2 : ℕ
  pub ip_3 : ℕ
  pub user : List ℕ
  pub host : Option (List ℕ)

abbrev pub host_text : Option (List ℕ) → List ℕ
host_text none = []
host_text (some name) = name ++ 0 ∷ []

abbrev pub user_text : Request → List ℕ
user_text r = r.user ++ 0 ∷ host_text r.host

abbrev pub request_text : Request → List ℕ
request_text r = 4 ∷ 1 ∷ r.port_high ∷ r.port_low ∷ r.ip_0 ∷ r.ip_1 ∷ r.ip_2 ∷ r.ip_3 ∷ user_text r

-- The address, most significant byte first.
abbrev pub ip_number : Request → ℕ
ip_number r = r.ip_0 * 16777216 + r.ip_1 * 65536 + r.ip_2 * 256 + r.ip_3

abbrev pub NameFits : Option (List ℕ) → ℕ → Type 0
NameFits none ip = 256 ≤ ip
NameFits (some name) ip = (ip < 256) × Without 0 name

pub record IsRequest (r : Request) : Type 0 where
  pub byte_0 : r.ip_0 < 256
  pub byte_1 : r.ip_1 < 256
  pub byte_2 : r.ip_2 < 256
  pub byte_3 : r.ip_3 < 256
  pub no_nul : Without 0 r.user
  pub named : NameFits r.host (ip_number r)

abbrev pub ip_bytes : Request → List ℕ
ip_bytes r = r.ip_0 ∷ r.ip_1 ∷ r.ip_2 ∷ r.ip_3 ∷ []

abbrev pub port_bytes : Request → List ℕ
port_bytes r = r.port_high ∷ r.port_low ∷ []

-- Where a request leads: to the address itself, or to the one of the host.
pub address_of : (List ℕ → Option (List ℕ)) → List ℕ → Option (List ℕ) → Option (List ℕ)
address_of resolve ip none = some ip
address_of resolve ip (some name) = resolve name

abbrev pub address : (List ℕ → Option (List ℕ)) → Request → Option (List ℕ)
address resolve r = address_of resolve (ip_bytes r) r.host

pub number-ip : (r : Request) → IsRequest r → swap32 (load32 (ip_bytes r)) ≡ ip_number r
number-ip r v = swap32-load32 r.ip_0 r.ip_1 r.ip_2 r.ip_3 v.byte_0 v.byte_1 v.byte_2 v.byte_3

module _ (resolve : List ℕ → Option (List ℕ)) where
  -- Behind the user id.
  after_user-host :
      (ip : List ℕ) (n : ℕ) (host : Option (List ℕ)) (at : ℕ) (rest : List ℕ)
      → swap32 (load32 ip) ≡ n
      → NameFits host n
      → after_user resolve ip at (0 ∷ (host_text host ++ rest))
        ≡ complete (address_of resolve ip host) (at + 1 + length (host_text host))
  unfolding after_user host_name address_of
  after_user-host ip n none at rest e big =
      if_false _ _ _ (le→ltb-eq-false (swap32 (load32 ip)) 256 (omega (arith, e, big)))
      ∙ ap (complete (some ip)) (omega arith)
  after_user-host ip n (some name) at rest e (small, w) =
      if_true _ _ _ (lt→ltb (swap32 (load32 ip)) 256 (omega (arith, e, small)))
      ∙ ap (λ p. host_name resolve (at + 1) p)
          (ap (find_byte 0) (append_assoc name (0 ∷ []) rest) ∙ find_byte-found 0 name rest w)
      ∙ ap (complete (resolve name)) (omega (arith, length-append name (0 ∷ [])))

  header_of-request :
      (r : Request) (rest : List ℕ)
      → IsRequest r
      → header_of resolve (request_text r ++ rest)
        ≡ complete (address resolve r) (length (request_text r))
  unfolding header_of
  header_of-request r rest v =
      ap (λ p. after_user resolve (ip_bytes r) (8 + length p.0) p.1)
        (ap (find_byte 0) (append_assoc r.user (0 ∷ host_text r.host) rest)
          ∙ find_byte-found 0 r.user (host_text r.host ++ rest) v.no_nul)
      ∙ after_user-host (ip_bytes r) (ip_number r) r.host (8 + length r.user) rest (number-ip r v)
          v.named
      ∙ ap (complete (address resolve r))
          (omega (arith, length-append r.user (0 ∷ host_text r.host)))

-- What the proxy does with a request.
pub data Answered (tunnels : Tunnels) (conn : ℕ) (b : Buffer) (r : Request) (rest : List ℕ)
    : Option (List ℕ) → Result (Tunnels × Buffer × List Effect) → Type 0 where
  grants :
      (ip : List ℕ) (b' : Buffer)
      → IsValid b'
      → contents b' ≡ rest
      → Answered tunnels conn b r rest (some ip) (
          ok (
            update tunnels conn true,
            b',
            opens ip (port_bytes r) ∷ sends (granted (port_bytes r) ip) ∷ [],
          ))
  rejects : Answered tunnels conn b r rest none (ok (tunnels, b, sends rejected ∷ shuts ∷ []))

module _ (resolve : List ℕ → Option (List ℕ)) (tunnels : Tunnels) (conn : ℕ) (b : Buffer)
    (has_context : Bool) (r : Request) (v : IsValid b) (new : tunnels conn ≡ false)
    (w : IsRequest r) where
  -- A whole request is answered as soon as it is there, if no more than 128 bytes have come: a tunnel is
  -- opened to the address, or to the one of the host name, and the bytes behind the request stay in the
  -- buffer; a host name that is not resolved is rejected.
  pub on_server_message-Answered :
      (rest : List ℕ)
      → contents b ≡ request_text r ++ rest
      → length (contents b) ≤ 128
      → Answered tunnels conn b r rest
          (address resolve r)
          (on_server_message resolve tunnels conn b has_context)
  unfolding on_server_message answer
  on_server_message-Answered rest e short =
      subst (Answered tunnels conn b r rest (address resolve r)) (sym reads)
        (answers (address resolve r))
    where
      size : ℕ
      size = length (request_text r)

      count : length (contents b) ≡ size + length rest
      count = ap length e ∙ length-append (request_text r) rest

      reads :
          on_server_message resolve tunnels conn b has_context
          ≡ answer tunnels conn b (complete (address resolve r) size)
      reads =
          if_false _ _ _ new
          ∙ if_false _ _ _
              (le→ltb-eq-false 128 (readable_bytes b) (omega (arith, readable-length b v, short)))
          ∙ if_true _ _ _ (
              lt→ltb 8 (readable_bytes b) (
                omega
                  (arith, readable-length b v, count, length-append r.user (0 ∷ host_text r.host))))
          ∙ ap (answer tunnels conn b)
              (ap (header_of resolve) e ∙ header_of-request resolve r rest w)

      answers :
          (a : Option (List ℕ))
          → Answered tunnels conn b r rest a (answer tunnels conn b (complete a size))
      answers none = rejects
      answers (some ip) =
          let (b', taken, t) = retrieve_until-Took b size v (omega (arith, count)) in
          let chosen : List ℕ → Result (Tunnels × Buffer × List Effect) = λ m.
            if get_or m 0 0 == 4 && get_or m 1 0 == 1
            then (retrieve_until b (b.reader_index + size) >>= λ d. ok (
              update tunnels conn true,
              d,
              opens ip (port_of m) ∷ sends (granted (port_of m) ip) ∷ [],
            ))
            else ok (tunnels, b, sends rejected ∷ shuts ∷ []) in
          subst (Answered tunnels conn b r rest (some ip))
            (sym (
              ap chosen e
              ∙ ap
                  (λ o. o >>= λ d. ok (
                    update tunnels conn true,
                    d,
                    opens ip (port_bytes r) ∷ sends (granted (port_bytes r) ip) ∷ [],
                  ))
                  taken))
            (grants ip b' t.valid
              (t.left ∙ ap (drop size) e ∙ drop-append size (request_text r) rest refl))
