-- ===== src/Socks.antt =====
-- examples/socks4a/socks4a.cpp and tcprelay.cpp: the proxy's requests, and the tunnels it keeps. A
-- connection's name is a number, and InetAddress::resolve an argument that gives the four bytes of
-- sin_addr.
pub mod Requests
pub mod Partial
mod Tests
use chaonet.Common.{
  ℕ, ◌+◌, Bool, true, false, ◌&&◌, List, [], ◌∷◌, ◌++◌, Option, none, some, Result, ok, ◌>>=◌, ◌>>◌,
  assert, ltb, ◌==◌, if◌then◌else◌, length, take, drop, get_or, find_byte, update,
}
use chaonet.Buffer.{Buffer, contents, readable_bytes, retrieve_until}
use chaonet.Buffer.Bytes.{swap32, load32}

-- What is done outside, apart from what a tunnel does: setTcpNoDelay, stopRead, a new tunnel to an
-- address and a port that is set up and connected, its disconnect, send and shutdown on the server's
-- connection, and a message that is left to the tunnel (Tunnel.on_server_message).
pub data Effect : Type 0 where
  sets_no_delay stops_read shuts forwards disconnects : Effect
  opens : List ℕ → List ℕ → Effect
  sends : List ℕ → Effect

-- g_tunnels: which connections have a tunnel.
abbrev pub Tunnels : Type 0
Tunnels = ℕ → Bool

-- The header in a buffer: its end is not there yet, or it has an address, `none` if the host name is not
-- resolved, and a length.
pub data Header : Type 0 where
  incomplete : Header
  complete : Option (List ℕ) → ℕ → Header

host_name : (List ℕ → Option (List ℕ)) → ℕ → List ℕ × List ℕ → Header
host_name resolve at (name, []) = incomplete
host_name resolve at (name, nul ∷ rest) = complete (resolve name) (at + length name + 1)

after_user : (List ℕ → Option (List ℕ)) → List ℕ → ℕ → List ℕ → Header
unfolding host_name
after_user resolve ip at [] = incomplete
after_user resolve ip at (nul ∷ rest) =
    if ltb (swap32 (load32 ip)) 256
    then host_name resolve (at + 1) (find_byte 0 rest)
    else complete (some ip) (at + 1)

abbrev port_of : List ℕ → List ℕ
port_of bytes = take 2 (drop 2 bytes)

abbrev ip_of : List ℕ → List ℕ
ip_of bytes = take 4 (drop 4 bytes)

-- The search for the end of the header; the bytes are more than eight.
header_of : (List ℕ → Option (List ℕ)) → List ℕ → Header
unfolding after_user
header_of resolve bytes =
    let (user, from) = find_byte 0 (drop 8 bytes) in
    after_user resolve (ip_of bytes) (8 + length user) from

abbrev pub granted : List ℕ → List ℕ → List ℕ
granted port ip = 0 ∷ 90 ∷ (port ++ ip)

-- "\000\x5bUVWXYZ"
abbrev pub rejected : List ℕ
rejected = 0 ∷ 91 ∷ 85 ∷ 86 ∷ 87 ∷ 88 ∷ 89 ∷ 90 ∷ []

abbrev pub Outcome : Type 0
Outcome = Result (Tunnels × Buffer × List Effect)

answer : Tunnels → ℕ → Buffer → Header → Outcome
answer tunnels conn b incomplete = ok (tunnels, b, [])
answer tunnels conn b (complete none size) = ok (tunnels, b, sends rejected ∷ shuts ∷ [])
answer tunnels conn b (complete (some ip) size) =
    let port = port_of (contents b) in
    if get_or (contents b) 0 0 == 4 && get_or (contents b) 1 0 == 1
    then (retrieve_until b (b.reader_index + size) >>= λ b'.
        ok (update tunnels conn true, b', opens ip port ∷ sends (granted port ip) ∷ []))
    else ok (tunnels, b, sends rejected ∷ shuts ∷ [])

-- The last argument says whether the connection has a context.
pub on_server_message : (List ℕ → Option (List ℕ)) → Tunnels → ℕ → Buffer → Bool → Outcome
unfolding header_of answer
on_server_message resolve tunnels conn b has_context =
    if tunnels conn
    then ok (tunnels, b, if has_context then forwards ∷ [] else [])
    else (if ltb 128 (readable_bytes b)
        then ok (tunnels, b, shuts ∷ [])
        else (if ltb 8 (readable_bytes b)
            then answer tunnels conn b (header_of resolve (contents b))
            else ok (tunnels, b, [])))

pub on_server_connection : Tunnels → ℕ → Bool → Tunnels × List Effect
on_server_connection tunnels conn true = (tunnels, sets_no_delay ∷ [])
on_server_connection tunnels conn false =
    if tunnels conn then (update tunnels conn false, disconnects ∷ []) else (tunnels, [])

-- tcprelay.cpp, with the address and port of the other side.
pub relay_on_server_connection :
    List ℕ → List ℕ → Tunnels → ℕ → Bool → Result (Tunnels × List Effect)
relay_on_server_connection ip port tunnels conn true =
    ok (update tunnels conn true, sets_no_delay ∷ stops_read ∷ opens ip port ∷ [])
relay_on_server_connection ip port tunnels conn false = do
  assert (tunnels conn)
  ok (update tunnels conn false, disconnects ∷ [])
