-- ===== src/Socks5/Handshake/Agree.antt =====
-- A client and a server of SOCKS5 agree (transport/socks5/socks5.go).
use mathlib.Core.List.{append-nil}
use clash_for_android.Prelude.{
  ℕ, ◌≡◌, refl, ap, true, ◌||◌, [], ◌∷◌, ◌++◌, Bytes, Option, none, some, ◌==◌, length,
}
use clash_for_android.Socks5.Session.{
  Session, ◌>>=◌, give, receive, transmit, Says, give-Says, receive-Says, transmit-Says, >>=-Says,
}
use clash_for_android.Socks5.Address.{byte_at, read_addr, max_addr_len}
use clash_for_android.Socks5.Address.Udp.{IsAddr}
use clash_for_android.Socks5.Handshake.{
  Authenticator, always_valid, authenticate, effective, answer_command, Request, server_handshake,
  User, auth_message, method_of, choose_method, check_version, client_handshake, log_in,
  cmd_connect, cmd_udp_associate,
}
use clash_for_android.Socks5.Handshake.Steps.{
  IsCredential, cast-Says, read_addr-Says, authenticate-Says,
}

-- What a client sends to log in, and what the server answers to it.
abbrev pub credentials : Option User → Bytes
credentials none = []
credentials (some u) = auth_message u

abbrev pub auth_state : Option User → Bytes
auth_state none = []
auth_state (some u) = 1 ∷ 0 ∷ []

-- What a client sends in its part of the conversation.
abbrev pub client_says : Option User → ℕ → Bytes → Bytes
client_says user command addr =
    5 ∷ 1 ∷ method_of user ∷ (credentials user ++ (5 ∷ command ∷ 0 ∷ addr))

-- What a server answers.
abbrev pub server_says : Option User → Bytes → Bytes
server_says user bound = 5 ∷ method_of user ∷ (auth_state user ++ (5 ∷ 0 ∷ 0 ∷ bound))

abbrev pub name_of : Option User → Bytes
name_of none = []
name_of (some u) = u.username

-- The server lets the client in: a client without a password if the server asks for none, or one
-- with a password that is check_state where the server asks for it.
abbrev pub Admits : Option Authenticator → Option User → Type 0
Admits none none = Unit
Admits (some auth) none = ⊥
Admits none (some u) = IsCredential u
Admits (some auth) (some u) = IsCredential u × (auth u.username u.password ≡ true)

-- What follows the authentication on the server.
abbrev serve : Option Bytes → Bytes → Session Request
serve bound user = do
  request ← receive 3
  addr ← read_addr max_addr_len
  _ ← answer_command bound (byte_at 1 request)
  give (record { addr = addr; command = byte_at 1 request; user = user })

answer_command-Says :
    (bound : Bytes) (command : ℕ)
    → (command == cmd_connect || command == cmd_udp_associate) ≡ true
    → Says (answer_command (some bound) command) [] (5 ∷ 0 ∷ 0 ∷ bound) (length (5 ∷ 0 ∷ 0 ∷ bound))
answer_command-Says bound command e = rw e (transmit-Says (5 ∷ 0 ∷ 0 ∷ bound))

serve-Says :
    (bound user addr : Bytes) (command : ℕ)
    → (command == cmd_connect || command == cmd_udp_associate) ≡ true
    → IsAddr addr
    → Says
        (serve (some bound) user)
        (5 ∷ command ∷ 0 ∷ addr)
        (5 ∷ 0 ∷ 0 ∷ bound)
        (record { addr = addr; command = command; user = user })
serve-Says bound user addr command e h =
    let request = 5 ∷ command ∷ 0 ∷ [] in
    let answer = 5 ∷ 0 ∷ 0 ∷ bound in
    let result : Request = record { addr = addr; command = command; user = user } in
    cast-Says (serve (some bound) user) (request ++ (addr ++ [])) (request ++ addr) (answer ++ [])
      answer result (ap (λ (x : Bytes). request ++ x) (append-nil addr)) (append-nil answer)
      (>>=-Says (receive 3) _ request [] (addr ++ []) (answer ++ []) request result
        (receive-Says 3 request refl)
        (>>=-Says (read_addr max_addr_len) _ addr [] [] (answer ++ []) addr result
          (read_addr-Says addr h)
          (>>=-Says (answer_command (some bound) command) _ [] answer [] [] (length answer) result
            (answer_command-Says bound command e) (give-Says result))))

authenticate-effective-Says :
    (auth : Option Authenticator) (user : Option User)
    → Admits auth user
    → Says
        (authenticate (effective auth (method_of user ∷ [])))
        (credentials user)
        (5 ∷ method_of user ∷ auth_state user)
        (name_of user)
authenticate-effective-Says none none h =
    >>=-Says (transmit (5 ∷ 0 ∷ [])) _ [] (5 ∷ 0 ∷ []) [] [] 2 [] (transmit-Says (5 ∷ 0 ∷ []))
      (give-Says [])
authenticate-effective-Says (some auth) none h = absurd h
authenticate-effective-Says none (some u) h = authenticate-Says always_valid u h refl
authenticate-effective-Says (some auth) (some u) h = authenticate-Says auth u h.0 h.1

-- The server of a client that it admits.
server_handshake-Says :
    (auth : Option Authenticator) (user : Option User) (command : ℕ) (addr bound : Bytes)
    → Admits auth user
    → (command == cmd_connect || command == cmd_udp_associate) ≡ true
    → IsAddr addr
    → Says
        (server_handshake auth (some bound))
        (client_says user command addr)
        (server_says user bound)
        (record { addr = addr; command = command; user = name_of user })
unfolding server_handshake
server_handshake-Says auth user command addr bound h e a =
    let r : Request = record { addr = addr; command = command; user = name_of user } in
    let request = 5 ∷ command ∷ 0 ∷ addr in
    let answer = 5 ∷ 0 ∷ 0 ∷ bound in
    let methods = method_of user ∷ [] in
    let login = 5 ∷ method_of user ∷ auth_state user in
    >>=-Says (receive 2) _ (5 ∷ 1 ∷ []) [] (methods ++ (credentials user ++ request))
      (login ++ answer) (5 ∷ 1 ∷ []) r (receive-Says 2 (5 ∷ 1 ∷ []) refl)
      (>>=-Says (receive 1) _ methods [] (credentials user ++ request) (login ++ answer) methods r
        (receive-Says 1 methods refl)
        (>>=-Says (authenticate (effective auth methods)) _ (credentials user) login request answer
          (name_of user) r (authenticate-effective-Says auth user h)
          (serve-Says bound (name_of user) addr command e a)))

choose_method-Says :
    (user : Option User)
    → Says (choose_method user (method_of user)) (auth_state user) (credentials user) 0
choose_method-Says none = give-Says 0
choose_method-Says (some u) =
    cast-Says (log_in (some u)) (1 ∷ 0 ∷ []) (1 ∷ 0 ∷ []) (auth_message u ++ []) (auth_message u) 0
      refl (append-nil (auth_message u))
      (>>=-Says (transmit (auth_message u)) _ [] (auth_message u) (1 ∷ 0 ∷ []) []
        (length (auth_message u)) 0 (transmit-Says (auth_message u))
        (>>=-Says (receive 2) _ (1 ∷ 0 ∷ []) [] [] [] (1 ∷ 0 ∷ []) 0
          (receive-Says 2 (1 ∷ 0 ∷ []) refl) (give-Says 0)))

-- The client of a server that admits it.
client_handshake-Says :
    (user : Option User) (command : ℕ) (addr bound : Bytes)
    → IsAddr bound
    → Says
        (client_handshake addr command user)
        (server_says user bound)
        (client_says user command addr)
        bound
unfolding client_handshake
client_handshake-Says user command addr bound b =
    let hello = 5 ∷ 1 ∷ method_of user ∷ [] in
    let request = 5 ∷ command ∷ 0 ∷ addr in
    let method = 5 ∷ method_of user ∷ [] in
    let header = 5 ∷ 0 ∷ 0 ∷ [] in
    cast-Says (client_handshake addr command user) (server_says user bound) (server_says user bound)
      (hello ++ (credentials user ++ (request ++ []))) (client_says user command addr) bound refl
      (ap (λ (x : Bytes). hello ++ (credentials user ++ x)) (append-nil request))
      (>>=-Says (transmit hello) _ [] hello (method ++ (auth_state user ++ (header ++ bound)))
        (credentials user ++ (request ++ [])) 3 bound (transmit-Says hello)
        (>>=-Says (receive 2) _ method [] (auth_state user ++ (header ++ bound))
          (credentials user ++ (request ++ [])) method bound (receive-Says 2 method refl)
          (>>=-Says (check_version 5) _ [] [] (auth_state user ++ (header ++ bound))
            (credentials user ++ (request ++ [])) 0 bound (give-Says 0)
            (>>=-Says (choose_method user (method_of user)) _ (auth_state user) (credentials user)
              (header ++ bound) (request ++ []) 0 bound (choose_method-Says user)
              (>>=-Says (transmit request) _ [] request (header ++ bound) [] (length request) bound
                (transmit-Says request)
                (>>=-Says (receive 3) _ header [] bound [] header bound (receive-Says 3 header refl)
                  (read_addr-Says bound b)))))))

-- A client and a server of the SOCKS5 handshake understand each other, if the command is CONNECT or
-- UDP ASSOCIATE, both addresses are well formed, and the server admits the client: a client without
-- credentials meets a server without an authenticator; a client with credentials, whose lengths
-- are not zero and fit a byte, meets a server without an authenticator or with one that accepts
-- them. On a connection with room for what a side writes, the server reads exactly what the client
-- writes, and the client reads exactly what the server writes. The server ends with the address, the
-- command and the user name of the client, the client with the address the server listens on.
pub handshake_lem :
    (auth : Option Authenticator) (user : Option User) (command : ℕ) (addr bound : Bytes)
    → Admits auth user
    → (command == cmd_connect || command == cmd_udp_associate) ≡ true
    → IsAddr addr
    → IsAddr bound
    → Says
        (server_handshake auth (some bound))
        (client_says user command addr)
        (server_says user bound)
        (record { addr = addr; command = command; user = name_of user })
      × Says
          (client_handshake addr command user)
          (server_says user bound)
          (client_says user command addr)
          bound
handshake_lem auth user command addr bound h e a b = (
  server_handshake-Says auth user command addr bound h e a,
  client_handshake-Says user command addr bound b,
)
