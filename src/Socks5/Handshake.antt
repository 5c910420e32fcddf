-- ===== src/Socks5/Handshake.antt =====
-- transport/socks5/socks5.go: the handshake, as the server and as the client.
pub mod Steps
pub mod Agree
use clash_for_android.Prelude.{
  ℕ, zero, suc, bytes_eq, ◌+◌, ◌%◌, Bool, true, false, ◌&&◌, ◌||◌, List, [], ◌∷◌, ◌++◌, Bytes,
  Option, none, some, ◌==◌, if◌then◌else◌, length,
}
use clash_for_android.Socks5.Session.{
  Session, ◌>>=◌, give, raise, receive, transmit, send_and_raise, SocksError, auth_failed,
  command_not_supported, version_error, rejected, need_auth, address_not_supported,
}
use clash_for_android.Socks5.Address.{byte_at, read_addr, max_addr_len}

abbrev pub cmd_connect : ℕ
cmd_connect = 1

abbrev pub cmd_udp_associate : ℕ
cmd_udp_associate = 3

-- An auth.Authenticator that is not nil: whether a user and a password pass.
abbrev pub Authenticator : Type 0
Authenticator = Bytes → Bytes → Bool

abbrev pub always_valid : Authenticator
always_valid user pass = true

-- The server's answer to what the authenticator says.
abbrev pub verified : Bytes → Bool → Session Bytes
verified user false = send_and_raise (1 ∷ 1 ∷ []) auth_failed
verified user true = do _ ← transmit (1 ∷ 0 ∷ []); give user

abbrev pub read_password : Authenticator → Bytes → ℕ → Session Bytes
read_password auth user zero = send_and_raise (1 ∷ 1 ∷ []) auth_failed
read_password auth user (suc n) = do pass ← receive (suc n); verified user (auth user pass)

abbrev pub read_user : Authenticator → ℕ → Session Bytes
read_user auth zero = send_and_raise (1 ∷ 1 ∷ []) auth_failed
read_user auth (suc n) = do
  user ← receive (suc n)
  header ← receive 1
  read_password auth user (byte_at 0 header)

-- The authentication: the name of the user, which is empty without one.
abbrev pub authenticate : Option Authenticator → Session Bytes
authenticate none = do _ ← transmit (5 ∷ 0 ∷ []); give []
authenticate (some auth) = do
  _ ← transmit (5 ∷ 2 ∷ [])
  header ← receive 2
  read_user auth (byte_at 1 header)

-- A client that offers nothing but a password is served by any name, if there is no authenticator.
abbrev pub effective : Option Authenticator → Bytes → Option Authenticator
effective (some auth) methods = some auth
effective none methods = if bytes_eq methods (2 ∷ []) then some always_valid else none

-- The reply with the address that the server listens on; `none` is an address of another kind.
abbrev pub reply : Option Bytes → Session ℕ
reply none = raise address_not_supported
reply (some bound) = transmit (5 ∷ 0 ∷ 0 ∷ bound)

abbrev pub answer_command : Option Bytes → ℕ → Session ℕ
answer_command bound command =
    if command == cmd_connect || command == cmd_udp_associate
    then reply bound
    else raise command_not_supported

pub record Request : Type 0 where
  pub addr : Bytes
  pub command : ℕ
  pub user : Bytes

-- `ServerHandshake`. `bound` is what ParseAddrToSocksAddr gives for the local address.
unfoldable pub server_handshake : Option Authenticator → Option Bytes → Session Request
server_handshake auth bound = do
  head ← receive 2
  methods ← receive (byte_at 1 head)
  user ← authenticate (effective auth methods)
  request ← receive 3
  addr ← read_addr max_addr_len
  _ ← answer_command bound (byte_at 1 request)
  give (record { addr = addr; command = byte_at 1 request; user = user })

pub record User : Type 0 where
  pub username : Bytes
  pub password : Bytes

-- The lengths are bytes.
unfoldable pub auth_message : User → Bytes
auth_message u = 1 ∷ length u.username % 256 ∷ u.username ++ length u.password % 256 ∷ u.password

abbrev pub method_of : Option User → ℕ
method_of none = 0
method_of (some u) = 2

abbrev pub check_state : ℕ → Session ℕ
check_state zero = give 0
check_state (suc n) = raise rejected

abbrev pub log_in : Option User → Session ℕ
log_in none = raise auth_failed
log_in (some u) = do
  _ ← transmit (auth_message u)
  answer ← receive 2
  check_state (byte_at 1 answer)

abbrev pub choose_method : Option User → ℕ → Session ℕ
choose_method user method =
    if method == 2 then log_in user else if method == 0 then give 0 else raise need_auth

abbrev pub check_version : ℕ → Session ℕ
check_version v = if v == 5 then give 0 else raise version_error

-- `ClientHandshake`
unfoldable pub client_handshake : Bytes → ℕ → Option User → Session Bytes
client_handshake addr command user = do
  _ ← transmit (5 ∷ 1 ∷ method_of user ∷ [])
  answer ← receive 2
  _ ← check_version (byte_at 0 answer)
  _ ← choose_method user (byte_at 1 answer)
  _ ← transmit (5 ∷ command ∷ 0 ∷ addr)
  _ ← receive 3
  read_addr max_addr_len
