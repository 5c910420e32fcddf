-- ===== src/Sniffer/Tls/Message.antt =====
-- A client's first message as it is written: the byte format that component/sniffer/tls_sniffer.go
-- reads, described from the writer's side.
use clash_for_android.Prelude.{
  ℕ, ◌+◌, ◌/◌, ◌%◌, ◌≤◌, ◌≡◌, ◌≢◌, List, [], ◌∷◌, ◌++◌, Bytes, length, All,
}

-- A number in two bytes, and bytes after their length.
abbrev pub word : ℕ → Bytes → Bytes
word n rest = n / 256 ∷ n % 256 ∷ rest

abbrev pub with_length : Bytes → Bytes → Bytes
with_length bytes rest = word (length bytes) (bytes ++ rest)

abbrev pub write_all : {A : Type 0} → (A → Bytes → Bytes) → List A → Bytes → Bytes
write_all write [] rest = rest
write_all write (a ∷ xs) rest = write a (write_all write xs rest)

pub record Extension : Type 0 where
  pub high : ℕ
  pub low : ℕ
  pub body : Bytes

abbrev pub write_extension : Extension → Bytes → Bytes
write_extension e rest = e.high ∷ e.low ∷ with_length e.body rest

pub record OtherName : Type 0 where
  pub kind : ℕ
  pub text : Bytes

abbrev pub write_other_name : OtherName → Bytes → Bytes
write_other_name n rest = n.kind ∷ with_length n.text rest

-- What a message has around the server name: `more_names` comes after the name in its list, `after`
-- after its extension, and `rest` after the message.
pub record Message : Type 0 where
  pub minor : ℕ
  pub head : Bytes
  pub session_id : Bytes
  pub ciphers : Bytes
  pub compression : Bytes
  pub before : List Extension
  pub other_names : List OtherName
  pub more_names : Bytes
  pub after : Bytes
  pub rest : Bytes

pub record IsMessage (m : Message) : Type 0 where
  pub head_length : length m.head ≡ 38
  pub short_session : length m.session_id ≤ 32
  pub even_ciphers : length m.ciphers % 2 ≡ 0
  pub no_server_name : All (λ (e : Extension). e.high + e.low ≢ 0) m.before
  pub no_host_name : All (λ (n : OtherName). n.kind ≢ 0) m.other_names

abbrev pub host : Bytes → Bytes → Bytes
host name rest = 0 ∷ with_length name rest

abbrev pub names : Message → Bytes → Bytes
names m name = write_all write_other_name m.other_names (host name m.more_names)

abbrev pub server_name_extension : Message → Bytes → Bytes
server_name_extension m name = 0 ∷ 0 ∷ with_length (with_length (names m name) []) m.after

abbrev pub extensions : Message → Bytes → Bytes
extensions m name = write_all write_extension m.before (server_name_extension m name)

abbrev pub after_ciphers : Message → Bytes → Bytes
after_ciphers m name = length m.compression ∷ (m.compression ++ with_length (extensions m name) [])

abbrev pub client_hello : Message → Bytes → Bytes
client_hello m name =
    m.head ++ (length m.session_id ∷ (m.session_id ++ with_length m.ciphers (after_ciphers m name)))

abbrev pub tls_record : Message → Bytes → Bytes
tls_record m name = 22 ∷ 3 ∷ m.minor ∷ with_length (client_hello m name) m.rest
