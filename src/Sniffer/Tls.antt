-- ===== src/Sniffer/Tls.antt =====
-- component/sniffer/tls_sniffer.go
pub mod Bounds
pub mod Message
pub mod Written
pub mod Hello
use clash_for_android.Prelude.{
  ℕ, ◌+◌, ◌*◌, ◌%◌, Bool, true, false, not, ◌||◌, List, [], ◌∷◌, Bytes, Option, none, some, ltb,
  ◌==◌, if◌then◌else◌, length,
}
use clash_for_android.Sniffer.Sniffed.{
  Sniffed, returned, failed, ◌>>=◌, ◌>>◌, fail_if, at, slice_from, slice_to, word_at, Pass,
  return_with, go_on, while_bytes, no_clue, not_tls, not_client_hello, need_at_least_data,
}

-- strings.HasSuffix(serverName, ".")
abbrev pub ends_with_dot : Bytes → Bool
ends_with_dot [] = false
ends_with_dot (c ∷ []) = c == b'.'
ends_with_dot (c ∷ d ∷ s) = ends_with_dot (d ∷ s)

-- The session id, after the version and the random bytes.
unfoldable pub skip_session_id : Bytes → Sniffed Bytes
skip_session_id d = do
  fail_if (ltb (length d) 42) no_clue
  session_id_len ← at 38 d
  fail_if (ltb 32 session_id_len || ltb (length d) (39 + session_id_len)) no_clue
  slice_from (39 + session_id_len) d

unfoldable pub skip_cipher_suites : Bytes → Sniffed Bytes
skip_cipher_suites d = do
  fail_if (ltb (length d) 2) no_clue
  cipher_suite_len ← word_at 0 d
  fail_if (cipher_suite_len % 2 == 1 || ltb (length d) (2 + cipher_suite_len)) not_client_hello
  slice_from (2 + cipher_suite_len) d

unfoldable pub skip_compression_methods : Bytes → Sniffed Bytes
skip_compression_methods d = do
  fail_if (ltb (length d) 1) no_clue
  compression_methods_len ← at 0 d
  fail_if (ltb (length d) (1 + compression_methods_len)) no_clue
  slice_from (1 + compression_methods_len) d

-- The body of the loop over the names of the server name extension.
abbrev pub host_name : ℕ → Bytes → Sniffed (Pass Bytes)
host_name name_len d = do
  server_name ← slice_to name_len d
  fail_if (ends_with_dot server_name) not_client_hello
  returned (return_with server_name)

abbrev pub skip_bytes : ℕ → Bytes → Sniffed (Pass Bytes)
skip_bytes size d = do rest ← slice_from size d; returned (go_on rest)

abbrev pub take_name : ℕ → ℕ → Bytes → Sniffed (Pass Bytes)
take_name name_type name_len d =
    if name_type == 0 then host_name name_len d else skip_bytes name_len d

unfoldable pub read_name : Bytes → Sniffed (Pass Bytes)
read_name d = do
  fail_if (ltb (length d) 3) not_client_hello
  name_type ← at 0 d
  name_len ← word_at 1 d
  rest ← slice_from 3 d
  fail_if (ltb (length rest) name_len) not_client_hello
  take_name name_type name_len rest

unfoldable pub read_server_names : Bytes → Sniffed (Option Bytes)
read_server_names d = do
  fail_if (ltb (length d) 2) not_client_hello
  names_len ← word_at 0 d
  names ← slice_from 2 d
  fail_if (not (length names == names_len)) not_client_hello
  while_bytes read_name (length names) names

-- What the extension says, if it is the one of the server names.
abbrev pub server_names : ℕ → ℕ → Bytes → Sniffed (Option Bytes)
server_names extension size d =
    if extension == 0 then slice_to size d >>= read_server_names else returned none

abbrev pub leave : ℕ → Bytes → Option Bytes → Sniffed (Pass Bytes)
leave size d (some name) = returned (return_with name)
leave size d none = skip_bytes size d

-- The body of the loop over the extensions.
unfoldable pub read_extension : Bytes → Sniffed (Pass Bytes)
read_extension d = do
  fail_if (ltb (length d) 4) not_client_hello
  extension ← word_at 0 d
  size ← word_at 2 d
  rest ← slice_from 4 d
  fail_if (ltb (length rest) size) not_client_hello
  name ← server_names extension size rest
  leave size rest name

abbrev pub found : Option Bytes → Sniffed Bytes
found none = failed not_tls
found (some name) = returned name

-- The code asks for an empty slice first, with the same error.
unfoldable pub read_extensions : Bytes → Sniffed Bytes
read_extensions d = do
  fail_if (ltb (length d) 2) not_client_hello
  extensions_length ← word_at 0 d
  extensions ← slice_from 2 d
  fail_if (not (extensions_length == length extensions)) not_client_hello
  name ← while_bytes read_extension (length extensions) extensions
  found name

-- `ReadClientHello`
unfoldable pub read_client_hello : Bytes → Sniffed Bytes
read_client_hello d = do
  ciphers ← skip_session_id d
  compression ← skip_cipher_suites ciphers
  extensions ← skip_compression_methods compression
  read_extensions extensions

-- `IsValidTLSVersion`
abbrev pub is_valid_tls_version : ℕ → ℕ → Bool
is_valid_tls_version major minor = major == 3

-- `SniffTLS`
unfoldable pub sniff_tls : Bytes → Sniffed Bytes
sniff_tls b = do
  fail_if (ltb (length b) 5) no_clue
  content ← at 0 b
  fail_if (not (content == 22)) not_tls
  major ← at 1 b
  minor ← at 2 b
  fail_if (not (is_valid_tls_version major minor)) not_tls
  header_len ← word_at 3 b
  fail_if (ltb (length b) (5 + header_len)) (need_at_least_data (5 + header_len))
  from_header ← slice_from 5 b
  record_bytes ← slice_to header_len from_header
  read_client_hello record_bytes
