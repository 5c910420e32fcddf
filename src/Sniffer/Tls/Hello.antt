-- ===== src/Sniffer/Tls/Hello.antt =====
-- The sniffer finds the server name of a client's first message
-- (component/sniffer/tls_sniffer.go).
use mathlib.Core.List.{append_assoc, append-nil}
use clash_for_android.Prelude.{
  ℕ, ◌+◌, ◌*◌, ◌/◌, ◌%◌, ◌≤◌, ◌<◌, ◌≡◌, ◌≢◌, refl, sym, ap, ◌∙◌, false, not, ◌||◌, List, [], ◌∷◌,
  ◌++◌, Bytes, some, ltb, ◌==◌, length, arith, All, length-append,
}
use clash_for_android.Sniffer.Sniffed.{returned, ◌>>=◌, slice_from, return_with, go_on, while_bytes}
use clash_for_android.Sniffer.Tls.{
  skip_session_id, skip_cipher_suites, skip_compression_methods, take_name, read_name,
  read_server_names, server_names, leave, read_extension, read_extensions, read_client_hello,
  sniff_tls, ends_with_dot,
}
use clash_for_android.Sniffer.Tls.Message.{
  word, with_length, Extension, write_extension, OtherName, write_other_name, Message, IsMessage,
  names, host, server_name_extension, extensions, after_ciphers, client_hello, tls_record,
}
use clash_for_android.Sniffer.Tls.Written.{
  at-append, slice_from-append, slice_to-append, word_at-word, Skips, while_bytes-finds,
}

skip_session_id-append :
    (head session r : Bytes)
    → length head ≡ 38
    → length session ≤ 32
    → 3 ≤ length r
    → skip_session_id (head ++ (length session ∷ (session ++ r))) ≡ returned r
unfolding skip_session_id
skip_session_id-append head session r h s k =
    let d = head ++ (length session ∷ (session ++ r)) in
    let size : length d ≡ 39 + length session + length r =
      omega
        (arith, h, length-append head (length session ∷ (session ++ r)), length-append session r) in
    let long : ltb (length d) 42 ≡ false = ground (arith, size) in
    let fits : (ltb 32 (length session) || ltb (length d) (39 + length session)) ≡ false =
      ground (arith, size) in
    let cut : slice_from (39 + length session) d ≡ returned r =
      ap (slice_from (39 + length session)) (sym (append_assoc head (length session ∷ session) r))
      ∙ slice_from-append (39 + length session) (head ++ (length session ∷ session)) r
          (omega (arith, h, length-append head (length session ∷ session))) in
    rw (long, at-append 38 (length session) head (session ++ r) h, fits) cut

skip_cipher_suites-with_length :
    (ciphers r : Bytes)
    → length ciphers % 2 ≡ 0
    → skip_cipher_suites (with_length ciphers r) ≡ returned r
unfolding skip_cipher_suites
skip_cipher_suites-with_length ciphers r even =
    let n = length ciphers in
    let d = with_length ciphers r in
    let long : ltb (length d) 2 ≡ false = ground arith in
    let fits : (n % 2 == 1 || ltb (length d) (2 + n)) ≡ false =
      ground (arith, length-append ciphers r) in
    rw (long, word_at-word 0 n [] (ciphers ++ r) refl, fits)
      (slice_from-append (2 + n) (n / 256 ∷ n % 256 ∷ ciphers) r (omega arith))

skip_compression_methods-append :
    (methods r : Bytes) → skip_compression_methods (length methods ∷ (methods ++ r)) ≡ returned r
unfolding skip_compression_methods
skip_compression_methods-append methods r =
    let n = length methods in
    let d = n ∷ (methods ++ r) in
    let long : ltb (length d) 1 ≡ false = ground arith in
    let fits : ltb (length d) (1 + n) ≡ false = ground (arith, length-append methods r) in
    rw (long, at-append 0 n [] (methods ++ r) refl, fits)
      (slice_from-append (1 + n) (n ∷ methods) r (omega arith))

-- A name of some type, after the bytes that the loop's body reads first.
read_name-step :
    (kind : ℕ) (text r : Bytes)
    → read_name (kind ∷ with_length text r) ≡ take_name kind (length text) (text ++ r)
unfolding read_name
read_name-step kind text r =
    let n = length text in
    let d = kind ∷ with_length text r in
    let long : ltb (length d) 3 ≡ false = ground arith in
    let fits : ltb (length (text ++ r)) n ≡ false = ground (arith, length-append text r) in
    rw
      (
        long,
        at-append 0 kind [] (with_length text r) refl,
        word_at-word 1 n (kind ∷ []) (text ++ r) refl,
        slice_from-append 3 (kind ∷ n / 256 ∷ n % 256 ∷ []) (text ++ r) refl,
        fits,
      )
      refl

read_name-host :
    (name r : Bytes)
    → ends_with_dot name ≡ false
    → read_name (host name r) ≡ returned (return_with name)
read_name-host name r no_dot =
    read_name-step 0 name r ∙ rw (slice_to-append (length name) name r refl, no_dot) refl

read_name-other :
    (n : OtherName) (r : Bytes) → n.kind ≢ 0 → read_name (write_other_name n r) ≡ returned (go_on r)
read_name-other n r other =
    let not_host : (n.kind == 0) ≡ false = ground arith in
    read_name-step n.kind n.text r
    ∙ rw (not_host, slice_from-append (length n.text) n.text r refl) refl

read_extension-step :
    (high low : ℕ) (body r : Bytes)
    → read_extension (high ∷ low ∷ with_length body r) ≡ (
        server_names (high * 256 + low) (length body) (body ++ r)
        >>= leave (length body) (body ++ r))
unfolding read_extension
read_extension-step high low body r =
    let n = length body in
    let d = high ∷ low ∷ with_length body r in
    let long : ltb (length d) 4 ≡ false = ground arith in
    let fits : ltb (length (body ++ r)) n ≡ false = ground (arith, length-append body r) in
    rw
      (
        long,
        at-append 0 high [] (low ∷ with_length body r) refl,
        at-append 1 low (high ∷ []) (with_length body r) refl,
        word_at-word 2 n (high ∷ low ∷ []) (body ++ r) refl,
        slice_from-append 4 (high ∷ low ∷ n / 256 ∷ n % 256 ∷ []) (body ++ r) refl,
        fits,
      )
      refl

read_extension-other :
    (e : Extension) (r : Bytes)
    → e.high + e.low ≢ 0
    → read_extension (write_extension e r) ≡ returned (go_on r)
read_extension-other e r other =
    let no_names : (e.high * 256 + e.low == 0) ≡ false = ground arith in
    read_extension-step e.high e.low e.body r
    ∙ rw (no_names, slice_from-append (length e.body) e.body r refl) refl

longer_sized : (body r : Bytes) → length r < length (with_length body r)
longer_sized body r = omega (arith, length-append body r)

write_other_name-Skips :
    (ns : List OtherName)
    → All (λ (n : OtherName). n.kind ≢ 0) ns
    → All (Skips read_name write_other_name) ns
write_other_name-Skips [] h = tt
write_other_name-Skips (n ∷ ns) h = (
  λ r. (omega (arith, longer_sized n.text r), read_name-other n r h.0),
  write_other_name-Skips ns h.1,
)

write_extension-Skips :
    (es : List Extension)
    → All (λ (e : Extension). e.high + e.low ≢ 0) es
    → All (Skips read_extension write_extension) es
write_extension-Skips [] h = tt
write_extension-Skips (e ∷ es) h = (
  λ r. (omega (arith, longer_sized e.body r), read_extension-other e r h.0),
  write_extension-Skips es h.1,
)

read_server_names-with_length :
    (xs name : Bytes)
    → while_bytes read_name (length xs) xs ≡ returned (some name)
    → read_server_names (with_length xs []) ≡ returned (some name)
unfolding read_server_names
read_server_names-with_length xs name e =
    let n = length xs in
    let d = word n xs in
    let long : ltb (length d) 2 ≡ false = ground arith in
    let fits : not (n == n) ≡ false = ground arith in
    rw
      (
        append-nil xs,
        long,
        word_at-word 0 n [] xs refl,
        slice_from-append 2 (n / 256 ∷ n % 256 ∷ []) xs refl,
        fits,
      )
      e

read_extensions-with_length :
    (xs name : Bytes)
    → while_bytes read_extension (length xs) xs ≡ returned (some name)
    → read_extensions (with_length xs []) ≡ returned name
unfolding read_extensions
read_extensions-with_length xs name e =
    let n = length xs in
    let d = word n xs in
    let long : ltb (length d) 2 ≡ false = ground arith in
    let fits : not (n == n) ≡ false = ground arith in
    rw
      (
        append-nil xs,
        long,
        word_at-word 0 n [] xs refl,
        slice_from-append 2 (n / 256 ∷ n % 256 ∷ []) xs refl,
        fits,
        e,
      )
      refl

module _ (m : Message) (h : IsMessage m) (name : Bytes) (no_dot : ends_with_dot name ≡ false) where
  read_names : read_server_names (with_length (names m name) []) ≡ returned (some name)
  read_names = read_server_names-with_length (names m name) name (
      while_bytes-finds read_name write_other_name m.other_names (host name m.more_names) name
        (write_other_name-Skips m.other_names h.no_host_name) (omega arith)
        (read_name-host name m.more_names no_dot))

  read_extension-server_name :
      read_extension (server_name_extension m name) ≡ returned (return_with name)
  read_extension-server_name =
      let body = with_length (names m name) [] in
      read_extension-step 0 0 body m.after
      ∙ rw (slice_to-append (length body) body m.after refl, read_names) refl

  read_extensions-extensions : read_extensions (with_length (extensions m name) []) ≡ returned name
  read_extensions-extensions = read_extensions-with_length (extensions m name) name (
      while_bytes-finds read_extension write_extension m.before (server_name_extension m name) name
        (write_extension-Skips m.before h.no_server_name) (omega arith) read_extension-server_name)

  read_client_hello-client_hello : read_client_hello (client_hello m name) ≡ returned name
  unfolding read_client_hello
  read_client_hello-client_hello =
      let tail = with_length (extensions m name) [] in
      let ciphers = with_length m.ciphers (after_ciphers m name) in
      let long : 3 ≤ length ciphers =
        omega (arith, length-append m.ciphers (after_ciphers m name)) in
      rw
        (
          skip_session_id-append m.head m.session_id ciphers h.head_length h.short_session long,
          skip_cipher_suites-with_length m.ciphers (after_ciphers m name) h.even_ciphers,
          skip_compression_methods-append m.compression tail,
        )
        read_extensions-extensions

-- The sniffer returns the server name of a TLS record with a client hello that carries it, if the
-- name does not end with a dot. The message may have any random bytes, a session id of at most 32
-- bytes, an even number of bytes of cipher suites, any compression methods, any extensions of other
-- kinds before the one with the name, any names of other types before the name, and any bytes
-- after the name, after its extension and after the record.
pub sniff_tls-tls_record :
    (m : Message) (name : Bytes)
    → IsMessage m
    → ends_with_dot name ≡ false
    → sniff_tls (tls_record m name) ≡ returned name
unfolding sniff_tls
sniff_tls-tls_record m name h no_dot =
    let hello = client_hello m name in
    let n = length hello in
    let b = tls_record m name in
    let start = 22 ∷ 3 ∷ m.minor ∷ [] in
    let long : ltb (length b) 5 ≡ false = ground arith in
    let fits : ltb (length b) (5 + n) ≡ false = ground (arith, length-append hello m.rest) in
    rw
      (
        long,
        at-append 0 22 [] (3 ∷ m.minor ∷ with_length hello m.rest) refl,
        at-append 1 3 (22 ∷ []) (m.minor ∷ with_length hello m.rest) refl,
        at-append 2 m.minor (22 ∷ 3 ∷ []) (with_length hello m.rest) refl,
        word_at-word 3 n start (hello ++ m.rest) refl,
        fits,
        slice_from-append 5 (22 ∷ 3 ∷ m.minor ∷ n / 256 ∷ n % 256 ∷ []) (hello ++ m.rest) refl,
        slice_to-append n hello m.rest refl,
      )
      (read_client_hello-client_hello m h name no_dot)
