-- ===== src/Sniffer/Tls/Bounds.antt =====
-- Whatever bytes arrive, the sniffer ends and stays within them
-- (component/sniffer/tls_sniffer.go).
use clash_for_android.Prelude.{
  ℕ, ◌+◌, ◌%◌, ◌≤◌, ◌<◌, ◌≡◌, Bool, false, not, ◌||◌, Bytes, Option, none, some, ltb, ◌==◌, length,
  arith, Bool-cases, ◌⊎◌, inl, inr,
}
use clash_for_android.Sniffer.Sniffed.{
  Sniffed, returned, failed, ◌>>◌, fail_if, at, slice_from, slice_to, word_at, SniffError,
  while_bytes, no_clue, not_tls, not_client_hello, need_at_least_data, Gives, Any, Shorter,
  >>=-Gives, fail_if-Gives, at-Gives, slice_from-Gives, slice_to-Gives, word_at-Gives, weaken-Gives,
  Gives-ends, while_bytes-Gives,
}
use clash_for_android.Sniffer.Tls.{
  skip_session_id, skip_cipher_suites, skip_compression_methods, host_name, skip_bytes, take_name,
  read_name, read_server_names, server_names, leave, read_extension, found, read_extensions,
  read_client_hello, is_valid_tls_version, sniff_tls, ends_with_dot,
}

-- The steps after an early return may use that its test was false.
guarded :
    {B : Type 0} (Q : B → Type 0) (b : Bool) (e : SniffError) (k : Sniffed B)
    → (b ≡ false → Gives Q k)
    → Gives Q (fail_if b e >> k)
guarded Q b e k f = >>=-Gives (λ x. b ≡ false) Q (fail_if b e) _ (fail_if-Gives b e) (λ u h. f h)

skip_session_id-Gives : (d : Bytes) → Gives Any (skip_session_id d)
unfolding skip_session_id
skip_session_id-Gives d = guarded Any (ltb (length d) 42) no_clue _ (λ long.
    >>=-Gives Any Any (at 38 d) _ (at-Gives 38 d (ground arith)) (λ n _.
      guarded Any (ltb 32 n || ltb (length d) (39 + n)) no_clue _ (λ fits.
        weaken-Gives _ (slice_from (39 + n) d) (slice_from-Gives (39 + n) d (ground arith)))))

skip_cipher_suites-Gives : (d : Bytes) → Gives Any (skip_cipher_suites d)
unfolding skip_cipher_suites
skip_cipher_suites-Gives d = guarded Any (ltb (length d) 2) no_clue _ (λ long.
    >>=-Gives Any Any (word_at 0 d) _ (word_at-Gives 0 d (ground arith)) (λ n _.
      guarded Any (n % 2 == 1 || ltb (length d) (2 + n)) not_client_hello _ (λ fits.
        weaken-Gives _ (slice_from (2 + n) d) (slice_from-Gives (2 + n) d (ground arith)))))

skip_compression_methods-Gives : (d : Bytes) → Gives Any (skip_compression_methods d)
unfolding skip_compression_methods
skip_compression_methods-Gives d = guarded Any (ltb (length d) 1) no_clue _ (λ long.
    >>=-Gives Any Any (at 0 d) _ (at-Gives 0 d (ground arith)) (λ n _.
      guarded Any (ltb (length d) (1 + n)) no_clue _ (λ fits.
        weaken-Gives _ (slice_from (1 + n) d) (slice_from-Gives (1 + n) d (ground arith)))))

skip_bytes-Gives :
    (n : ℕ) (d r : Bytes) → n ≤ length r → length r < length d → Gives (Shorter d) (skip_bytes n r)
skip_bytes-Gives n d r h lt =
    >>=-Gives (λ (x : Bytes). length x + n ≡ length r) (Shorter d) (slice_from n r) _
      (slice_from-Gives n r h) (λ x e. omega (arith, e, lt))

host_name-Gives : (n : ℕ) (d r : Bytes) → n ≤ length r → Gives (Shorter d) (host_name n r)
host_name-Gives n d r h =
    >>=-Gives (λ (x : Bytes). length x ≡ n) (Shorter d) (slice_to n r) _ (slice_to-Gives n r h)
      (λ x e. guarded (Shorter d) (ends_with_dot x) not_client_hello _ (λ no_dot. tt))

take_name-Gives :
    (name_type n : ℕ) (d r : Bytes)
    → n ≤ length r
    → length r < length d
    → Gives (Shorter d) (take_name name_type n r)
take_name-Gives name_type n d r h lt = elim (Bool-cases (name_type == 0)) [
  | inl host ↦ rw host (host_name-Gives n d r h)
  | inr other ↦ rw other (skip_bytes-Gives n d r h lt)
]

read_name-Gives : (d : Bytes) → 0 < length d → Gives (Shorter d) (read_name d)
unfolding read_name
read_name-Gives d some_bytes = guarded (Shorter d) (ltb (length d) 3) not_client_hello _ (λ long.
    >>=-Gives Any (Shorter d) (at 0 d) _ (at-Gives 0 d some_bytes) (λ name_type _.
      >>=-Gives Any (Shorter d) (word_at 1 d) _ (word_at-Gives 1 d (ground arith)) (λ n _.
        >>=-Gives (λ (r : Bytes). length r + 3 ≡ length d) (Shorter d) (slice_from 3 d) _
          (slice_from-Gives 3 d (ground arith))
          (λ r e.
            guarded (Shorter d) (ltb (length r) n) not_client_hello _
              (λ fits. take_name-Gives name_type n d r (ground arith) (omega arith))))))

read_server_names-Gives : (d : Bytes) → Gives Any (read_server_names d)
unfolding read_server_names
read_server_names-Gives d = guarded Any (ltb (length d) 2) not_client_hello _ (λ long.
    >>=-Gives Any Any (word_at 0 d) _ (word_at-Gives 0 d (ground arith)) (λ n _.
      >>=-Gives (λ (r : Bytes). length r + 2 ≡ length d) Any (slice_from 2 d) _
        (slice_from-Gives 2 d (ground arith))
        (λ r e.
          guarded Any (not (length r == n)) not_client_hello _
            (λ fits. while_bytes-Gives read_name read_name-Gives (length r) r (omega arith)))))

server_names-Gives :
    (extension n : ℕ) (d : Bytes) → n ≤ length d → Gives Any (server_names extension n d)
server_names-Gives extension n d h = elim (Bool-cases (extension == 0)) [
  | inl names ↦ rw names (
      >>=-Gives (λ (x : Bytes). length x ≡ n) Any (slice_to n d) _ (slice_to-Gives n d h)
        (λ x e. read_server_names-Gives x))
  | inr other ↦ rw other tt
]

leave-Gives :
    (n : ℕ) (d r : Bytes) (o : Option Bytes)
    → n ≤ length r
    → length r < length d
    → Gives (Shorter d) (leave n r o)
leave-Gives n d r (some name) h lt = tt
leave-Gives n d r none h lt = skip_bytes-Gives n d r h lt

read_extension-Gives : (d : Bytes) → 0 < length d → Gives (Shorter d) (read_extension d)
unfolding read_extension
read_extension-Gives d some_bytes =
    guarded (Shorter d) (ltb (length d) 4) not_client_hello _ (λ long.
      >>=-Gives Any (Shorter d) (word_at 0 d) _ (word_at-Gives 0 d (ground arith)) (λ extension _.
        >>=-Gives Any (Shorter d) (word_at 2 d) _ (word_at-Gives 2 d (ground arith)) (λ n _.
          >>=-Gives (λ (r : Bytes). length r + 4 ≡ length d) (Shorter d) (slice_from 4 d) _
            (slice_from-Gives 4 d (ground arith))
            (λ r e. guarded (Shorter d) (ltb (length r) n) not_client_hello _ (λ fits.
              >>=-Gives Any (Shorter d) (server_names extension n r) _
                (server_names-Gives extension n r (ground arith))
                (λ o _. leave-Gives n d r o (ground arith) (omega arith)))))))

found-Gives : (o : Option Bytes) → Gives Any (found o)
found-Gives none = tt
found-Gives (some name) = tt

read_extensions-Gives : (d : Bytes) → Gives Any (read_extensions d)
unfolding read_extensions
read_extensions-Gives d = guarded Any (ltb (length d) 2) not_client_hello _ (λ long.
    >>=-Gives Any Any (word_at 0 d) _ (word_at-Gives 0 d (ground arith)) (λ n _.
      >>=-Gives (λ (r : Bytes). length r + 2 ≡ length d) Any (slice_from 2 d) _
        (slice_from-Gives 2 d (ground arith))
        (λ r e. guarded Any (not (n == length r)) not_client_hello _ (λ fits.
          >>=-Gives Any Any (while_bytes read_extension (length r) r) _
            (while_bytes-Gives read_extension read_extension-Gives (length r) r (omega arith))
            (λ o _. found-Gives o)))))

read_client_hello-Gives : (d : Bytes) → Gives Any (read_client_hello d)
unfolding read_client_hello
read_client_hello-Gives d =
    >>=-Gives Any Any (skip_session_id d) _ (skip_session_id-Gives d) (λ a _.
      >>=-Gives Any Any (skip_cipher_suites a) _ (skip_cipher_suites-Gives a) (λ b _.
        >>=-Gives Any Any (skip_compression_methods b) _ (skip_compression_methods-Gives b)
          (λ c _. read_extensions-Gives c)))

sniff_tls-Gives : (b : Bytes) → Gives Any (sniff_tls b)
unfolding sniff_tls
sniff_tls-Gives b = guarded Any (ltb (length b) 5) no_clue _ (λ long.
    >>=-Gives Any Any (at 0 b) _ (at-Gives 0 b (ground arith)) (λ content _.
      guarded Any (not (content == 22)) not_tls _ (λ handshake.
        >>=-Gives Any Any (at 1 b) _ (at-Gives 1 b (ground arith)) (λ major _.
          >>=-Gives Any Any (at 2 b) _ (at-Gives 2 b (ground arith)) (λ minor _.
            guarded Any (not (is_valid_tls_version major minor)) not_tls _ (λ version.
              >>=-Gives Any Any (word_at 3 b) _ (word_at-Gives 3 b (ground arith)) (λ n _.
                guarded Any (ltb (length b) (5 + n)) (need_at_least_data (5 + n)) _ (λ whole.
                  >>=-Gives (λ (r : Bytes). length r + 5 ≡ length b) Any (slice_from 5 b) _
                    (slice_from-Gives 5 b (ground arith))
                    (λ r e.
                      >>=-Gives (λ (x : Bytes). length x ≡ n) Any (slice_to n r) _
                        (slice_to-Gives n r (ground arith))
                        (λ x _. read_client_hello-Gives x))))))))))

-- Whatever the bytes are, the TLS sniffer ends with a name or with one of its errors: no index and
-- no slice is out of range, and its two loops end within as many passes as there are bytes left.
pub sniff_tls_lem :
    (b : Bytes)
    → ((name : Bytes) × (sniff_tls b ≡ returned name))
      ⊎ ((e : SniffError) × (sniff_tls b ≡ failed e))
sniff_tls_lem b = Gives-ends (sniff_tls b) (sniff_tls-Gives b)
