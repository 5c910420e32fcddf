-- ===== src/Hysteria/UdpMessage/Layout.antt =====
-- What `Unpack` reads of what is written (transport/hysteria/core/protocol.go).
use mathlib.Core.List.{append_assoc}
use clash_for_android.Prelude.{
  ℕ, zero, suc, ◌+◌, ◌≤◌, ◌<◌, ◌≡◌, refl, ap, ◌∙◌, true, false, [], ◌∷◌, ◌++◌, Bytes, ok, err, ltb,
  ◌==◌, length, length-append, take-append, drop-append, arith,
}
use clash_for_android.Hysteria.UdpMessage.{
  UdpMessage, udp_size, put_u8, put_u16, put_u32, zero_bytes, fields_written, pack,
  invalid_data_length, read_bytes, read_number, number_of, rest_of_length, unpack,
}

-- The fields fit their types, and the texts fit the two bytes of their lengths.
pub record IsEncodable (m : UdpMessage) : Type 0 where
  pub session_u32 : m.session_id < 4294967296
  pub host_u16 : length m.host < 65536
  pub port_u16 : m.port < 65536
  pub msg_u16 : m.msg_id < 65536
  pub frag_u8 : m.frag_id < 256
  pub count_u8 : m.frag_count < 256
  pub payload_u16 : length m.payload < 65536

read_bytes-append :
    (n : ℕ) (bs rest : Bytes) → length bs ≡ n → read_bytes n (bs ++ rest) ≡ ok (bs, rest)
unfolding read_bytes
read_bytes-append n bs rest e =
    let enough : ltb (length (bs ++ rest)) (length bs) ≡ false =
      ground (arith, length-append bs rest) in
    rw (← e, enough, take-append bs rest, drop-append bs rest) refl

read_number-append :
    (n k : ℕ) (bs rest : Bytes)
    → length bs ≡ n
    → number_of 0 bs ≡ k
    → read_number n (bs ++ rest) ≡ ok (k, rest)
unfolding read_number
read_number-append n k bs rest e v = rw (read_bytes-append n bs rest e, v) refl

rest_of_length-same : (bs : Bytes) → rest_of_length (length bs) bs ≡ ok (bs, [])
rest_of_length-same bs = let same : (length bs == length bs) ≡ true = ground arith in rw same refl

-- What is written is read back as it is, if the fields fit their types.
unpack-fields_written : (m : UdpMessage) → IsEncodable m → unpack (fields_written m) ≡ ok (m, [])
unfolding unpack
unpack-fields_written m h =
    let sizes = put_u16 (length m.payload) in
    let counts = put_u8 m.frag_count ++ (sizes ++ m.payload) in
    let ids = put_u16 m.msg_id ++ (put_u8 m.frag_id ++ counts) in
    let ports = put_u16 m.port ++ ids in
    let hosts = put_u16 (length m.host) ++ (m.host ++ ports) in
    rw
      (
        read_number-append 4 m.session_id (put_u32 m.session_id) hosts refl
            (omega (arith, h.session_u32)),
        read_number-append 2 (length m.host) (put_u16 (length m.host)) (m.host ++ ports) refl
            (omega (arith, h.host_u16)),
        read_bytes-append (length m.host) m.host ports refl,
        read_number-append 2 m.port (put_u16 m.port) ids refl (omega (arith, h.port_u16)),
        read_number-append 2 m.msg_id (put_u16 m.msg_id) (put_u8 m.frag_id ++ counts) refl
            (omega (arith, h.msg_u16)),
        read_number-append 1 m.frag_id (put_u8 m.frag_id) counts refl (omega (arith, h.frag_u8)),
        read_number-append 1 m.frag_count (put_u8 m.frag_count) (sizes ++ m.payload) refl
            (omega (arith, h.count_u8)),
        read_number-append 2 (length m.payload) sizes m.payload refl (omega (arith, h.payload_u16)),
        rest_of_length-same m.payload,
      )
      refl

zero_bytes-add : (n k : ℕ) → zero_bytes (n + k) ≡ zero_bytes n ++ zero_bytes k
zero_bytes-add zero k = let e : 0 + k ≡ k = omega arith in rw e refl
zero_bytes-add (suc n) k =
    let e : suc n + k ≡ suc (n + k) = omega arith in rw e (ap (◌∷◌ 0) (zero_bytes-add n k))

read_number-zeros :
    (n : ℕ) (rest : Bytes)
    → length (zero_bytes n) ≡ n
    → number_of 0 (zero_bytes n) ≡ 0
    → read_number n (zero_bytes n ++ rest) ≡ ok (0, rest)
read_number-zeros n rest e v = read_number-append n 0 (zero_bytes n) rest e v

-- Too much is left for a length of zero.
unpack-zeros :
    (rest : Bytes) → 0 < length rest → unpack (zero_bytes 14 ++ rest) ≡ err invalid_data_length
unfolding unpack
unpack-zeros rest h =
    let more : (length rest == 0) ≡ false = ground arith in
    rw
      (
        read_number-zeros 4 (zero_bytes 10 ++ rest) refl refl,
        read_number-zeros 2 (zero_bytes 8 ++ rest) refl refl,
        read_bytes-append 0 [] (zero_bytes 8 ++ rest) refl,
        read_number-zeros 2 (zero_bytes 6 ++ rest) refl refl,
        read_number-zeros 2 (zero_bytes 4 ++ rest) refl refl,
        read_number-zeros 1 (zero_bytes 3 ++ rest) refl refl,
        read_number-zeros 1 (zero_bytes 2 ++ rest) refl refl,
        read_number-zeros 2 rest refl refl,
        more,
      )
      refl

length-fields_written : (m : UdpMessage) → 14 ≤ length (fields_written m)
length-fields_written m = omega (
  arith,
  length-append m.host (
      put_u16 m.port
      ++ (put_u16 m.msg_id
          ++ (put_u8 m.frag_id
              ++ (put_u8 m.frag_count ++ (put_u16 (length m.payload) ++ m.payload))))),
)

-- A message whose fields fit their types is read back from what is written to the buffer, but never
-- from what is sent: before it stand as many zeros as the message is long, and the receiver refuses
-- it with the error of a wrong length.
pub unpack-pack :
    (m : UdpMessage)
    → IsEncodable m
    → (unpack (fields_written m) ≡ ok (m, [])) × (unpack (pack m) ≡ err invalid_data_length)
unfolding pack
unpack-pack m h =
    let left = length m.host + length m.payload in
    let rest = zero_bytes left ++ fields_written m in
    let sum : udp_size m ≡ 14 + left = omega arith in
    let zeros : pack m ≡ zero_bytes 14 ++ rest =
      ap (λ (n : ℕ). zero_bytes n ++ fields_written m) sum
      ∙ ap (λ (z : Bytes). z ++ fields_written m) (zero_bytes-add 14 left)
      ∙ append_assoc (zero_bytes 14) (zero_bytes left) (fields_written m) in
    let some_left : 0 < length rest =
      omega (arith, length-append (zero_bytes left) (fields_written m), length-fields_written m) in
    (unpack-fields_written m h, ap unpack zeros ∙ unpack-zeros rest some_left)
