-- ===== src/Hysteria/UdpMessage.antt =====
-- transport/hysteria/core/protocol.go: a message of UDP as bytes.
pub mod Layout
use clash_for_android.Prelude.{
  ℕ, zero, suc, ◌+◌, ◌*◌, ◌/◌, ◌%◌, Bool, true, false, not, List, [], ◌∷◌, ◌++◌, Bytes, Result, ok,
  err, ltb, ◌==◌, if◌then◌else◌, length, take, drop,
}

pub record UdpMessage : Type 0 where
  pub session_id : ℕ
  pub host : Bytes
  pub port : ℕ
  pub msg_id : ℕ
  pub frag_id : ℕ
  pub frag_count : ℕ
  pub payload : Bytes

-- `HeaderSize` and `Size`
abbrev pub header_size : UdpMessage → ℕ
header_size m = 14 + length m.host

abbrev pub udp_size : UdpMessage → ℕ
udp_size m = header_size m + length m.payload

-- binary.Write of a number of one, two and four bytes.
abbrev pub put_u8 : ℕ → Bytes
put_u8 n = n % 256 ∷ []

abbrev pub put_u16 : ℕ → Bytes
put_u16 n = n / 256 % 256 ∷ n % 256 ∷ []

abbrev pub put_u32 : ℕ → Bytes
put_u32 n = n / 16777216 % 256 ∷ n / 65536 % 256 ∷ n / 256 % 256 ∷ n % 256 ∷ []

abbrev pub zero_bytes : ℕ → Bytes
zero_bytes zero = []
zero_bytes (suc n) = 0 ∷ zero_bytes n

-- What is written to the buffer.
abbrev pub fields_written : UdpMessage → Bytes
fields_written m =
    put_u32 m.session_id
    ++ (put_u16 (length m.host)
        ++ (m.host
            ++ (put_u16 m.port
                ++ (put_u16 m.msg_id
                    ++ (put_u8 m.frag_id
                        ++ (put_u8 m.frag_count ++ (put_u16 (length m.payload) ++ m.payload)))))))

-- `Pack`: bytes.NewBuffer takes what it is given as the first content, and writes come after it.
unfoldable pub pack : UdpMessage → Bytes
pack m = zero_bytes (udp_size m) ++ fields_written m

pub data UnpackError : Type 0 where
  short_message invalid_data_length : UnpackError

-- A reader over the bytes that are left.
abbrev pub Reading : Type 0 → Type 0
Reading A = Bytes → Result UnpackError (A × Bytes)

abbrev pub read_then :
    {A B : Type 0}
    → Result UnpackError (A × Bytes)
    → (A → Reading B)
    → Result UnpackError (B × Bytes)
read_then (ok (a, rest)) k = k a rest
read_then (err e) k = err e

infixl 5 ◌>>=◌
abbrev pub ◌>>=◌ : {A B : Type 0} → Reading A → (A → Reading B) → Reading B
(m >>= k) bytes = read_then (m bytes) k

unfoldable pub read_bytes : ℕ → Reading Bytes
read_bytes n bytes =
    if ltb (length bytes) n then err short_message else ok (take n bytes, drop n bytes)

-- The number that some bytes stand for, with the higher ones first.
abbrev pub number_of : ℕ → Bytes → ℕ
number_of n [] = n
number_of n (b ∷ bs) = number_of (n * 256 + b) bs

-- binary.Read of a number of some bytes.
unfoldable pub read_number : ℕ → Reading ℕ
unfolding read_bytes
read_number size bytes = read_then (read_bytes size bytes) (λ bs rest. ok (number_of 0 bs, rest))

abbrev pub rest_of_length : ℕ → Reading Bytes
rest_of_length n rest = if length rest == n then ok (rest, []) else err invalid_data_length

-- `Unpack`
unfoldable pub unpack : Reading UdpMessage
unpack = do
  session_id ← read_number 4
  host_len ← read_number 2
  host ← read_bytes host_len
  port ← read_number 2
  msg_id ← read_number 2
  frag_id ← read_number 1
  frag_count ← read_number 1
  data_len ← read_number 2
  payload ← rest_of_length data_len
  λ rest. ok (
    record {
      session_id = session_id;
      host = host;
      port = port;
      msg_id = msg_id;
      frag_id = frag_id;
      frag_count = frag_count;
      payload = payload;
    },
    rest,
  )
