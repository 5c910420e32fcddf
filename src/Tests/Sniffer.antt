-- ===== src/Tests/Sniffer.antt =====
-- Tests of the TLS sniffer.
use clash_for_android.Prelude.{◌≡◌, ◌⊎◌, refl, Bytes, codes, [], ◌∷◌, arith}
use clash_for_android.Sniffer.Sniffed.{
  returned, failed, SniffError, no_clue, not_tls, need_at_least_data,
}
use clash_for_android.Sniffer.Tls.{sniff_tls}
use clash_for_android.Sniffer.Tls.Bounds.{sniff_tls_lem}
use clash_for_android.Sniffer.Tls.Message.{Message, IsMessage, tls_record}
use clash_for_android.Sniffer.Tls.Hello.{sniff_tls-tls_record}

abbrev zeros_38 : Bytes
zeros_38 =
    3 ∷ 3 ∷ 0 ∷ 0 ∷ 0 ∷ 0 ∷ 0 ∷ 0 ∷ 0 ∷ 0 ∷ 0 ∷ 0 ∷ 0 ∷ 0 ∷ 0 ∷ 0 ∷ 0 ∷ 0 ∷ 0 ∷ 0 ∷ 0 ∷ 0 ∷ 0 ∷ 0
    ∷ 0 ∷ 0 ∷ 0 ∷ 0 ∷ 0 ∷ 0 ∷ 0 ∷ 0 ∷ 0 ∷ 0 ∷ 0 ∷ 0 ∷ 0 ∷ 0 ∷ []

abbrev message : Message
message = record {
  minor = 1;
  head = zeros_38;
  session_id = 9 ∷ 9 ∷ [];
  ciphers = 19 ∷ 1 ∷ 19 ∷ 2 ∷ [];
  compression = 0 ∷ [];
  before =
      record { high = 0; low = 23; body = [] } ∷ record { high = 1; low = 0; body = 7 ∷ [] } ∷ [];
  other_names = record { kind = 1; text = codes "x" } ∷ [];
  more_names = [];
  after = 0 ∷ 10 ∷ 0 ∷ 0 ∷ [];
  rest = 23 ∷ [];
}

message-IsMessage : IsMessage message
message-IsMessage = record {
  head_length = refl;
  short_session = omega arith;
  even_ciphers = refl;
  no_server_name = ground arith;
  no_host_name = ground arith;
}

sniff_tls-tls_record_example :
    sniff_tls (tls_record message (codes "a.example")) ≡ returned (codes "a.example")
sniff_tls-tls_record_example =
    sniff_tls-tls_record message (codes "a.example") message-IsMessage refl

sniff_tls_lem_example :
    ((name : Bytes) × (sniff_tls (22 ∷ 3 ∷ 1 ∷ 1 ∷ 0 ∷ []) ≡ returned name))
    ⊎ ((e : SniffError) × (sniff_tls (22 ∷ 3 ∷ 1 ∷ 1 ∷ 0 ∷ []) ≡ failed e))
sniff_tls_lem_example = sniff_tls_lem (22 ∷ 3 ∷ 1 ∷ 1 ∷ 0 ∷ [])

-- A record that has not arrived whole.
cut_short : sniff_tls (22 ∷ 3 ∷ 1 ∷ 1 ∷ 0 ∷ []) ≡ failed (need_at_least_data 261)
unfolding sniff_tls clash_for_android.Sniffer.Sniffed.at
cut_short = refl
