-- ===== src/Tnc/Hosts/Examples.antt =====
-- Bytes of a host through the server to the decoder.
use modemstuff.Base.{
  ℕ, ◌≡◌, refl, inl, true, List, [], ◌∷◌, ◌++◌, map, concat, some, arith, length-replicate,
  replicate,
}
use modemstuff.Kiss.{Decoder, Message, undefined, decoder_buffer_size, encode, escape}
use modemstuff.Kiss.RoundTrip.{IsSendable, IsReady, encode_all, received}
use modemstuff.NetServer.Thread
use modemstuff.NetServer.{Server, cleared}
use modemstuff.NetServer.Thread.{receive}
use modemstuff.Tnc.Hosts.{kiss_data_callbacks, kiss_data_callbacks-encode_all}

abbrev idle : Decoder
idle = record {
  state = undefined;
  buffer = replicate decoder_buffer_size 7;
  buffer_pos = 0;
  has_callback = true;
}

idle-IsReady : IsReady idle
idle-IsReady = record {
  valid = record { array = length-replicate {A = ℕ} 512 7; bounded = omega arith };
  callback = refl;
  fresh = inl refl;
}

-- A message whose data have a byte that is escaped, from a host on socket 5.
abbrev host_message : Message
host_message = record { port = 3; command = 0; payload = 0xc0 ∷ 5 ∷ []; data_length = 2 }

abbrev host_bytes : List ℕ
host_bytes = 0xc0 ∷ 0x30 ∷ 0xdb ∷ 0xdc ∷ 5 ∷ 0xc0 ∷ []

host_message-IsSendable : IsSendable host_message
host_message-IsSendable = ground arith

encode_all-host_message : encode_all (host_message ∷ []) ≡ some (concat [] ++ host_bytes)
unfolding encode_all encode escape
encode_all-host_message = refl

abbrev kiss_server : Server
kiss_server = record (cleared 3) {
  client_data_start_callback = true;
  client_data_chunk_callback = true;
  client_data_end_callback = true;
}

kiss_data_callbacks-encode_all_example :
    (last : Decoder) × (kiss_data_callbacks idle
        (receive kiss_server 5 0
          (map Thread.received [] ++ (Thread.received host_bytes ∷ []))).events
      ≡ some (last, map received (host_message ∷ [])))
    × IsReady last
kiss_data_callbacks-encode_all_example =
    kiss_data_callbacks-encode_all kiss_server 5 (host_message ∷ []) idle [] host_bytes refl refl
      (host_message-IsSendable, tt) idle-IsReady encode_all-host_message tt (omega arith)
      (omega arith)
