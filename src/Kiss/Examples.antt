-- ===== src/Kiss/Examples.antt =====
-- The theorems of the KISS framing at messages with special bytes.
use modemstuff.Base.{
  ℕ, ◌≡◌, refl, inl, true, List, [], ◌∷◌, map, some, arith, length-replicate, replicate,
}
use modemstuff.Kiss.{Decoder, Message, undefined, decoder_buffer_size, escape, encode}
use modemstuff.Kiss.Stream.{run}
use modemstuff.Kiss.RoundTrip.{
  IsSendable, IsReady, received, frame_message, encode_all, run-encode_all, run-encode_port_twelve,
}

abbrev idle : Decoder
idle = record {
  state = undefined;
  buffer = replicate decoder_buffer_size 7;
  buffer_pos = 0;
  has_callback = true;
}

-- Three bytes of data, two of them special; the fourth is not sent.
abbrev special : Message
special = record { port = 3; command = 0; payload = 0xc0 ∷ 5 ∷ 0xdb ∷ 9 ∷ []; data_length = 3 }

abbrev bare : Message
bare = record { port = 0; command = 1; payload = []; data_length = 0 }

abbrev port_twelve : Message
port_twelve = record { port = 12; command = 0; payload = 0x41 ∷ 0x42 ∷ []; data_length = 2 }

special-IsSendable : IsSendable special
special-IsSendable = ground arith

bare-IsSendable : IsSendable bare
bare-IsSendable = ground arith

idle-IsReady : IsReady idle
idle-IsReady = record {
  valid = record { array = length-replicate {A = ℕ} 512 7; bounded = omega arith };
  callback = refl;
  fresh = inl refl;
}

encode-special : encode special ≡ some (0xc0 ∷ 0x30 ∷ 0xdb ∷ 0xdc ∷ 5 ∷ 0xdb ∷ 0xdd ∷ 0xc0 ∷ [])
unfolding encode escape
encode-special = refl

run-encode_all_example :
    (bytes : List ℕ) × (encode_all (special ∷ bare ∷ []) ≡ some bytes)
    × ((last : Decoder) × (run idle bytes ≡ some (last, map received (special ∷ bare ∷ [])))
        × IsReady last)
run-encode_all_example =
    run-encode_all (special ∷ bare ∷ []) idle (special-IsSendable, (bare-IsSendable, tt))
      idle-IsReady

run-encode_port_twelve_example :
    (bytes : List ℕ) × (encode port_twelve ≡ some bytes)
    × ((last : Decoder) × (run idle bytes ≡ some (last, frame_message 0x41 (0x42 ∷ []) ∷ [])))
run-encode_port_twelve_example =
    run-encode_port_twelve port_twelve idle 0x41 (0x42 ∷ []) refl refl refl refl (omega arith)
      idle-IsReady
