-- ===== src/Tnc.antt =====
-- The dispatch of apps/ax25tnc/ax25tnc.c: messages of the host to the modulator, and received
-- packets to the hosts. What goes to the log is not modelled, but the line that is made for it is.
-- The levels that the modulator keys and the bytes that the server broadcasts are results. The
-- payload of a message is the part of its array that has been written, and `none` is also a read
-- behind it.
pub mod Relay
pub mod Transmit
pub mod Received
pub mod Commands
pub mod Hosts
pub mod Settings
pub mod Start
pub mod Running
pub mod EndToEnd
mod Examples
use modemstuff.Base.{
  ℕ, ◌*◌, List, [], ◌∷◌, Option, none, some, length, get_elem?, ◌==◌, if◌then◌else◌, ◌>>=◌,
}
use modemstuff.Kiss.{Message, encode}
use modemstuff.Kiss.Command.{kiss_data_frame, kiss_tx_delay, kiss_tx_tail}
use modemstuff.Packet.{Packet, packet_pack, packet_unpack, packet_pack_tnc2}
use modemstuff.Framer.{Framer}
use modemstuff.Link.{Modulator, modulator_process}

-- `storage` and `framer` are the memory of the local variables.
unfoldable pub incoming_kiss_message :
    Modulator → Framer → Packet → Message → Option (Modulator × List ℕ)
incoming_kiss_message mod' framer storage message =
    if message.command == kiss_data_frame
    then (do
      packet ← packet_unpack storage message.payload message.data_length
      line ← packet_pack_tnc2 packet
      levels ← modulator_process mod' framer packet
      some (mod', levels))
    else if message.command == kiss_tx_delay
    then (do delay ← get_elem? message.payload 0; some (record mod' { tx_delay = delay * 10 }, []))
    else if message.command == kiss_tx_tail
    then (do tail ← get_elem? message.payload 0; some (record mod' { tx_tail = tail * 10 }, []))
    else some (mod', [])

-- The message to the hosts.
abbrev pub kiss_message : List ℕ → Message
kiss_message bytes = record {
  port = 0;
  command = kiss_data_frame;
  payload = bytes;
  data_length = length bytes;
}

unfoldable pub demodulated_packet : Packet → Option (List ℕ)
demodulated_packet packet = do
  line ← packet_pack_tnc2 packet
  bytes ← packet_pack packet
  encode (kiss_message bytes)
