-- ===== src/Lib.antt =====
-- Verification of modemstuff, a software modem and terminal node controller for amateur packet radio.
--
-- The program and its model. A host speaks KISS with the node controller (apps/ax25tnc). A data
-- frame becomes an AX.25 packet, which the modulator frames, stuffs, line codes and keys as tones;
-- the demodulator detects bits in the received samples, decodes the line code, looks for frames,
-- checks and unpacks them.
--
--   Kiss         src/hamstuff/kiss.c, include/hamstuff/kiss.h: `process` is
--                hs_kiss_decoder_process, `encode` is hs_kiss_encode
--   Crc          src/hamstuff/ax25_crc.c: the check sequence by its table
--   Call         src/hamstuff/ax25_call.c: callsigns, hs_ax25_call_pack and the others by name
--   Packet       src/hamstuff/ax25_packet.c: packets
--   Framer       src/hamstuff/ax25_framer.c: the buffer of bits that the modulator sends
--   Deframer     src/hamstuff/ax25_deframer.c: from received bits to packets
--   Linecode     src/modemstuff/linecode.c: NRZI
--   BitDetector  src/modemstuff/bitdet.c: from soft symbols to bits
--   Link         apps/ax25tnc/modulator.c and apps/ax25tnc/demodulator.c, which compose these
--   Tnc          apps/ax25tnc/ax25tnc.c: messages of hosts to the modulator, received packets to hosts;
--                Tnc/Start is its main, up to the wait for the server, and Tnc/Settings is
--                apps/ax25tnc/config.c
--   TestDemod    apps/test_demod: the bench that demodulates a file of samples
--   Config       src/configstuff/config.c: configuration files
--   Window       src/modemstuff/window.c: the sliding window of samples
--   Dsp          src/modemstuff/dds.c, goertzel.c, butterworth.c and fsk.c over any floating-point
--                numbers; with Link, the modulator and demodulator from and to samples
--   NetServer    src/netstuff/netserver.c: the server of hosts; in NetServer/Thread, `server_round`
--                is the body of the loop of its thread; NetServer/Interleaving has the thread and a
--                broadcast step by step, as a relation
--   NetClient    src/netstuff/netclient.c: the client that receives and sends samples
--   Netaud       apps/netaud/netaud.c: the callbacks of the audio server, and in Netaud/Start its command
--                line and main; Netaud/Audio is apps/netaud/audio.c
--   LinkedBuffer src/datastuff/linkedbuffer.c: the queue of bytes that clients send to be played
--
-- Each of these files has the code as definitions; the modules below it say in their names what
-- they prove, and Examples has tests and instances at concrete inputs. Base has the helpers that all
-- share: Boolean tests, arrays as lists, bitwise operations, and Option for code that may fault.
--
-- How the code is read. A struct is a record with the fields' names, less leading underscores, and a
-- function that changes one through a pointer returns it. An array is a list of its whole length;
-- `none` as a result is a read or write outside an array. What a function writes to an output buffer
-- byte after byte is a list. Bytes and registers are natural numbers, with the wrap written where the
-- code can leave the width, also that of the `int` that counts a reception's bytes. A callback's arguments are values in the result. Storage that an
-- initialisation leaves as it was stays arbitrary.
--
-- Bounds and fuel. The bit buffer holds 256 units of 32 bits. `drain` reads it with fuel for the bits
-- that it holds and one call more, which is when the code's loop ends. The loop of a push that
-- creates nodes has the number of bytes as its fuel, of which every round takes at least one. All
-- other loops are structural.
--
-- The read outside. ms_window_push reads one sample behind the window's buffer (Window/Overread). The
-- memory behind is an argument; what is said of whole signals has the condition that it can be read,
-- and what is said of the node controller begins at the symbols that the detector gives.
--
-- Floating point. The operations of `float` and `double` are an argument, without laws: what is shown
-- of signals holds for every rounding. BitDetector and Link know a symbol by its sign only.
--
-- Threads. NetServer/Runs takes whole rounds of the thread and whole broadcasts in any order. In
-- NetServer/Interleaving every access to a slot, use of the mutex and call of the system is a step of
-- its own, of the thread or of a broadcast; only a `select` is one step with the `send` behind it.
--
-- Not modelled: the IQ detector, which include/modemstuff/fsk.h does not select; the log; the calls
-- that end the node controller, which only destroy what the other files define. What PortAudio, the
-- sockets and the C library answer is an argument, and so is util_strcasestr, which
-- apps/netaud/utils.h takes from another project.
pub mod Base
pub mod Kiss
pub mod Crc
pub mod Call
pub mod Packet
pub mod Framer
pub mod Deframer
pub mod Linecode
pub mod BitDetector
pub mod Link
pub mod LinkedBuffer
pub mod Window
pub mod Dsp
pub mod NetServer
pub mod NetClient
pub mod Tnc
pub mod TestDemod
pub mod Netaud
pub mod Config
