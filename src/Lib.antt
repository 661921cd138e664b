-- ===== src/Lib.antt =====
-- An RTP audio streamer: a sender cuts 16-bit samples at 8 kHz into frames of 20 ms, encodes each
-- (raw PCM, mu-law or IMA ADPCM) and sends it in an RTP packet; a receiver parses the packets, puts
-- them in order in a jitter buffer, conceals what is missing, and hands the frames through a
-- single-producer, single-consumer ring to the thread that writes the file.
--
-- The files, and the code that each is about (paths from the root of the repository):
--   AudioFormat: include/rtp/audio_format.hpp, the constants of the format.
--   Host: what the platform gives, as a parameter: the layout of integers in memory and htons, ntohs,
--     htonl, ntohl, with POSIX's laws. A big-endian and a little-endian host meet them.
--   Packet: src/rtp_packet.cpp and include/rtp/rtp_packet.hpp. `serialize` and `parse` work on lists
--     of bytes; Packet/Wire has the RFC 3550 layout as arithmetic, Packet/Parse the round trips.
--   Codec/Ulaw: src/codec_ulaw.cpp. Codec/Adpcm: src/codec_adpcm.cpp; `encode_sample` and
--     `decode_sample` thread the state that the source changes in place.
--   Stats: src/stats.cpp and include/rtp/stats.hpp; Stats/Ideal has a tracker whose numbers never wrap.
--   Ring: include/rtp/ring_buffer.hpp. `push` and `pop` as functions on the slots and two indices;
--     Ring/Thread has the same code as steps of two threads, one shared access at a time.
--   Jitter: src/jitter_buffer.cpp and include/rtp/jitter_buffer.hpp. The class is the record
--     `JitterBuffer`; Jitter/Push has `push` and `update_jitter_estimate`, Jitter/Decode has
--     `decode_slot` and `conceal`, Jitter/Pull the rest. Jitter/Inv and Jitter/Keep have the
--     invariant, Jitter/Buffered the slots as a map from frames to packets, Jitter/Playback runs
--     of any calls in any order (the calls that the two threads of src/receiver.cpp make under the
--     mutex), Jitter/Delivery, Jitter/Account and Jitter/Target what such runs give, Jitter/Frame
--     the frames that are given out, Jitter/Origin the packets that they come from, Jitter/InOrder
--     a stream whose packets arrive in order.
--   Sender: src/sender.cpp, with the loop that makes the packets; Sender/Schedule has them in closed
--     form, Sender/Payload what each codec puts in them. Sender/Main has `main` as a whole, with the
--     arguments, the file and the socket, Sender/Handed what its loop hands over to the system, and
--     Sender/Sent what it has sent when it exits.
--   Wav: src/wav.cpp; a file is a list of bytes, an exception an error of `ReadResult`, and whether a
--     seek succeeds a parameter. Wav/RoundTrip has the file that was written, Wav/Reading any file.
--   Receiver: src/receiver.cpp. The clock, `samples_since` and `add_millis`; Receiver/Playout has
--     what it makes of a datagram, and the loop that moves due frames from the buffer to the ring,
--     which Receiver/Finish follows to the end of a stream; Receiver/Threads has the receive
--     thread, the playout thread and the main thread as steps, Receiver/Account what every step
--     keeps (with the ring as the queue of Receiver/Queued), Receiver/Complete the samples that
--     are written, Receiver/File the WAV file made of them, Receiver/Quiet runs in which no datagram
--     comes, Receiver/Leaving and Receiver/Exit their end,
--     Receiver/Provenance where the frames come from, Receiver/Calls the calls that the threads make of
--     the jitter buffer. Receiver/Main has the arguments, the socket and the percentiles,
--     Receiver/Report the whole of `main` with its exit status, its file and its report, and
--     Receiver/Counted and Receiver/Reported what is true of the report.
--   Pipeline: the sender and the receiver together; Pipeline/Network has the proxy between them,
--     Pipeline/InTime and Pipeline/Lossless a network that loses nothing, and
--     Pipeline/Written the samples that are then written.
--   Impair: tools/impair.cpp. Impair/Args has its command line, Impair/Threads the main thread and the
--     threads that hold datagrams back as steps, each send of which may throw and end the program, Impair/Passes what is sent on, Impair/Passthrough the
--     proxy that impairs nothing; Impair/Main has `main` with its sockets, one call at a time (its
--     draws and counters are in Impair/Decide), with Impair/Copies, Impair/Kept, Impair/KeptSteps and
--     Impair/Ending for what holds when it exits.
--   Udp: src/udp_socket.cpp and include/rtp/udp_socket.hpp, with the system calls and `errno` as a
--     parameter; Udp/Lifetime has a socket that is made, used and destroyed in a block, Udp/Listen
--     the socket that the receiver and the proxy open.
--   Tools: tools/snr_harness.cpp, tools/wav_snr.cpp and tools/gen_test_tone.cpp, over a `double` that is a
--     parameter; Tools/Snr has the two measurements, Tools/Tone the file of the generator.
--   Base: shared names, Boolean tests, lists, machine words, integers and bit operations. Fixtures: data
--     that the tests share.
--
-- Choices. Bytes, words and counters are natural numbers with their wrap-around written out;
-- signed values are integers over them. A buffer with a length is a list. `double` is a type
-- parameter with the operations that the code makes on it; the few laws that are used (a fade
-- keeps a sample within 16 bits, a conversion to `int16_t` is in range, no draw is below 0) are
-- hypotheses of the theorems. An acquire-load in the ring gives any value the other index has had
-- since it was last seen. A false result with an output argument is `none`.
--
-- Fuel. Five loops have fuel, one unit for each pass. For the packets of the sender, one more than
-- the number of frames is enough, and for its loop with the socket one more than the number of
-- samples, which is more; for the chunks of a WAV file, the number of bytes of the file, since a
-- pass takes eight at least; for the carry of `add_millis`, the whole seconds in the nanoseconds;
-- for the due frames, one more than the cursor is short of 32768. All other loops are structural
-- recursion.
--
-- Errors. An exception that `main` catches gives the exit status 1; one that leaves the function of a
-- thread, or that is thrown in the proxy while its vector of threads is not empty, is the state
-- `terminated`.
--
-- Interleavings. The threads of the receiver take the mutex of the jitter buffer in turn, so a pass of
-- the receive thread is one step, and the playout thread has one step for each pass of its loop. A
-- push may find the ring full, and a pop find it empty, by an old value of the other index; the final
-- pop comes after the acquire-load of `playout_done` and sees every push. Sleeps end at any time, since
-- no result but the end of a quiet run depends on how long they are. Receiver/Quiet has passes at the deadlines and a
-- clock that goes on. Impair/Passthrough is about a proxy whose sends do not throw.
--
-- Not modelled: the generators of random numbers, sleeping, the wording of messages, an exception of
-- `std::thread` or of an allocation, a write to a file that fails after it is open, the scripts and the
-- tests. The range of `int32_t` and `double` is not checked where the code relies on it
-- (the cast of the target depth, the cast of a faded sample).
pub mod Base
pub mod Host
pub mod Packet
pub mod Ring
pub mod Stats
pub mod Codec
pub mod AudioFormat
pub mod Jitter
pub mod Sender
pub mod Wav
pub mod Receiver
pub mod Impair
pub mod Pipeline
pub mod Udp
pub mod Tools
mod Fixtures
