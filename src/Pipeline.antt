-- ===== src/Pipeline.antt =====
-- The sender, the network and the receiver together: src/sender.cpp and src/receiver.cpp.
pub mod Heard
pub mod Network
pub mod InTime
pub mod Lossless
pub mod Written
mod Tests
mod NetworkTests
use rtp_audio_streamer.Base.{ℕ, Option, none, some, List, [], get_or}

-- Datagram `i` of a run of the sender.
abbrev pub datagram_at : ℕ → Option (List (List ℕ)) → List ℕ
datagram_at i none = []
datagram_at i (some datagrams) = get_or datagrams i []
