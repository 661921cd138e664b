-- ===== src/AudioFormat.antt =====
-- include/rtp/audio_format.hpp: the one format of the whole pipeline.
use rtp_audio_streamer.Base.{ℕ, ◌*◌, ◌/◌}

abbrev pub sample_rate_hz : ℕ
sample_rate_hz = 8000

abbrev pub channels : ℕ
channels = 1

abbrev pub bits_per_sample : ℕ
bits_per_sample = 16

abbrev pub frame_duration_ms : ℕ
frame_duration_ms = 20

abbrev pub frame_samples : ℕ
frame_samples = sample_rate_hz * frame_duration_ms / 1000

abbrev pub bytes_per_sample : ℕ
bytes_per_sample = bits_per_sample / 8

abbrev pub frame_bytes_pcm : ℕ
frame_bytes_pcm = frame_samples * bytes_per_sample
