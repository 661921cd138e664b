-- ===== src/Fixtures.antt =====
-- Data that the tests share.
use rtp_audio_streamer.Udp.{Kernel}
use rtp_audio_streamer.Tools.{Maths}
use rtp_audio_streamer.Impair.{Config, Random}
use rtp_audio_streamer.Base.{
  ℕ, ◌+◌, ◌*◌, ◌/◌, ◌%◌, ◌≡◌, arith, Bool, true, false, List, [], ◌∷◌, ◌++◌, length, All, ltb, ◌&&◌,
}
use rtp_audio_streamer.Host.{IsByte}
use rtp_audio_streamer.Base.Int.{
  i16, u16_of, eqb_ℤ, ltb_ℤ, ℤ, pos, pos_part, neg_part, sub_ℕ, ◌+ℤ◌, ◌-ℤ◌,
}
use rtp_audio_streamer.Jitter.{Arithmetic, JitterBuffer, Options, new_buffer}

-- Integers in the place of `double`, with a division that cuts off and without a fade.
abbrev pub integers : Arithmetic ℤ
integers = record {
  of_int = λ n. n;
  add = λ a b. a +ℤ b;
  sub = λ a b. a -ℤ b;
  mul = λ a b.
      sub_ℕ (pos_part a * pos_part b + neg_part a * neg_part b)
        (pos_part a * neg_part b + neg_part a * pos_part b);
  div = λ a b. sub_ℕ (pos_part a / pos_part b) (neg_part a / pos_part b);
  fabs = λ a. pos (pos_part a + neg_part a);
  power = λ a b. pos 1;
  truncate = λ a. a;
}

abbrev pub plain_options : Options
plain_options = record { collect_stats = false; disable_plc_fade = false }

abbrev pub empty_buffer : JitterBuffer ℤ
empty_buffer = new_buffer integers plain_options

-- Tenths from 0 to 9, one after the other.
abbrev pub counting : Random ℕ ℕ
counting = record {
  lt = ltb;
  unit = λ r. (r % 10, r + 1);
  uniform_int = λ low high r. (high, r + 1);
}

abbrev pub defaults : Config ℕ
defaults = record {
  listen_port = 5004;
  forward_port = 5006;
  forward_host = "127.0.0.1";
  loss = 0;
  reorder = 0;
  jitter_ms = pos 0;
  dup = 0;
  seed = 42;
  idle_timeout_ms = pos 1000;
}

-- Every datagram is sent twice, after 3 milliseconds.
abbrev pub doubling : Config ℕ
doubling = record defaults { jitter_ms = pos 3; dup = 10 }

-- A test for lists of bytes.
abbrev pub all_bytes : List ℕ → Bool
all_bytes [] = true
all_bytes (x ∷ xs) = ltb x 256 && all_bytes xs

pub all_bytes-IsByte : (xs : List ℕ) → all_bytes xs ≡ true → All IsByte xs
all_bytes-IsByte [] h = tt
all_bytes-IsByte (x ∷ xs) h = (ground arith, all_bytes-IsByte xs (ground arith))

abbrev pub whole_numbers : Maths ℤ
whole_numbers = record {
  arithmetic = integers;
  sin = λ a. a;
  log10 = λ a. a;
  equal = eqb_ℤ;
  less = ltb_ℤ;
  to_size = pos_part;
  to_i16 = λ a. i16 (u16_of a);
  atof = λ s. pos 1;
  two_pi = pos 6;
  half = pos 1;
}

-- A system whose state is what was handed over.
abbrev pub network : Kernel (List (List ℕ))
network = record {
  af_inet = 2;
  inaddr_any = 0;
  eagain = 11;
  ewouldblock = 11;
  errno = λ k. 0;
  socket = λ k. (pos 3, k);
  close = λ fd k. k;
  bind = λ fd a k. (pos 0, k);
  set_rcvtimeo = λ fd t k. (pos 0, k);
  recvfrom = λ fd b k. (pos 0, b, k);
  inet_pton = λ name. (pos 1, 0);
  sendto = λ fd b a k. (pos (length b), k ++ (b ∷ []));
}
