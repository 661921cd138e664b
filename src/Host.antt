-- ===== src/Host.antt =====
-- What the platform gives the code: how `memcpy` lays an integer out in memory, and the
-- conversions of <arpa/inet.h>. Two platforms show that the laws can be met.
use rtp_audio_streamer.Base.{ℕ, ◌+◌, ◌*◌, ◌/◌, ◌%◌, ◌^◌, ◌<◌, ◌≡◌, refl, arith}

abbrev pub IsByte : ℕ → Type 0
IsByte b = b < 256

-- Bytes stand lowest address first. The laws of `htons` to `ntohl` are POSIX's: network byte
-- order is most significant byte first, whatever the byte order of the host.
pub record Host : Type 0 where
  pub bytes_16 : ℕ → ℕ × ℕ
  pub value_16 : ℕ → ℕ → ℕ
  pub bytes_32 : ℕ → ℕ × ℕ × ℕ × ℕ
  pub value_32 : ℕ → ℕ → ℕ → ℕ → ℕ
  pub htons : ℕ → ℕ
  pub ntohs : ℕ → ℕ
  pub htonl : ℕ → ℕ
  pub ntohl : ℕ → ℕ
  pub bytes_16-IsByte : (v : ℕ) → v < 2 ^ 16 → IsByte (bytes_16 v).0 × IsByte (bytes_16 v).1
  pub value_16-bytes_16 : (v : ℕ) → v < 2 ^ 16 → value_16 (bytes_16 v).0 (bytes_16 v).1 ≡ v
  pub value_16-lt : (a b : ℕ) → IsByte a → IsByte b → value_16 a b < 2 ^ 16
  pub htons_network : (v : ℕ) → v < 2 ^ 16 → bytes_16 (htons v) ≡ (v / 256, v % 256)
  pub ntohs_network : (a b : ℕ) → IsByte a → IsByte b → ntohs (value_16 a b) ≡ a * 256 + b
  pub htonl_network :
      (v : ℕ)
      → v < 2 ^ 32
      → bytes_32 (htonl v) ≡ (v / 2 ^ 24, v / 2 ^ 16 % 256, v / 256 % 256, v % 256)
  pub ntohl_network :
      (a b c d : ℕ)
      → IsByte a
      → IsByte b
      → IsByte c
      → IsByte d
      → ntohl (value_32 a b c d) ≡ a * 2 ^ 24 + b * 2 ^ 16 + c * 256 + d

abbrev swap_16 : ℕ → ℕ
swap_16 v = v % 256 * 256 + v / 256 % 256

abbrev swap_32 : ℕ → ℕ
swap_32 v = v % 256 * 2 ^ 24 + v / 256 % 256 * 2 ^ 16 + v / 2 ^ 16 % 256 * 256 + v / 2 ^ 24 % 256

pub big_value_lt : (a b : ℕ) → IsByte a → IsByte b → a * 256 + b < 2 ^ 16
big_value_lt a b p q = omega arith

pub big_IsByte : (v : ℕ) → v < 2 ^ 16 → IsByte (v / 256) × IsByte (v % 256)
big_IsByte v h = omega arith

pub big_round : (v : ℕ) → v < 2 ^ 16 → v / 256 * 256 + v % 256 ≡ v
big_round v h = omega arith

-- A host that stores the most significant byte first: the conversions do nothing.
abbrev pub big_endian : Host
big_endian = record {
  bytes_16 = λ v. (v / 256, v % 256);
  value_16 = λ a b. a * 256 + b;
  bytes_32 = λ v. (v / 2 ^ 24, v / 2 ^ 16 % 256, v / 256 % 256, v % 256);
  value_32 = λ a b c d. a * 2 ^ 24 + b * 2 ^ 16 + c * 256 + d;
  htons = λ v. v;
  ntohs = λ v. v;
  htonl = λ v. v;
  ntohl = λ v. v;
  bytes_16-IsByte = big_IsByte;
  value_16-bytes_16 = big_round;
  value_16-lt = big_value_lt;
  htons_network = λ v h. refl;
  ntohs_network = λ a b p q. refl;
  htonl_network = λ v h. refl;
  ntohl_network = λ a b c d p q r s. refl;
}

pub little_IsByte : (v : ℕ) → v < 2 ^ 16 → IsByte (v % 256) × IsByte (v / 256)
little_IsByte v h = omega arith

pub little_round : (v : ℕ) → v < 2 ^ 16 → v / 256 * 256 + v % 256 ≡ v
little_round v h = omega arith

pub little_value_lt : (a b : ℕ) → IsByte a → IsByte b → b * 256 + a < 2 ^ 16
little_value_lt a b p q = omega arith

pub little_htons :
    (v : ℕ) → v < 2 ^ 16 → ◌≡◌ {A = ℕ × ℕ} (swap_16 v % 256, swap_16 v / 256) (v / 256, v % 256)
little_htons v h = ground arith

pub little_ntohs : (a b : ℕ) → IsByte a → IsByte b → swap_16 (b * 256 + a) ≡ a * 256 + b
little_ntohs a b p q = omega arith

pub little_htonl :
    (v : ℕ)
    → v < 2 ^ 32
    → ◌≡◌ {A = ℕ × ℕ × ℕ × ℕ}
        (swap_32 v % 256, swap_32 v / 256 % 256, swap_32 v / 2 ^ 16 % 256, swap_32 v / 2 ^ 24)
        (v / 2 ^ 24, v / 2 ^ 16 % 256, v / 256 % 256, v % 256)
little_htonl v h = ground arith

pub little_ntohl :
    (a b c d : ℕ)
    → IsByte a
    → IsByte b
    → IsByte c
    → IsByte d
    → swap_32 (d * 2 ^ 24 + c * 2 ^ 16 + b * 256 + a) ≡ a * 2 ^ 24 + b * 2 ^ 16 + c * 256 + d
little_ntohl a b c d p q r s = omega arith

-- A host that stores the least significant byte first: the conversions reverse the bytes.
abbrev pub little_endian : Host
little_endian = record {
  bytes_16 = λ v. (v % 256, v / 256);
  value_16 = λ a b. b * 256 + a;
  bytes_32 = λ v. (v % 256, v / 256 % 256, v / 2 ^ 16 % 256, v / 2 ^ 24);
  value_32 = λ a b c d. d * 2 ^ 24 + c * 2 ^ 16 + b * 256 + a;
  htons = swap_16;
  ntohs = swap_16;
  htonl = swap_32;
  ntohl = swap_32;
  bytes_16-IsByte = little_IsByte;
  value_16-bytes_16 = little_round;
  value_16-lt = little_value_lt;
  htons_network = little_htons;
  ntohs_network = little_ntohs;
  htonl_network = little_htonl;
  ntohl_network = little_ntohl;
}
