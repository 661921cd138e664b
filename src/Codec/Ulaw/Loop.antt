-- ===== src/Codec/Ulaw/Loop.antt =====
-- The loops of src/codec_ulaw.cpp over a frame: what they write, and what they leave as it was.
use rtp_audio_streamer.Base.{
  ℕ, zero, suc, ◌+◌, ◌≤◌, ◌<◌, ◌≡◌, refl, sym, ◌∙◌, arith, List, [], ◌∷◌, length, map, get_or, set,
  replicate, length-set, length-map, get_or-set_self, get_or-set_ne, length-replicate,
}
use native.Mathlib.Decide.{ℕ_discrete}
use rtp_audio_streamer.Base.Int.{ℤ, pos}
use rtp_audio_streamer.Codec.Ulaw.{
  linear_to_ulaw, ulaw_to_linear, encode_from, ulaw_encode_frame, decode_from, ulaw_decode_frame,
  ulaw_encoded, ulaw_decoded,
}

-- The entries from `i` on, `left` of them, are written from the entries of the source at the same
-- places; the others stay.
pub record Filled {A B : Type 0} (f : A → B) (src : List A) (d : A) (e : B) (i left : ℕ)
    (out done : List B) : Type 0 where
  pub size : length done ≡ length out
  pub written : (j : ℕ) → i ≤ j → j < i + left → get_or done j e ≡ f (get_or src j d)
  pub before : (j : ℕ) → j < i → get_or done j e ≡ get_or out j e
  pub after : (j : ℕ) → i + left ≤ j → get_or done j e ≡ get_or out j e

module _ {A B : Type 0} (f : A → B) (src : List A) (d : A) (e : B) where
  Filled-none : (i : ℕ) (out : List B) → Filled f src d e i 0 out out
  Filled-none i out = record {
    size = refl;
    written = λ j from below. absurd (omega arith);
    before = λ j below. refl;
    after = λ j from. refl;
  }

  Filled-more :
      (i left : ℕ) (out done : List B)
      → i < length out
      → Filled f src d e (i + 1) left (set out i (f (get_or src i d))) done
      → Filled f src d e i (suc left) out done
  Filled-more i left out done room v = record {
    size = v.size ∙ length-set out i (f (get_or src i d));
    written = λ j from below. elim (ℕ_discrete j i) [
      | yes here ↦
          v.before j (omega (arith, here))
          ∙ rw here (get_or-set_self out i (f (get_or src i d)) e room)
      | no other ↦ v.written j (omega (arith, other, from)) (omega (arith, below))
    ];
    before = λ j below.
        v.before j (omega (arith, below))
        ∙ get_or-set_ne out i j (f (get_or src i d)) e
            (λ same. absurd (omega (arith, same, below)));
    after = λ j from.
        v.after j (omega (arith, from))
        ∙ get_or-set_ne out i j (f (get_or src i d)) e (λ same. absurd (omega (arith, same, from)));
  }

encode_from-Filled :
    (pcm : List ℤ) (i left : ℕ) (out : List ℕ)
    → i + left ≤ length out
    → Filled linear_to_ulaw pcm (pos 0) 0 i left out (encode_from pcm i left out)
unfolding encode_from
encode_from-Filled pcm i zero out room = Filled-none linear_to_ulaw pcm (pos 0) 0 i out
encode_from-Filled pcm i (suc left) out room =
    let code = linear_to_ulaw (get_or pcm i (pos 0)) in
    Filled-more linear_to_ulaw pcm (pos 0) 0 i left out _ (omega (arith, room)) (
      encode_from-Filled pcm (i + 1) left (set out i code)
        (omega (arith, room, length-set out i code)))

decode_from-Filled :
    (codes : List ℕ) (i left : ℕ) (out : List ℤ)
    → i + left ≤ length out
    → Filled ulaw_to_linear codes 0 (pos 0) i left out (decode_from codes i left out)
unfolding decode_from
decode_from-Filled codes i zero out room = Filled-none ulaw_to_linear codes 0 (pos 0) i out
decode_from-Filled codes i (suc left) out room =
    let sample = ulaw_to_linear (get_or codes i 0) in
    Filled-more ulaw_to_linear codes 0 (pos 0) i left out _ (omega (arith, room)) (
      decode_from-Filled codes (i + 1) left (set out i sample)
        (omega (arith, room, length-set out i sample)))

pub ulaw_encode_frame-Filled :
    (pcm : List ℤ) (num_samples : ℕ) (out : List ℕ)
    → num_samples ≤ length out
    → Filled linear_to_ulaw pcm (pos 0) 0 0 num_samples out (ulaw_encode_frame pcm num_samples out)
ulaw_encode_frame-Filled pcm n out room = encode_from-Filled pcm 0 n out (omega (arith, room))

pub ulaw_decode_frame-Filled :
    (codes : List ℕ) (num_samples : ℕ) (out : List ℤ)
    → num_samples ≤ length out
    → Filled ulaw_to_linear codes 0
        (pos 0)
        0
        num_samples
        out
        (ulaw_decode_frame codes num_samples out)
ulaw_decode_frame-Filled codes n out room = decode_from-Filled codes 0 n out (omega (arith, room))

-- Two lists of one length with the same entries are the same.
same_entries :
    {A : Type 0} (d : A) (xs ys : List A)
    → length xs ≡ length ys
    → ((j : ℕ) → j < length ys → get_or xs j d ≡ get_or ys j d)
    → xs ≡ ys
same_entries d [] [] size same = refl
same_entries d [] (y ∷ ys) size same = absurd (omega (arith, size))
same_entries d (x ∷ xs) [] size same = absurd (omega (arith, size))
same_entries d (x ∷ xs) (y ∷ ys) size same =
    rw
      (
        same 0 (omega arith),
        same_entries d xs ys (omega (arith, size)) (λ j below. same (suc j) (omega (arith, below))),
      )
      refl

get_or-map :
    {A B : Type 0} (f : A → B) (xs : List A) (j : ℕ) (d : A) (e : B)
    → j < length xs
    → get_or (map f xs) j e ≡ f (get_or xs j d)
get_or-map f [] j d e below = absurd (omega arith)
get_or-map f (x ∷ xs) zero d e below = refl
get_or-map f (x ∷ xs) (suc j) d e below = get_or-map f xs j d e (omega arith)

Filled-map :
    {A B : Type 0} (f : A → B) (src : List A) (d : A) (e : B) (done : List B)
    → Filled f src d e 0 (length src) (replicate (length src) e) done
    → done ≡ map f src
Filled-map f src d e done v =
    let size : length done ≡ length (map f src) =
      v.size ∙ length-replicate (length src) e ∙ sym (length-map f src) in
    same_entries e done (map f src) size (λ j below.
      let inside : j < length src = omega (arith, below, length-map f src) in
      v.written j (omega arith) (omega (arith, inside)) ∙ sym (get_or-map f src j d e inside))

pub ulaw_encoded-map : (pcm : List ℤ) → ulaw_encoded pcm ≡ map linear_to_ulaw pcm
unfolding ulaw_encoded
ulaw_encoded-map pcm = Filled-map linear_to_ulaw pcm (pos 0) 0 _ (
    ulaw_encode_frame-Filled pcm (length pcm) (replicate (length pcm) 0)
      (omega (arith, length-replicate {A = ℕ} (length pcm) 0)))

pub length-ulaw_encoded : (pcm : List ℤ) → length (ulaw_encoded pcm) ≡ length pcm
length-ulaw_encoded pcm = rw (ulaw_encoded-map pcm) (length-map linear_to_ulaw pcm)

pub ulaw_decoded-map : (codes : List ℕ) → ulaw_decoded codes ≡ map ulaw_to_linear codes
unfolding ulaw_decoded
ulaw_decoded-map codes = Filled-map ulaw_to_linear codes 0 (pos 0) _ (
    ulaw_decode_frame-Filled codes (length codes) (replicate (length codes) (pos 0))
      (omega (arith, length-replicate (length codes) (pos 0))))
