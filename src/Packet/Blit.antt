-- ===== src/Packet/Blit.antt =====
-- Copies into the output buffer, at consecutive places, are one copy.
use mathlib.Core.List.{append-nil}
use rtp_audio_streamer.Base.{
  ℕ, zero, suc, ◌≤◌, ◌≡◌, refl, ap, arith, List, [], ◌∷◌, ◌++◌, length, set, take, drop,
}
use rtp_audio_streamer.Packet.{blit}

pub set-eq-blit : (buf : List ℕ) (i b : ℕ) → set buf i b ≡ blit buf i (b ∷ [])
unfolding blit
set-eq-blit [] i b = refl
set-eq-blit (x ∷ []) zero b = refl
set-eq-blit (x ∷ y ∷ xs) zero b = refl
set-eq-blit (x ∷ xs) (suc i) b = ap (λ r. x ∷ r) (set-eq-blit xs i b)

pub blit-append : (buf cs bs : List ℕ) → blit (blit buf 0 cs) (length cs) bs ≡ blit buf 0 (cs ++ bs)
unfolding blit
blit-append [] cs bs = refl
blit-append (x ∷ xs) [] bs = refl
blit-append (x ∷ xs) (c ∷ cs) [] = rw append-nil
blit-append (x ∷ xs) (c ∷ cs) (b ∷ bs) = ap (λ r. c ∷ r) (blit-append xs cs (b ∷ bs))

take-blit-length :
    (buf bs : List ℕ) → length bs ≤ length buf → take (length bs) (blit buf 0 bs) ≡ bs
unfolding blit
take-blit-length [] [] h = refl
take-blit-length [] (b ∷ bs) h = absurd (omega arith)
take-blit-length (x ∷ xs) [] h = refl
take-blit-length (x ∷ xs) (b ∷ bs) h = ap (λ r. b ∷ r) (take-blit-length xs bs (omega arith))

drop-blit-length :
    (buf bs : List ℕ)
    → length bs ≤ length buf
    → drop (length bs) (blit buf 0 bs) ≡ drop (length bs) buf
unfolding blit
drop-blit-length [] [] h = refl
drop-blit-length [] (b ∷ bs) h = absurd (omega arith)
drop-blit-length (x ∷ xs) [] h = refl
drop-blit-length (x ∷ xs) (b ∷ bs) h = drop-blit-length xs bs (omega arith)

-- A copy that fits puts its bytes first and leaves what stands behind them.
pub take-blit :
    (buf bs : List ℕ) (n : ℕ) → n ≡ length bs → n ≤ length buf → take n (blit buf 0 bs) ≡ bs
take-blit buf bs n e h = rw e (take-blit-length buf bs (omega arith))

pub drop-blit :
    (buf bs : List ℕ) (n : ℕ) → n ≡ length bs → n ≤ length buf → drop n (blit buf 0 bs) ≡ drop n buf
drop-blit buf bs n e h = rw e (drop-blit-length buf bs (omega arith))

pub length-blit : (buf bs : List ℕ) (i : ℕ) → length (blit buf i bs) ≡ length buf
unfolding blit
length-blit [] bs i = refl
length-blit (x ∷ xs) [] i = refl
length-blit (x ∷ xs) (b ∷ bs) zero = ap suc (length-blit xs bs 0)
length-blit (x ∷ xs) (b ∷ bs) (suc i) = ap suc (length-blit xs (b ∷ bs) i)
