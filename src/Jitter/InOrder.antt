-- ===== src/Jitter/InOrder.antt =====
-- A stream of packets that arrive in the order of their numbers, none too far ahead of the cursor.
-- `sound` gives the samples of each.
use rtp_audio_streamer.Base.{
  ℕ, ◌+◌, ◌-◌, ◌%◌, ◌^◌, ◌≤◌, ◌<◌, ◌≡◌, refl, sym, ap, ◌∙◌, arith, true, false, inl, inr, none,
  some, List, get_or, Bool-cases, ◌==◌, ◌&&◌, ==_iff,
}
use native.Mathlib.Decide.{ℕ_discrete}
use rtp_audio_streamer.Base.Int.{ℤ, pos_part, neg_part, max_ℤ}
use rtp_audio_streamer.Host.{Host}
use rtp_audio_streamer.Stats.{sequence_delta}
use rtp_audio_streamer.Jitter.{
  Arithmetic, JitterBuffer, Slot, Options, new_buffer, capacity, empty_slot,
}
use rtp_audio_streamer.Jitter.Push.{
  Arrival, push, filled, place, observe, begin, count_arrival, frame_index_of,
}
use rtp_audio_streamer.Jitter.Decode.{decode_slot}
use rtp_audio_streamer.Jitter.Pull.{
  is_due, finished, cursor_slot, has_packet, play, try_pull_due_frame, pull_not_due, pull_play,
}
use rtp_audio_streamer.Jitter.Inv.{offset, Inv, begin-Inv, few_played}
use rtp_audio_streamer.Jitter.Buffered.{waiting, buffered, IsAhead, push-buffered}
use rtp_audio_streamer.Jitter.Origin.{Origin, push-Origin, pull-Origin, new-Origin}
use rtp_audio_streamer.Jitter.Playback.{push-kept}
use rtp_audio_streamer.Jitter.Delivery.{at_cursor, kept_ahead, still_waiting}

module _ {Double : Type 0} (host : Host) (F : Arithmetic Double) (first : ℕ)
    (sound : ℕ → List ℤ) where
  -- A packet of a frame before `n`.
  abbrev pub IsPast : ℕ → Slot → Type 0
  IsPast n slot = offset first slot.sequence_number < n

  -- The packet that waits for a frame, with its samples.
  pub record Waits (jb : JitterBuffer Double) (i : ℕ) : Type 0 where
    pub slot : Slot
    pub there : buffered jb i ≡ some slot
    pub sounds : decode_slot host slot ≡ sound i

  -- After `n` packets.
  pub record InOrder (n : ℕ) (jb : JitterBuffer Double) : Type 0 where
    pub off : n ≡ 0 → jb.started ≡ false
    pub on : 0 < n → jb.started ≡ true
    pub base : 0 < n → jb.base_sequence ≡ first
    pub highest_pos : pos_part jb.highest_frame_index_seen ≡ n - 1
    pub highest_neg : neg_part jb.highest_frame_index_seen ≡ 1 - n
    pub played : jb.frames_played ≤ n
    pub reach : n ≤ jb.frames_played + capacity
    pub waits : (i : ℕ) → jb.frames_played ≤ i → i < n → Waits jb i
    pub no_loss : jb.counts.lost ≡ 0
    pub origin : Origin host F (IsPast n) jb

  due_played :
      (now n : ℕ) (jb : JitterBuffer Double)
      → Inv jb
      → InOrder n jb
      → is_due now jb ≡ true
      → jb.frames_played < n
  unfolding is_due finished
  due_played now n jb v o due = elim (ℕ_discrete n 0) [
    | yes none_yet ↦ absurd (cc (rw (o.off none_yet) at due))
    | no some_in ↦
        let started = o.on (omega (arith, some_in)) in
        ground (arith, o.highest_pos, o.highest_neg, started, few_played jb v, due)
  ]

  due_packet :
      (now n : ℕ) (jb : JitterBuffer Double)
      → Inv jb
      → InOrder n jb
      → is_due now jb ≡ true
      → (has_packet jb ≡ true) × (decode_slot host (cursor_slot jb) ≡ sound jb.frames_played)
  due_packet now n jb v o due =
      let w = o.waits jb.frames_played (omega arith) (due_played now n jb v o due) in
      elim (Bool-cases (has_packet jb)) [
        | inl there ↦
            let same : some (cursor_slot jb) ≡ some w.slot =
              (rw there at (sym (at_cursor host F jb))) ∙ w.there in
            let own : cursor_slot jb ≡ w.slot = cc in (there, ap (decode_slot host) own ∙ w.sounds)
        | inr gone ↦ absurd (cc (w.there, rw gone at (at_cursor host F jb)))
      ]

  -- A pull gives the frame at the cursor, if it is due, and loses none.
  pub pull-InOrder :
      (now n : ℕ) (jb : JitterBuffer Double)
      → Inv jb
      → InOrder n jb
      → InOrder n (try_pull_due_frame host F now jb).1
        × ((frame : List ℤ)
            → (try_pull_due_frame host F now jb).0 ≡ some frame
            → frame ≡ sound jb.frames_played)
  unfolding play
  pull-InOrder now n jb v o = elim (Bool-cases (is_due now jb)) [
    | inr wait ↦ rw (pull_not_due host F now jb wait) (o, λ frame e. absurd cc)
    | inl due ↦
        let (there, sounds) = due_packet now n jb v o due in
        let taken = pull_play host F now jb due there in
        let later = due_played now n jb v o due in
        rw taken (
          record {
            off = o.off;
            on = o.on;
            base = o.base;
            highest_pos = o.highest_pos;
            highest_neg = o.highest_neg;
            played = omega (arith, later);
            reach = omega (arith, o.reach, few_played jb v);
            waits = λ i after below.
                let w = o.waits i (omega (arith, after, few_played jb v)) below in
                record {
                  slot = w.slot;
                  there =
                      (rw taken at (
                        kept_ahead host F now jb i v (omega (arith, after, few_played jb v))
                          (omega (arith, o.reach))))
                      ∙ w.there;
                  sounds = w.sounds;
                };
            no_loss = o.no_loss;
            origin = rw taken at (pull-Origin host F (IsPast n) now jb v o.origin);
          },
          λ frame e. let same : (play host now jb).0 ≡ frame = cc in sym same ∙ sounds,
        )
  ]

  -- The first packet makes a started buffer of a new one; what it does then, it does as one of those
  -- that follow.
  push_begun : (a : Arrival) (jb : JitterBuffer Double) → push F a jb ≡ push F a (begin a jb)
  unfolding push begin count_arrival observe place
  push_begun a jb = elim (Bool-cases jb.started) [ inl on ↦ rw on refl | inr off ↦ rw off refl ]

  begin-InOrder :
      (a : Arrival) (n : ℕ) (jb : JitterBuffer Double)
      → a.sequence_number ≡ (first + n) % 2 ^ 16
      → first < 2 ^ 16
      → InOrder n jb
      → ((begin a jb).base_sequence ≡ first)
        × ((i : ℕ) → jb.frames_played ≤ i → i < n → Waits (begin a jb) i)
  unfolding begin
  begin-InOrder a n jb e small o = elim (ℕ_discrete n 0) [
    | yes none_yet ↦ (
      rw (o.off none_yet) (omega (arith, e, none_yet)),
      λ i after below. absurd (omega (arith, none_yet)),
    )
    | no some_in ↦
        let some_there : 0 < n = omega (arith, some_in) in
        (
          rw (o.on some_there) (o.base some_there),
          λ i after below.
              let w = o.waits i after below in
              record { slot = w.slot; there = rw (o.on some_there) w.there; sounds = w.sounds },
        )
  ]

  -- A frame that is to come has no packet.
  frame_free :
      (n : ℕ) (jb : JitterBuffer Double)
      → first < 2 ^ 16
      → n < 2 ^ 15
      → jb.base_sequence ≡ first
      → Origin host F (IsPast n) jb
      → buffered jb n ≡ none
  unfolding waiting
  frame_free n jb small few base o =
      let slot = get_or jb.slots ((first + n) % 2 ^ 16 % capacity) empty_slot in
      elim (Bool-cases (slot.occupied && slot.sequence_number == (first + n) % 2 ^ 16)) [
        | inr free ↦ rw (base, free) refl
        | inl full ↦
            let past = o.waiting ((first + n) % 2 ^ 16 % capacity) (omega arith) (ground arith) in
            let own : slot.sequence_number ≡ (first + n) % 2 ^ 16 = ground arith in
            absurd (omega (arith, past, own, small, few))
      ]

  weaken-Origin :
      (n : ℕ) (jb : JitterBuffer Double)
      → Origin host F (IsPast n) jb
      → Origin host F (IsPast (n + 1)) jb
  weaken-Origin n jb o = record {
    waiting = λ i below full. omega (arith, o.waiting i below full);
    last = λ e.
        let r = o.last e in
        record { packet = r.packet; good = omega (arith, r.good); decoded = r.decoded };
  }

  place_highest :
      (a : Arrival) (jb : JitterBuffer Double)
      → (place a jb).highest_frame_index_seen ≡ jb.highest_frame_index_seen
  unfolding place
  place_highest a jb = ground arith

  push_counts :
      (a : Arrival) (jb : JitterBuffer Double)
      → ((push F a jb).counts.lost ≡ jb.counts.lost)
        × ((push F a jb).highest_frame_index_seen
            ≡ max_ℤ jb.highest_frame_index_seen
                (sequence_delta a.sequence_number (begin a jb).base_sequence))
  unfolding push begin count_arrival observe place frame_index_of
  push_counts a jb = (ground arith, place_highest a (observe a (begin a (count_arrival F a jb))))

  new_highest :
      (highest : ℤ) (n base sequence_number : ℕ)
      → pos_part highest ≡ n - 1
      → neg_part highest ≡ 1 - n
      → base < 2 ^ 16
      → n < 2 ^ 15
      → sequence_number ≡ (base + n) % 2 ^ 16
      → (pos_part (max_ℤ highest (sequence_delta sequence_number base)) ≡ n)
        × (neg_part (max_ℤ highest (sequence_delta sequence_number base)) ≡ 0)
  new_highest highest n base q p m small few e = ground (arith, p, m, small, few, e)

  keep-Waits :
      (a : Arrival) (i : ℕ) (jb : JitterBuffer Double)
      → a.sequence_number < 2 ^ 16
      → jb.started ≡ true
      → Inv jb
      → IsAhead jb i
      → Waits jb i
      → Waits (push F a jb) i
  keep-Waits a i jb fits on v ahead w = record {
    slot = w.slot;
    there = still_waiting host F a jb i w.slot fits on v ahead w.there;
    sounds = w.sounds;
  }

  -- One packet more.
  pub push-InOrder :
      (a : Arrival) (n : ℕ) (jb : JitterBuffer Double)
      → a.sequence_number ≡ (first + n) % 2 ^ 16
      → first < 2 ^ 16
      → n < 2 ^ 15
      → n < jb.frames_played + capacity
      → decode_slot host (filled a) ≡ sound n
      → Inv jb
      → InOrder n jb
      → InOrder (n + 1) (push F a jb)
  unfolding begin
  push-InOrder a n jb e small few near sounds v o =
      let fits : a.sequence_number < 2 ^ 16 = omega (arith, e) in
      let begun = begin a jb in
      let (base, waits) = begin-InOrder a n jb e small o in
      let v' : Inv begun = begin-Inv a jb fits v in
      let kept = push-kept host F a jb in
      let kept' = push-kept host F a begun in
      let counts = push_counts a jb in
      let same = push_begun a jb in
      let base' : (push F a jb).base_sequence ≡ first = rw same (kept'.2 refl ∙ base) in
      let index : offset first a.sequence_number ≡ n = omega (arith, e, small, few) in
      let high =
        new_highest jb.highest_frame_index_seen n first a.sequence_number o.highest_pos
          o.highest_neg small few e in
      let rest : Origin host F (IsPast n) begun = record {
        waiting = o.origin.waiting;
        last = o.origin.last;
      } in
      let free : waiting begun.slots first n ≡ none =
        rw base at (frame_free n begun small few base rest) in
      record {
        off = λ none_yet. absurd (omega (arith, none_yet));
        on = λ some_in. kept.1;
        base = λ some_in. base';
        highest_pos = rw (counts.1, base) (high.0 ∙ omega arith);
        highest_neg = rw (counts.1, base) (high.1 ∙ omega arith);
        played = omega (arith, kept.0, o.played);
        reach = omega (arith, kept.0, near);
        waits = λ i after below. elim (ℕ_discrete i n) [
          | yes here ↦ record {
            slot = filled a;
            there =
                rw (same, here)
                  (push-buffered F a begun n fits refl v' (omega (arith, o.played), near, few)
                    ∙ rw (base, (==_iff (offset first a.sequence_number) n).1 index, free) refl);
            sounds = rw here sounds;
          }
          | no other ↦ rw same (
              keep-Waits a i begun fits refl v'
                (
                  omega (arith, after, kept.0),
                  omega (arith, below, near),
                  omega (arith, below, few),
                )
                (waits i (omega (arith, after, kept.0)) (omega (arith, below, other))))
        ];
        no_loss = counts.0 ∙ o.no_loss;
        origin =
            push-Origin host F (IsPast (n + 1)) a jb v (omega (arith, index))
              (weaken-Origin n jb o.origin);
      }

  pub new-InOrder : (options : Options) → InOrder 0 (new_buffer F options)
  unfolding waiting
  new-InOrder options = record {
    off = λ e. refl;
    on = λ some_in. absurd (omega arith);
    base = λ some_in. absurd (omega arith);
    highest_pos = omega arith;
    highest_neg = omega arith;
    played = omega arith;
    reach = omega arith;
    waits = λ i after below. absurd (omega arith);
    no_loss = refl;
    origin = new-Origin host F (IsPast 0) options;
  }
