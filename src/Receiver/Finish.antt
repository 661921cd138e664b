-- ===== src/Receiver/Finish.antt =====
-- Once the stream is marked as ended, one pass of the playout thread finishes it.
use rtp_audio_streamer.Base.{
  ℕ, zero, suc, ◌+◌, ◌-◌, ◌^◌, ◌<◌, ◌≡◌, refl, ap, ◌∙◌, arith, true, false, Bool-cases, inl, inr,
  some,
}
use rtp_audio_streamer.Base.Int.{ℤ, pos_part, neg_part}
use rtp_audio_streamer.Host.{Host}
use rtp_audio_streamer.Jitter.{Arithmetic, JitterBuffer}
use rtp_audio_streamer.Jitter.Decode.{conceal}
use rtp_audio_streamer.Jitter.Pull.{
  is_due, finished, has_packet, play, lose, try_pull_due_frame, pull_not_due,
}
use rtp_audio_streamer.Jitter.Inv.{Inv, few_played}
use rtp_audio_streamer.Jitter.Keep.{pull-Inv}
use rtp_audio_streamer.Jitter.Playback.{pull-kept}
use rtp_audio_streamer.Receiver.Playout.{Playout, hand_over, drain_pass, drain_due, given}

-- One past the highest frame, which is -1 at first.
abbrev pub at_end : ℤ → ℕ
at_end highest = pos_part highest + 1 - neg_part highest

module _ {Double : Type 0} (host : Host) (F : Arithmetic Double) where
  -- What a pull leaves alone, besides the base and the start.
  pub pull-end :
      (now : ℕ) (jb : JitterBuffer Double)
      → ((try_pull_due_frame host F now jb).1.stream_ended ≡ jb.stream_ended)
        × ((try_pull_due_frame host F now jb).1.highest_frame_index_seen
            ≡ jb.highest_frame_index_seen)
  unfolding try_pull_due_frame play lose conceal
  pull-end now jb = elim (Bool-cases (is_due now jb)) [
    | inr wait ↦ rw wait (refl, refl)
    | inl due ↦ elim (Bool-cases (has_packet jb)) [
      | inl there ↦ rw (due, there) (refl, refl)
      | inr gone ↦ rw (due, gone) (refl, refl)
    ]
  ]

  pub ended_wait :
      (now : ℕ) (jb : JitterBuffer Double)
      → jb.stream_ended ≡ true
      → is_due now jb ≡ false
      → finished jb ≡ true
  unfolding is_due finished
  ended_wait now jb over wait = ground arith

  finished_played :
      (jb : JitterBuffer Double)
      → Inv jb
      → jb.started ≡ true
      → finished jb ≡ true
      → jb.frames_played ≡ at_end jb.highest_frame_index_seen
  unfolding finished
  finished_played jb v on over = ground arith

  -- If the stream has been marked as ended, the loop of the playout thread, given fuel for one pass
  -- more than the cursor is short of 32768, ends with the stream finished: every frame up to the
  -- highest one seen has been given out, whatever the time and however full the ring.
  pub drain_due-finished :
      (fuel now : ℕ) (p : Playout Double)
      → Inv p.jbuf
      → p.jbuf.started ≡ true
      → p.jbuf.stream_ended ≡ true
      → 2 ^ 15 < fuel + p.jbuf.frames_played
      → (q : Playout Double) × (drain_due host F fuel now p ≡ some q)
        × (finished q.jbuf ≡ true)
        × (q.jbuf.frames_played ≡ at_end p.jbuf.highest_frame_index_seen)
  unfolding drain_due drain_pass hand_over
  drain_due-finished zero now p v on over enough = absurd (omega (arith, few_played p.jbuf v))
  drain_due-finished (suc fuel) now p v on over enough =
      let jbuf = (try_pull_due_frame host F now p.jbuf).1 in
      let kept = pull-Inv host F now p.jbuf v in
      let moved = pull-kept host F now p.jbuf v in
      let same = pull-end now p.jbuf in
      elim (Bool-cases (is_due now p.jbuf)) [
        | inr wait ↦
            let done = ended_wait now p.jbuf over wait in
            (p, rw (pull_not_due host F now p.jbuf wait), done, finished_played p.jbuf v on done)
        | inl due ↦
            let g = given host F now p.jbuf due in
            let one : jbuf.frames_played ≡ p.jbuf.frames_played + 1 = rw due at moved.0 in
            let rest =
              drain_due-finished fuel now (hand_over host F g.0 jbuf p) kept (moved.1 ∙ on)
                (same.0 ∙ over) (omega (arith, one)) in
            elim (Bool-cases (finished jbuf)) [
              | inl done ↦ (
                hand_over host F g.0 jbuf p,
                rw (g.1, done),
                done,
                finished_played jbuf kept (moved.1 ∙ on) done ∙ ap at_end same.1,
              )
              | inr more ↦ (rest.0, rw (g.1, more) (rest.1), rest.2, rest.3 ∙ ap at_end same.1)
            ]
      ]
