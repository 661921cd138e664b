-- ===== src/Ring/Inv.antt =====
-- What holds between the two threads, at the start and after every step.
use mathlib.Core.Path.{subst}
use native.Mathlib.Decide.{dec_lt}
use rtp_audio_streamer.Base.{
  ℕ, suc, ◌+◌, ◌%◌, ◌≤◌, ◌<◌, ◌≡◌, ◌≢◌, refl, sym, ap, ap₂, ◌∙◌, arith, List, [], ◌∷◌, ◌++◌, length,
  get_or, set, take, length-append, length-set, get_or-set_self, get_or-set_ne, length-replicate,
  get_or-append_left, get_or-append_end, take-append_left, take_snoc,
}
use rtp_audio_streamer.Ring.{IsCapacity, next_index}
use rtp_audio_streamer.Ring.Index.{next_index-mod, mod_inj, mod_turn}
use rtp_audio_streamer.Ring.Thread.{System, Step, Producer, Consumer, init, Reach}

module _ {T : Type 0} (blank : T) (capacity : ℕ) where
  -- What the local variables of a thread say about the queue, with `p` items pushed and `c` popped.
  abbrev pub ProducerOk : List T → ℕ → ℕ → Producer T → Type 0
  ProducerOk buffer p seen Producer.idle = Unit
  ProducerOk buffer p seen (Producer.check item head) = head ≡ p % capacity
  ProducerOk buffer p seen (Producer.write item head) =
      (head ≡ p % capacity) × (p + 1 < seen + capacity)
  ProducerOk buffer p seen (Producer.publish item head) =
      (head ≡ p % capacity) × (p + 1 < seen + capacity) × (get_or buffer head blank ≡ item)

  abbrev pub ConsumerOk : List T → ℕ → ℕ → Consumer T → Type 0
  ConsumerOk sent c seen Consumer.idle = Unit
  ConsumerOk sent c seen (Consumer.check tail) = tail ≡ c % capacity
  ConsumerOk sent c seen (Consumer.read tail) = (tail ≡ c % capacity) × (c < seen)
  ConsumerOk sent c seen (Consumer.release tail out) =
      (tail ≡ c % capacity) × (c < seen) × (out ≡ get_or sent c blank)

  pub record Inv (s : System T) : Type 0 where
    pub size : length s.ring.buffer ≡ capacity
    pub head_count : s.ring.head ≡ length s.sent % capacity
    pub tail_count : s.ring.tail ≡ length s.received % capacity
    pub tail_seen_le : s.tail_seen ≤ length s.received
    pub head_seen_le : s.head_seen ≤ length s.sent
    pub read_behind : length s.received ≤ s.head_seen
    pub room : length s.sent < s.tail_seen + capacity
    pub in_order : s.received ≡ take (length s.received) s.sent
    pub stored :
        (j : ℕ)
        → length s.received ≤ j
        → j < length s.sent
        → get_or s.ring.buffer (j % capacity) blank ≡ get_or s.sent j blank
    pub producer_ok : ProducerOk s.ring.buffer (length s.sent) s.tail_seen s.producer
    pub consumer_ok : ConsumerOk s.sent (length s.received) s.head_seen s.consumer

  module _ (cap : IsCapacity capacity) where
    pub Inv-init : Inv (init blank capacity)
    Inv-init = record {
      size = length-replicate capacity blank;
      head_count = omega (arith, cap.at_least_two);
      tail_count = omega (arith, cap.at_least_two);
      tail_seen_le = omega arith;
      head_seen_le = omega arith;
      read_behind = omega arith;
      room = omega (arith, cap.at_least_two);
      in_order = refl;
      stored = λ j p q. absurd (omega arith);
      producer_ok = tt;
      consumer_ok = tt;
    }

    ConsumerOk-append :
        (sent : List T) (item : T) (c seen : ℕ) (pc : Consumer T)
        → seen ≤ length sent
        → ConsumerOk sent c seen pc
        → ConsumerOk (sent ++ (item ∷ [])) c seen pc
    ConsumerOk-append sent item c seen (Consumer.release tail out) h (a, b, e) =
        (a, b, e ∙ sym (get_or-append_left sent (item ∷ []) c blank (omega arith)))
    ConsumerOk-append sent item c seen Consumer.idle h ok = ok
    ConsumerOk-append sent item c seen (Consumer.check tail) h ok = ok
    ConsumerOk-append sent item c seen (Consumer.read tail) h ok = ok

    -- The slot that is written holds no item that is still to be read.
    write_step :
        {s : System T} {item : T} {head : ℕ}
        → s.producer ≡ Producer.write item head
        → Inv s
        → Inv (record s {
          producer = Producer.publish item head;
          ring = record (s.ring) { buffer = set s.ring.buffer head item };
        })
    write_step {s} {item} {head} e v = record {
      size = length-set buffer head item ∙ v.size;
      head_count = v.head_count;
      tail_count = v.tail_count;
      tail_seen_le = v.tail_seen_le;
      head_seen_le = v.head_seen_le;
      read_behind = v.read_behind;
      room = v.room;
      in_order = v.in_order;
      stored = λ j p q.
          get_or-set_ne buffer head (j % capacity) item blank (apart j p q) ∙ v.stored j p q;
      producer_ok = (
        ok.0,
        ok.1,
        get_or-set_self buffer head item blank (omega (arith, ok.0, cap.at_least_two)),
      );
      consumer_ok = v.consumer_ok;
    }
      where
        open s.ring use {buffer}

        ok : ProducerOk buffer (length s.sent) s.tail_seen (Producer.write item head)
        ok = subst (ProducerOk buffer (length s.sent) s.tail_seen) e v.producer_ok

        apart : (j : ℕ) → length s.received ≤ j → j < length s.sent → head ≢ j % capacity
        apart j p q f =
            omega
              (arith, mod_inj capacity j (length s.sent) (omega arith) (omega arith) (sym f ∙ ok.0))

    publish_step :
        {s : System T} {item : T} {head : ℕ}
        → s.producer ≡ Producer.publish item head
        → Inv s
        → Inv (record s {
          producer = Producer.idle;
          ring = record (s.ring) { head = next_index capacity head };
          sent = s.sent ++ (item ∷ []);
        })
    publish_step {s} {item} {head} e v = record {
      size = v.size;
      head_count = rw (ok.0, next_index-mod (length s.sent) cap, length-append s.sent (item ∷ []));
      tail_count = v.tail_count;
      tail_seen_le = v.tail_seen_le;
      head_seen_le = omega (arith, length-append s.sent (item ∷ []));
      read_behind = v.read_behind;
      room = omega (arith, ok.1, length-append s.sent (item ∷ []));
      in_order =
          v.in_order ∙ sym (take-append_left (length s.received) s.sent (item ∷ []) (omega arith));
      stored = λ j p q. elim (dec_lt j (length s.sent)) [
        | yes old ↦ v.stored j p old ∙ sym (get_or-append_left s.sent (item ∷ []) j blank old)
        | no new ↦
            let last : j ≡ length s.sent = omega (arith, length-append s.sent (item ∷ [])) in
            rw (get_or-append_end s.sent item j blank last, last, ← ok.0) ok.2
      ];
      producer_ok = tt;
      consumer_ok =
          ConsumerOk-append s.sent item (length s.received) s.head_seen s.consumer v.head_seen_le
            v.consumer_ok;
    }
      where
        open s.ring use {buffer}

        ok : ProducerOk buffer (length s.sent) s.tail_seen (Producer.publish item head)
        ok = subst (ProducerOk buffer (length s.sent) s.tail_seen) e v.producer_ok

    release_step :
        {s : System T} {tail : ℕ} {out : T}
        → s.consumer ≡ Consumer.release tail out
        → Inv s
        → Inv (record s {
          consumer = Consumer.idle;
          ring = record (s.ring) { tail = next_index capacity tail };
          received = s.received ++ (out ∷ []);
        })
    release_step {s} {tail} {out} e v = record {
      size = v.size;
      head_count = v.head_count;
      tail_count =
          rw (ok.0, next_index-mod (length s.received) cap, length-append s.received (out ∷ []));
      tail_seen_le = omega (arith, length-append s.received (out ∷ []));
      head_seen_le = v.head_seen_le;
      read_behind = omega (arith, ok.1, length-append s.received (out ∷ []));
      room = v.room;
      in_order = longer;
      stored = λ j p q. v.stored j (omega (arith, length-append s.received (out ∷ []))) q;
      producer_ok = v.producer_ok;
      consumer_ok = tt;
    }
      where
        ok : ConsumerOk s.sent (length s.received) s.head_seen (Consumer.release tail out)
        ok = subst (ConsumerOk s.sent (length s.received) s.head_seen) e v.consumer_ok

        longer : s.received ++ (out ∷ []) ≡ take (length (s.received ++ (out ∷ []))) s.sent
        longer =
            let count : suc (length s.received) ≡ length (s.received ++ (out ∷ [])) =
              omega (arith, length-append s.received (out ∷ [])) in
            ap₂ ◌++◌ v.in_order (ap (λ x. x ∷ []) ok.2)
            ∙ sym (take_snoc (length s.received) s.sent blank (omega (arith, ok.1)))
            ∙ ap (λ n. take n s.sent) count

    pub Step-Inv : {s t : System T} → Step blank capacity s t → Inv s → Inv t
    Step-Inv {s} (Step.push_call item e) v = ground arith
    Step-Inv {s} (Step.push_full {item} {head} seen e a b f) v = ground arith
    Step-Inv {s} (Step.push_room {item} {head} seen e a b f) v =
        ground
          (arith, mod_turn capacity (length s.sent + 1) seen, next_index-mod (length s.sent) cap)
    Step-Inv {s} (Step.push_write {item} {head} e) v = write_step e v
    Step-Inv {s} (Step.push_publish {item} {head} e) v = publish_step e v
    Step-Inv {s} (Step.pop_call e) v = ground arith
    Step-Inv {s} (Step.pop_empty {tail} seen e a b f) v = ground arith
    Step-Inv {s} (Step.pop_item {tail} seen e a b f) v = ground (arith, v.in_order)
    Step-Inv {s} (Step.pop_read {tail} e) v = ground (arith, v.stored (length s.received))
    Step-Inv {s} (Step.pop_release {tail} {out} e) v = release_step e v

    pub Reach-Inv : {s : System T} → Reach blank capacity s → Inv s
    Reach-Inv Reach.start = Inv-init
    Reach-Inv (Reach.next r st) = Step-Inv st (Reach-Inv r)
