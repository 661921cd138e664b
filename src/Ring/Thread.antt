-- ===== src/Ring/Thread.antt =====
-- `push` on the producer thread and `pop` on the consumer thread, a shared access at a time, in any
-- interleaving. An acquire-load of the other thread's index may return any value that the index
-- has had since the value last seen; the release-store that wrote it has made the slots visible.
use rtp_audio_streamer.Base.{ℕ, ◌%◌, ◌≤◌, ◌≡◌, ◌≢◌, List, [], ◌∷◌, ◌++◌, length, get_or, set}
use rtp_audio_streamer.Ring.{SpscRingBuffer, next_index, empty_ring}

-- Where the producer stands, with the local variables that are live there.
pub data Producer (T : Type 0) : Type 0 where
  idle : Producer T
  check : (item : T) (head : ℕ) → Producer T  -- before the acquire-load of `tail_`
  write : (item : T) (head : ℕ) → Producer T  -- before `buffer_[head] = item`
  publish : (item : T) (head : ℕ) → Producer T  -- before the release-store of `head_`

pub data Consumer (T : Type 0) : Type 0 where
  idle : Consumer T
  check : (tail : ℕ) → Consumer T  -- before the acquire-load of `head_`
  read : (tail : ℕ) → Consumer T  -- before `out = buffer_[tail]`
  release : (tail : ℕ) (out : T) → Consumer T  -- before the release-store of `tail_`

-- `sent` and `received` are the items whose push or pop has stored its index, in order;
-- `tail_seen` and `head_seen` count the stores of the other thread that have been observed.
pub record System (T : Type 0) : Type 0 where
  pub ring : SpscRingBuffer T
  pub producer : Producer T
  pub consumer : Consumer T
  pub sent : List T
  pub received : List T
  pub tail_seen : ℕ
  pub head_seen : ℕ

module _ {T : Type 0} (blank : T) (capacity : ℕ) where
  pub data Step (s : System T) : System T → Type 0 where
    push_call :
        (item : T)
        → s.producer ≡ Producer.idle
        → Step s (record s { producer = Producer.check item s.ring.head })
    push_full :
        {item : T} {head : ℕ} (seen : ℕ)
        → s.producer ≡ Producer.check item head
        → s.tail_seen ≤ seen
        → seen ≤ length s.received
        → next_index capacity head ≡ seen % capacity
        → Step s (record s { producer = Producer.idle; tail_seen = seen })
    push_room :
        {item : T} {head : ℕ} (seen : ℕ)
        → s.producer ≡ Producer.check item head
        → s.tail_seen ≤ seen
        → seen ≤ length s.received
        → next_index capacity head ≢ seen % capacity
        → Step s (record s { producer = Producer.write item head; tail_seen = seen })
    push_write :
        {item : T} {head : ℕ}
        → s.producer ≡ Producer.write item head
        → Step s (record s {
          producer = Producer.publish item head;
          ring = record (s.ring) { buffer = set s.ring.buffer head item };
        })
    push_publish :
        {item : T} {head : ℕ}
        → s.producer ≡ Producer.publish item head
        → Step s (record s {
          producer = Producer.idle;
          ring = record (s.ring) { head = next_index capacity head };
          sent = s.sent ++ (item ∷ []);
        })
    pop_call :
        s.consumer ≡ Consumer.idle → Step s (record s { consumer = Consumer.check s.ring.tail })
    pop_empty :
        {tail : ℕ} (seen : ℕ)
        → s.consumer ≡ Consumer.check tail
        → s.head_seen ≤ seen
        → seen ≤ length s.sent
        → tail ≡ seen % capacity
        → Step s (record s { consumer = Consumer.idle; head_seen = seen })
    pop_item :
        {tail : ℕ} (seen : ℕ)
        → s.consumer ≡ Consumer.check tail
        → s.head_seen ≤ seen
        → seen ≤ length s.sent
        → tail ≢ seen % capacity
        → Step s (record s { consumer = Consumer.read tail; head_seen = seen })
    pop_read :
        {tail : ℕ}
        → s.consumer ≡ Consumer.read tail
        → Step s (record s { consumer = Consumer.release tail (get_or s.ring.buffer tail blank) })
    pop_release :
        {tail : ℕ} {out : T}
        → s.consumer ≡ Consumer.release tail out
        → Step s (record s {
          consumer = Consumer.idle;
          ring = record (s.ring) { tail = next_index capacity tail };
          received = s.received ++ (out ∷ []);
        })

  abbrev pub init : System T
  init = record {
    ring = empty_ring blank capacity;
    producer = Producer.idle;
    consumer = Consumer.idle;
    sent = [];
    received = [];
    tail_seen = 0;
    head_seen = 0;
  }

  pub data Reach : System T → Type 0 where
    start : Reach init
    next : {s t : System T} → Reach s → Step s t → Reach t
