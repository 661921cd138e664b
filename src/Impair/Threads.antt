-- ===== src/Impair/Threads.antt =====
-- The main thread and the threads in flight together, in any order of their sends.
use rtp_audio_streamer.Base.{
  ℕ, ◌+◌, ◌-◌, ◌<◌, ◌≡◌, arith, Bool, true, List, [], ◌∷◌, ◌++◌, length, if◌then◌else◌, get_or, set,
  take, true, false,
}
use rtp_audio_streamer.Base.Int.{pos}
use rtp_audio_streamer.Impair.{Config, Random, InFlight, Proxy, new_proxy, handle}

-- The copies of the datagrams that pass a test: in a list of datagrams, and held by threads.
abbrev pub count : (List ℕ → Bool) → List (List ℕ) → ℕ
count is [] = 0
count is (d ∷ ds) = (if is d then 1 else 0) + count is ds

pub count-append :
    (is : List ℕ → Bool) (xs ys : List (List ℕ)) → count is (xs ++ ys) ≡ count is xs + count is ys
count-append is [] ys = omega arith
count-append is (x ∷ xs) ys = omega (arith, count-append is xs ys)

abbrev pub idle_thread : InFlight
idle_thread = record { payload = []; delay_ms = pos 0; send_count = 0 }

-- Thread `i` has one send behind it.
abbrev pub sent_one : List InFlight → ℕ → List InFlight
sent_one ts i =
    let t = get_or ts i idle_thread in set ts i (record t { send_count = t.send_count - 1 })

-- The proxy, what was received, in order, and whether no exception has ended the program.
pub record System (R : Type 0) : Type 0 where
  pub proxy : Proxy R
  pub arrived : List (List ℕ)
  pub running : Bool

module _ {Double R : Type 0} (G : Random Double R) (cfg : Config Double) where
  -- A pass of the loop in the main thread, or a `send_to` of a thread whose sleep is over; the end of
  -- a sleep is at any time. The constructor of a socket and `send_to` may throw: in the main thread
  -- after `copies` sends of the pass, and in a thread in flight. Either ends the program, with all its
  -- threads.
  pub data Step (s : System R) : System R → Type 0 where
    receive :
        (d : List ℕ)
        → s.running ≡ true
        → Step s (record {
          proxy = handle G cfg d s.proxy;
          arrived = s.arrived ++ (d ∷ []);
          running = true;
        })
    receive_throws :
        (d : List ℕ) (copies : ℕ)
        → s.running ≡ true
        → length s.proxy.sent + copies < length (handle G cfg d s.proxy).sent
        → Step s (record {
          proxy = record (handle G cfg d s.proxy) {
            sent = take (length s.proxy.sent + copies) (handle G cfg d s.proxy).sent;
          };
          arrived = s.arrived ++ (d ∷ []);
          running = false;
        })
    send :
        (i : ℕ)
        → s.running ≡ true
        → i < length s.proxy.in_flight
        → 0 < (get_or s.proxy.in_flight i idle_thread).send_count
        → Step s (record s {
          proxy = record (s.proxy) {
            in_flight = sent_one s.proxy.in_flight i;
            sent = s.proxy.sent ++ ((get_or s.proxy.in_flight i idle_thread).payload ∷ []);
          };
        })
    send_throws :
        (i : ℕ)
        → s.running ≡ true
        → i < length s.proxy.in_flight
        → 0 < (get_or s.proxy.in_flight i idle_thread).send_count
        → Step s (record s { running = false })

  pub data Reach (rng : R) : System R → Type 0 where
    start : Reach rng (record { proxy = new_proxy rng; arrived = []; running = true })
    next : {s t : System R} → Reach rng s → Step s t → Reach rng t
