-- ===== src/Rudp/Tests.antt =====
-- Runs of the transport on small inputs.
use loot_of_legends_public.Base.{
  false, ◌<◌, ◌≤◌, ℕ, Option, none, ◌⊎◌, ◌≡◌, refl, true, ◌&&◌, ◌||◌, ◌==◌, List, [], ◌∷◌, some,
  arith, map, length,
}
use loot_of_legends_public.Rudp.Sequence.{is_sequence_newer}
use loot_of_legends_public.Rudp.Peer.{
  AckState, observe, observe_all, is_acknowledged, initial, advance, fill,
}
use loot_of_legends_public.Rudp.Peer.Window.{IsValid, in_window, observe-is_acknowledged}
use loot_of_legends_public.Rudp.Peer.History.{
  acknowledged_arrived, observe_duplicate, contains, is_duplicate,
}
use loot_of_legends_public.Rudp.Rtt
use loot_of_legends_public.Rudp.Rtt.Bounds.{IsWithin, observe_all-IsWithin}
use loot_of_legends_public.Base.Maps.{find, insert_in_order, erase}
use loot_of_legends_public.Rudp.Header
use loot_of_legends_public.Rudp.Header.Roundtrip.{IsHeader, decoded, decode-encode}
use loot_of_legends_public.Rudp.Bindings
use loot_of_legends_public.Rudp.Bindings.Bind
use loot_of_legends_public.Rudp.Bindings.Timeouts
use loot_of_legends_public.Rudp.Bindings.Accepted
use loot_of_legends_public.Rudp.Bindings.History
use loot_of_legends_public.Rudp.Bindings.Invariant.{AllSound}
use loot_of_legends_public.Rudp.Queue
use loot_of_legends_public.Rudp.Queue.{
  Entry, ReliableQueue, application, control, empty_queue, enqueue, poll, transmission_of, transmit,
  is_due, is_expired,
}
use loot_of_legends_public.Rudp.Queue.Acknowledge.{
  acknowledge, remove_acknowledged, remove_loop, finish, select,
}
use loot_of_legends_public.Rudp.Queue.Run.{Call, enqueues, polls, records, run, run_empty-IsValid}
use loot_of_legends_public.Rudp.Queue.Invariant
use loot_of_legends_public.Rudp.Queue.Poll.{Polls, poll_effects, poll_again-IsQuiet, IsQuiet}
use loot_of_legends_public.Rudp.Queue.Selection.{
  Removes, remove_acknowledged_effects, acknowledge_sample, Samples, Any,
}

-- 7 is the newest, and 5 came before it.
abbrev window : AckState
window = record { ack = 7; ack_bits = 2 }

window-IsValid : IsValid window
window-IsValid = record {
  ack_fits = omega arith;
  bits_fit = omega arith;
  starts_empty = λ e. absurd (omega arith);
}

observe-is_acknowledged_example :
    is_acknowledged 5 (observe window 9).0
    ≡ (in_window (observe window 9).0.ack 5 && (5 == 9 || is_acknowledged 5 window))
observe-is_acknowledged_example =
    observe-is_acknowledged window 9 5 window-IsValid (omega arith) (omega arith) (omega arith)
      (omega arith)

acknowledged_after : is_acknowledged 3 (observe_all initial (3 ∷ 5 ∷ 4 ∷ [])) ≡ true
unfolding is_acknowledged observe_all observe initial is_sequence_newer advance fill
acknowledged_after = refl

acknowledged_arrived_example : contains 3 (3 ∷ 5 ∷ 4 ∷ []) ≡ true
acknowledged_arrived_example =
    acknowledged_arrived (3 ∷ 5 ∷ 4 ∷ []) 3 (omega arith) (omega arith) acknowledged_after

observe_duplicate_example : is_duplicate (observe window 5).1 ≡ is_acknowledged 5 window
observe_duplicate_example = observe_duplicate window 5 window-IsValid (omega arith)

observe_all-IsWithin_example :
    IsWithin 1000 90000 (Rtt.observe_all Rtt.initial (1000 ∷ 90000 ∷ 40000 ∷ []))
observe_all-IsWithin_example =
    observe_all-IsWithin 1000 90000 (1000 ∷ 90000 ∷ 40000 ∷ []) (omega arith)

abbrev calls : List Call
calls =
    enqueues 1 (10 ∷ 20 ∷ []) application 0
    ∷ enqueues 2 (30 ∷ []) control 0
    ∷ polls 0 200 1
    ∷ records 1 1 5 true
    ∷ []

run_empty-IsValid_example : Invariant.IsValid (run empty_queue calls)
run_empty-IsValid_example = run_empty-IsValid calls

abbrev entry : Entry
entry = record {
  sequence = 1;
  lane = application;
  datagram = 10 ∷ 20 ∷ [];
  queued_at = 0;
  next_transmission_at = 200000000;
  last_transmission_at = 0;
  first_successful_send = some 5;
  last_successful_send = some 5;
  retry_delay = 400;
  transmissions = 1;
  recorded_attempt = 1;
  revision = 1;
}

abbrev queue : ReliableQueue
queue = record { entries = entry ∷ []; application_entries = 1; bytes = 2 }

queue_entry : Invariant.IsEntry entry
queue_entry = record {
  numbered = omega arith;
  nonempty = omega arith;
  small = omega arith;
  attempts = omega arith;
  delay_low = omega arith;
  delay_high = omega arith;
  spaced = λ a b. omega arith;
}

queue-IsValid : Invariant.IsValid queue
unfolding Queue.contains
queue-IsValid = record {
  each = (queue_entry, tt);
  distinct = (refl, tt);
  lanes_counted = refl;
  bytes_counted = refl;
  entries_bounded = omega arith;
  lanes_bounded = omega arith;
  bytes_bounded = omega arith;
}

poll_effects_example :
    let (q', r) = poll queue 300000000 200 1 in Polls 300000000 200 1 queue.entries q'.entries r
poll_effects_example = poll_effects 300000000 200 1 queue

poll_again-IsQuiet_example : IsQuiet (poll (poll queue 300000000 200 1).0 300000000 250 2).1
poll_again-IsQuiet_example = poll_again-IsQuiet 300000000 200 1 250 2 queue queue-IsValid

abbrev first_arrived : AckState
first_arrived = record { ack = 1; ack_bits = 0 }

remove_acknowledged_effects_example :
    let (q', r) = remove_acknowledged queue first_arrived (some 100000) in
    Removes first_arrived queue.entries q'.entries r.removed
remove_acknowledged_effects_example = remove_acknowledged_effects first_arrived (some 100000) queue

sampled : (acknowledge queue (record { ack = 1; ack_bits = 0 }) 50005).1.sample ≡ some 50
unfolding remove_acknowledged remove_loop finish select is_acknowledged
sampled = refl

acknowledge_sample_example : Any (Samples (record { ack = 1; ack_bits = 0 }) 50005 50) queue.entries
acknowledge_sample_example =
    acknowledge_sample (record { ack = 1; ack_bits = 0 }) 50005 50 queue sampled

-- A hello of session 7, with a capability that is pending for it.
abbrev peer_endpoint : Bindings.RudpEndpoint
peer_endpoint = record { address = 1; port = 4000; scope_id = 0 }

abbrev hello : Header.RudpHeader
hello = record {
  flag = Header.reliable;
  message_id = 22;
  ack = 0;
  ack_bits = 0;
  session_id = 7;
  session_generation = 2;
  transport_epoch = 0;
  sequence = 5;
}

abbrev pending_registry : Bindings.RudpBindingRegistry
pending_registry = record {
  bindings = [];
  recovery = record { entered = 0; escalated = 0; reset = 0; stale_timeouts = 0 };
  pending_capabilities =
      (7, record { session_generation = 2; capability = 9 ∷ 8 ∷ []; expires_at = 100 }) ∷ [];
}

abbrev draws : ℕ → Option ℕ
draws attempt = some attempt

abbrev one_draw : ℕ → Option ℕ
one_draw attempt = some 77

one_draw-AreWords : History.AreWords one_draw
one_draw-AreWords i epoch e = ground arith

abbrev registry_calls : List History.Call
registry_calls =
    History.requests (λ _. some (9 ∷ 8 ∷ [])) 7 2 0
    ∷ History.binds one_draw hello (9 ∷ 8 ∷ []) peer_endpoint 50
    ∷ History.samples 7 2 77 peer_endpoint 30000 none
    ∷ History.times_out 7 2 77 peer_endpoint 0 300
    ∷ History.sends 7
    ∷ []

-- The calls bind the session and raise its floor.
registry_floor :
    map (λ e. e.1.recovery_floor) (History.run Bindings.new_registry registry_calls).bindings
    ≡ 600 ∷ []
unfolding History.run Bindings.request_capability Bind.bind Timeouts.record_rtt
    Timeouts.record_timeout Timeouts.current_binding Bindings.next_outbound Bindings.status find
    insert_in_order erase observe initial Bindings.new_registry Rtt.observe Rtt.initial
registry_floor = refl

run-AllSound_example : AllSound (History.run Bindings.new_registry registry_calls).bindings
run-AllSound_example =
    History.run-AllSound registry_calls
      (tt, ((one_draw-AreWords, omega arith), (tt, (tt, (tt, tt)))))

hello-IsHeader : IsHeader hello
hello-IsHeader =
    ((omega arith, omega arith), (omega arith, omega arith, omega arith, omega arith), omega arith)

abbrev body : List ℕ
body = 9 ∷ []

decode-encode_example :
    ((length body ≤ 1152)
      × (Header.valid_fields hello (length body) ≡ true)
      × ((datagram : List ℕ) × (Header.encode hello body ≡ some datagram)
          × (Header.decode datagram ≡ decoded hello body)))
    ⊎ (((1152 < length body) ⊎ (Header.valid_fields hello (length body) ≡ false))
        × (Header.encode hello body ≡ none))
decode-encode_example = decode-encode hello body hello-IsHeader

-- The peers that have timed out are listed in the order of their sessions.
abbrev idle : ℕ → Bindings.RudpBindingRegistry → Bindings.RudpBindingRegistry
idle session r =
    Bindings.put_binding r session (Bind.new_binding hello (9 ∷ []) peer_endpoint 0 77 initial)

expired_in_order :
    map
      (λ e. e.session_id)
      (Bindings.expire_timed_out (idle 7 (idle 3 (idle 5 Bindings.new_registry))) 6000000000).1
    ≡ 3 ∷ 5 ∷ 7 ∷ []
unfolding Bindings.expire_timed_out Bindings.split_expired insert_in_order initial
    Bindings.new_registry
expired_in_order = refl
