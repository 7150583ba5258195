-- ===== src/Tests/Server.antt =====
-- Requests and items for middleware/ and runtime/.
use nf_safety_hub.Prelude.{
  ℕ, ◌≤◌, ◌<◌, max, length, true, false, none, some, List, [], ◌∷◌, take, ltb, ◌≡◌, ◌⊎◌, refl,
}
use nf_safety_hub.Prelude.Text.{Text, str}
use nf_safety_hub.Middleware.Concurrency.{World, start, Reach, next, arrive}
use nf_safety_hub.Middleware.Concurrency
use nf_safety_hub.Middleware.Concurrency.Invariant.{IsSound, Reach-IsSound}
use nf_safety_hub.Middleware.Concurrency.Verdicts.{Arrival, acquire_slot-Arrival}
use nf_safety_hub.Middleware.BodyLimit.{
  Message, part, other, limited_request, limited_request_lem, total,
}
use nf_safety_hub.Runtime.ArchiveQueue.{
  archive, audit, ArchiveQueue, Outcomes, Operation, put, collect, store, new, perform_all,
  audits_of,
}
use nf_safety_hub.Runtime.ArchiveQueue.Trail.{AllReliable, accepted, trail, trail_lem}
use nf_safety_hub.Runtime.AdminCache.{Call, gets, clears}
use nf_safety_hub.Runtime.Settings.{
  SettingsService, set_training_capture_enabled, refresh_all, refresh_all-set,
}
use nf_safety_hub.Proxy.Collector
use nf_safety_hub.Proxy.Collector.{concat, payload, add_all, Payload}
use nf_safety_hub.Proxy.Collector.Prefix.{payload-add_all}

-- Two requests arrive at one slot: the first runs, the second waits.
abbrev one_running : World
one_running = Concurrency.settle 1 (start 1 2) (Concurrency.acquire_slot 30 (start 1 2).limiter)

abbrev one_waiting : World
one_waiting = Concurrency.settle 2 one_running (Concurrency.acquire_slot 30 one_running.limiter)

one_waiting-reached : Reach 30 (start 1 2) one_waiting
one_waiting-reached =
    next (next Concurrency.Reach.here (arrive (start 1 2) 1)) (arrive one_running 2)

Reach-IsSound_example : IsSound 1 2 one_waiting
Reach-IsSound_example = Reach-IsSound 30 1 2 one_waiting one_waiting-reached

acquire_slot-Arrival_example : Arrival 30 1 2 one_waiting
acquire_slot-Arrival_example = acquire_slot-Arrival 30 1 2 one_waiting one_waiting-reached

abbrev messages : List Message
messages = part (str "abc") ∷ other ∷ part (str "de") ∷ []

limited_request_lem_example :
    ((total messages ≤ 4) × (limited_request 4 messages ≡ some messages))
    ⊎ ((4 < total messages) × (limited_request 4 messages ≡ none))
limited_request_lem_example = limited_request_lem 4 messages

abbrev good_round : Outcomes
good_round = record { capture_enabled = true; archives_written = true; audits_written = true }

abbrev bad_round : Outcomes
bad_round = record { capture_enabled = true; archives_written = false; audits_written = true }

abbrev operations : List (Operation ℕ ℕ)
operations =
    put (audit 1)
    ∷ put (archive 2)
    ∷ put (audit 3)
    ∷ collect
    ∷ put (audit 4)
    ∷ store good_round
    ∷ collect
    ∷ []

operations-AllReliable : AllReliable operations
operations-AllReliable = (tt, (tt, (tt, (tt, (tt, ((refl, refl), (tt, tt)))))))

trail_lem_example :
    trail (perform_all (new 2 1) operations) ≡ audits_of (accepted (new 2 1) operations)
trail_lem_example = trail_lem 2 1 operations operations-AllReliable

abbrev full_batch : ArchiveQueue ℕ ℕ
full_batch = record {
  queue = [];
  batch = archive 1 ∷ audit 2 ∷ [];
  max_size = 2;
  batch_size = 2;
  dropped = 0;
  processed = 0;
  stored_archives = [];
  stored_audits = [];
}

abbrev chunks : List Text
chunks = str "data" ∷ str ": x" ∷ []

payload-add_all_example :
    let p : Payload = payload (add_all (Collector.new 5) chunks) in
    (p.content ≡ take (max 1 5) (concat chunks))
    × (p.archived_bytes ≡ length p.content)
    × (p.original_bytes ≡ length (concat chunks))
    × (p.truncated ≡ ltb (length p.content) (length (concat chunks)))
payload-add_all_example = payload-add_all 5 chunks

abbrev cache_calls : List Call
cache_calls = gets 3 ∷ gets 4 ∷ clears ∷ gets 9 ∷ []

abbrev settings : SettingsService
settings = record { row = some (str "yes"); training_capture_enabled = true }

refresh_all-set_example :
    (refresh_all
      (set_training_capture_enabled settings false)
      (true ∷ false ∷ true ∷ [])).training_capture_enabled
    ≡ false
refresh_all-set_example = refresh_all-set settings false (true ∷ false ∷ true ∷ [])
