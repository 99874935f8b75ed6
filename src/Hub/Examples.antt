-- ===== src/Hub/Examples.antt =====
-- The hub at work, and its theorems at concrete inputs.
use stackly.Base.{◌≡◌, refl, true, none, some, List, [], ◌∷◌, text, bytes_eq, arith}
use stackly.Base.Map
use stackly.Base.Ids.{has}
use stackly.Hub.{
  EventType, Event, Hub, subscribers_of, replay_of, last_n, new_hub, subscribe, unsubscribe, stamp,
  publish_locked, deliver, publish, Op, joins, publishes,
}
use stackly.Hub.Open.{IsOpen, Delivered, new_hub-IsOpen, publish-Delivered, run-total}
use stackly.Hub.Replay.{published, replay-run}
use stackly.Hub.Race.{publish_race}

abbrev queued : Event
queued = record {
  type = EventType.progress;
  job_id = [];
  status = text "pending";
  percent = 0;
  message = [];
  techs = [];
  error = [];
  ts = [];
}

abbrev done : Event
done = record queued { type = EventType.completed; status = text "completed"; percent = 100 }

abbrev calls : List Op
calls =
    joins (text "b") true
    ∷ publishes (text "a") (text "t1") queued
    ∷ publishes (text "b") (text "t2") queued
    ∷ publishes (text "a") (text "t3") done
    ∷ []

abbrev joined : Hub
joined = (subscribe (text "a") true new_hub).0

publish-Delivered_example :
    (h' : Hub) × (publish (text "a") (text "t") done new_hub ≡ some h')
    × Delivered
        (stamp (text "a") (text "t") done)
        (subscribers_of new_hub (text "a"))
        (publish_locked (text "a") (stamp (text "a") (text "t") done) new_hub).0
        h'
    × IsOpen h'
publish-Delivered_example = publish-Delivered (text "a") (text "t") done new_hub new_hub-IsOpen

-- The hub that the calls lead to.
abbrev after_calls : Hub
after_calls = (run-total calls new_hub new_hub-IsOpen).0

replay-run_example :
    (replay_of after_calls (text "a") ≡ last_n 32 (published (text "a") calls))
    × (after_calls.replay_size ≡ 32)
unfolding new_hub Map.get
replay-run_example =
    replay-run (text "a") calls new_hub after_calls tt (omega arith)
      (run-total calls new_hub new_hub-IsOpen).1

publish_race_example :
    let (locked, recipients) = publish_locked (text "a") done joined in
    deliver done recipients (unsubscribe 0 locked) ≡ none
unfolding has new_hub subscribe Map.get Map.put bytes_eq
publish_race_example = publish_race (text "a") done 0 joined refl
