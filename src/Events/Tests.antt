-- ===== src/Events/Tests.antt =====
-- events.py: the theorems at concrete inputs.
use lerobot_nexarm.Prelude.{ℕ, ◌-◌, ◌≡◌, ◌++◌, List, [], ◌∷◌, map, length, drop, arith}
use lerobot_nexarm.Events.{queue_size, Message, Queue, deliver_all}
use lerobot_nexarm.Events.Laws.{deliver_all-received}

abbrev news : List (Message ℕ)
news =
    record { event_type = "jobs_changed"; body = 1 }
    ∷ record { event_type = "job_progress"; body = 2 }
    ∷ []

abbrev two_clients : List (Queue ℕ)
two_clients =
    record { id = 1; items = [] }
    ∷ record { id = 2; items = record { event_type = "joint_update"; body = 0 } ∷ [] }
    ∷ []

deliver_all-received_example :
    deliver_all news two_clients
    ≡ map {A = Queue ℕ}
        (λ q. record q { items = drop (length (q.items ++ news) - queue_size) (q.items ++ news) })
        two_clients
deliver_all-received_example =
    deliver_all-received news two_clients (omega arith, (omega arith, tt))
