-- ===== src/Events.antt =====
-- packages/nexarm_service/src/nexarm_service/events.py: the event hub, each delivery run at once in
-- the order of the publications. A subscriber's queue has a number for its identity.
pub mod Laws
mod Tests
use Prim.Native.String.{String}
use text.Mathlib.Text.{◌==◌ as str_eq}
use lerobot_nexarm.Prelude.{
  ℕ, Bool, true, false, List, [], ◌∷◌, ◌++◌, Option, none, some, ltb, ◌==◌, if◌then◌else◌, length,
  drop,
}

abbrev pub queue_size : ℕ
queue_size = 256

abbrev pub event_types : List String
event_types =
    "joint_update" ∷ "session_changed" ∷ "jobs_changed" ∷ "job_progress" ∷ "coaching_state" ∷ []

pub record Message (A : Type 0) : Type 0 where
  pub event_type : String
  pub body : A

pub record Queue (A : Type 0) : Type 0 where
  pub id : ℕ
  pub items : List (Message A)

abbrev pub is_event_type : String → List String → Bool
is_event_type t [] = false
is_event_type t (x ∷ xs) = if str_eq t x then true else is_event_type t xs

module _ {A : Type 0} where
  -- `_put_drop_oldest` on a queue of `size` at most, the oldest item first.
  abbrev pub put_drop_oldest : ℕ → List (Message A) → Message A → List (Message A)
  put_drop_oldest size items m = (if ltb (length items) size then items else drop 1 items) ++ m ∷ []

  pub subscribe : ℕ → List (Queue A) → List (Queue A)
  subscribe id hub = hub ++ record { id = id; items = [] } ∷ []

  abbrev pub unsubscribe : ℕ → List (Queue A) → List (Queue A)
  unsubscribe id [] = []
  unsubscribe id (q ∷ qs) = if q.id == id then unsubscribe id qs else q ∷ unsubscribe id qs

  abbrev pub deliver : Message A → List (Queue A) → List (Queue A)
  deliver m [] = []
  deliver m (q ∷ qs) = record q { items = put_drop_oldest queue_size (q.items) m } ∷ deliver m qs

  -- None for the `ValueError` of an unknown type.
  pub publish : String → A → List (Queue A) → Option (List (Queue A))
  publish t body hub =
      if is_event_type t event_types
      then some (deliver (record { event_type = t; body = body }) hub)
      else none

  -- The items a client that takes none has after some messages.
  abbrev pub put_all : ℕ → List (Message A) → List (Message A) → List (Message A)
  put_all size items [] = items
  put_all size items (m ∷ ms) = put_all size (put_drop_oldest size items m) ms

  abbrev pub deliver_all : List (Message A) → List (Queue A) → List (Queue A)
  deliver_all [] hub = hub
  deliver_all (m ∷ ms) hub = deliver_all ms (deliver m hub)

  -- A subscriber's queue after the messages.
  abbrev pub received : List (Message A) → Queue A → Queue A
  received ms q = record q { items = put_all queue_size (q.items) ms }
