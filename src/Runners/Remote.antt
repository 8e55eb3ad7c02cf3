-- ===== src/Runners/Remote.antt =====
-- packages/nexarm_service/src/nexarm_service/remote.py: a job on a GPU server. The server is what each
-- of its calls answers; a call may also fail, by an error of the connection or of the server.
pub mod Follow
pub mod Complete
use lerobot_nexarm.Prelude.{
  ℕ, zero, suc, ◌+◌, Bool, true, false, not, ◌&&◌, ◌||◌, List, [], ◌∷◌, ◌++◌, Option, none, some,
  ltb, leb, ◌==◌, length, drop, if◌then◌else◌,
}

abbrev pub max_poll_failures : ℕ
max_poll_failures = 5

pub data RemoteState : Type 0 where
  queued running done failed cancelled : RemoteState

-- A poll of the server: whether a cancel is asked for before it and is accepted, the answer of
-- `job`, and what the server then has of the log and of the metrics, in this order; none where the
-- call fails. The server answers `logs` with what stands behind the offset.
pub record Poll (L : Type 0) (P : Type 0) : Type 0 where
  pub is_cancelled : Bool
  pub accepts_cancel : Bool
  pub state : Option RemoteState
  pub logs : Option (List L)
  pub metrics : Option (List P)

pub record Following (L : Type 0) (P : Type 0) : Type 0 where
  pub seen_lines : ℕ
  pub seen_points : ℕ
  pub failures : ℕ
  pub cancel_sent : Bool
  pub lines : List L
  pub points : List P

-- How a poll goes on: `retry` for its `continue`, `again` for the end of the loop's body.
pub data Next : Type 0 where
  retry again lost cancel_failed : Next
  ends : RemoteState → Next

pub data Ending : Type 0 where
  job_done job_failed job_cancelled connection_lost cancel_raised still_running : Ending

pub record Followed (L : Type 0) (P : Type 0) : Type 0 where
  pub ending : Ending
  pub following : Following L P

abbrev pub is_terminal : RemoteState → Bool
is_terminal done = true
is_terminal failed = true
is_terminal cancelled = true
is_terminal _ = false

abbrev pub ending_of : RemoteState → Ending
ending_of done = job_done
ending_of failed = job_failed
ending_of cancelled = job_cancelled
ending_of _ = still_running

module _ {L P : Type 0} where
  abbrev pub new_following : Following L P
  new_following = record {
    seen_lines = 0;
    seen_points = 0;
    failures = 0;
    cancel_sent = false;
    lines = [];
    points = [];
  }

  -- The failed branch of the poll.
  abbrev pub poll_failed : Following L P → Next × Following L P
  poll_failed f =
      let f' = record f { failures = f.failures + 1 } in
      if leb max_poll_failures (f.failures + 1) then (lost, f') else (retry, f')

  -- The lines that the server gave go to the sink one by one.
  abbrev pub take_lines : List L → Following L P → Following L P
  take_lines [] f = f
  take_lines (l ∷ ls) f =
      take_lines ls (record f { lines = f.lines ++ l ∷ []; seen_lines = f.seen_lines + 1 })

  abbrev pub take_points : List P → Following L P → Following L P
  take_points points f = record f {
    points = f.points ++ drop f.seen_points points;
    seen_points = length points;
    failures = 0;
  }

  -- The poll inside the `try`, then the test of the state.
  abbrev pub poll_job : Poll L P → Following L P → Next × Following L P
  poll_job p f = elim p.state [
    | none ↦ poll_failed f
    | some state ↦ elim p.logs [
      | none ↦ poll_failed f
      | some lines ↦ elim p.metrics [
        | none ↦ poll_failed (take_lines (drop f.seen_lines lines) f)
        | some points ↦
            let f' = take_points points (take_lines (drop f.seen_lines lines) f) in
            if is_terminal state then (ends state, f') else (again, f')
      ]
    ]
  ]

  -- One round of the loop; the cancel is sent outside the `try`.
  pub round : Poll L P → Following L P → Next × Following L P
  round p f =
      if p.is_cancelled && not f.cancel_sent
      then if p.accepts_cancel
        then poll_job p (record f { cancel_sent = true })
        else (cancel_failed, f)
      else poll_job p f

  abbrev pub end_as : Ending → Following L P → Followed L P
  end_as e f = record { ending = e; following = f }

  -- The loop of `_follow`, on the polls that happen; it still runs when they are used up.
  pub follow : List (Poll L P) → Following L P → Followed L P
  unfolding round
  follow [] f = end_as still_running f
  follow (p ∷ ps) f =
      let r = round p f in
      let later = follow ps r.1 in
      elim r.0 [
        | retry ↦ later
        | again ↦ later
        | lost ↦ end_as connection_lost r.1
        | cancel_failed ↦ end_as cancel_raised r.1
        | ends state ↦ end_as (ending_of state) r.1
      ]

-- `_ensure_dataset`: what the server has of a dataset, and what is done about it.
pub record RemoteDataset : Type 0 where
  pub fingerprint : Option ℕ
  pub transferred : Bool

pub data Upload : Type 0 where
  reuse refuse : Upload
  upload : Bool → Upload

pub ensure_dataset : ℕ → Option RemoteDataset → Upload
ensure_dataset fingerprint none = upload false
ensure_dataset fingerprint (some r) =
    if elim r.fingerprint [ none ↦ false | some f ↦ f == fingerprint ]
    then reuse
    else if r.transferred
    then upload true
    else refuse
