-- ===== src/Operations.antt =====
-- packages/nexarm_service/src/nexarm_service/operations.py: `OperationRunner`. The table is the list
-- of operations in the order of the dict; what the function of an operation returns or raises is an
-- argument of the end of its thread, and the ends come in any order. Ids and times are numbers.
pub mod Laws
use Prim.Native.String.{String, ◌++◌ as str_append}
use lerobot_nexarm.Prelude.{ℕ, List, [], ◌∷◌, ◌++◌, Option, none, some, ◌==◌, if◌then◌else◌}

pub data OperationState : Type 0 where
  running done failed : OperationState

pub record Operation : Type 0 where
  pub id : ℕ
  pub label : String
  pub state : OperationState
  pub started_at : ℕ
  pub finished_at : Option ℕ
  pub result : Option String
  pub error : Option String

-- What the function does: its result, or the exception's type and text.
pub data Ending : Type 0 where
  returns : Option String → Ending
  raises : String → String → Ending

pub submit : ℕ → String → ℕ → List Operation → List Operation
submit id label now ops =
    ops
    ++ record {
      id = id;
      label = label;
      state = running;
      started_at = now;
      finished_at = none;
      result = none;
      error = none;
    }
      ∷ []

-- The operation once its thread has ended; an error has its type's name in front.
pub ended : Ending → ℕ → Operation → Operation
ended (returns result) now op = record op {
  state = done;
  result = result;
  error = none;
  finished_at = some now;
}
ended (raises kind text) now op = record op {
  state = failed;
  result = none;
  error = some (str_append kind (str_append ": " text));
  finished_at = some now;
}

-- `_run`, after the function.
abbrev pub update : ℕ → (Operation → Operation) → List Operation → List Operation
update id f [] = []
update id f (op ∷ ops) = if op.id == id then f op ∷ ops else op ∷ update id f ops

pub end_run : ℕ → Ending → ℕ → List Operation → List Operation
unfolding ended
end_run id ending now ops = update id (ended ending now) ops

abbrev pub get : ℕ → List Operation → Option Operation
get id [] = none
get id (op ∷ ops) = if op.id == id then some op else get id ops
