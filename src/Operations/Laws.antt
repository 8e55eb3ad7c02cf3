-- ===== src/Operations/Laws.antt =====
-- operations.py: the ends of two operations.
use lerobot_nexarm.Prelude.{ℕ, ◌≡◌, ◌≢◌, refl, List, [], ◌∷◌, some, arith}
use lerobot_nexarm.Operations.{Operation, Ending, returns, raises, ended, end_run, get}

ended-id : (x : Ending) (now : ℕ) (op : Operation) → (ended x now op).id ≡ op.id
unfolding ended
ended-id (returns result) now op = refl
ended-id (raises kind text) now op = refl

-- The threads of two operations may end in either order: the table is the same after both.
pub end_run-end_run :
    (a b : ℕ) (x y : Ending) (s t : ℕ) (ops : List Operation)
    → a ≢ b
    → end_run a x s (end_run b y t ops) ≡ end_run b y t (end_run a x s ops)
unfolding end_run
end_run-end_run a b x y s t [] other = refl
end_run-end_run a b x y s t (op ∷ ops) other =
    ground (arith, end_run-end_run a b x y s t ops, ended-id x s op, ended-id y t op)

-- An operation that the table has is, once its thread has ended, done with the result that its
-- function returned, or failed with an error; and it keeps its id and its label.
pub get-end_run :
    (id : ℕ) (x : Ending) (now : ℕ) (ops : List Operation) (op : Operation)
    → get id ops ≡ some op
    → get id (end_run id x now ops) ≡ some (ended x now op)
unfolding end_run
get-end_run id x now [] op e = ground arith
get-end_run id x now (o ∷ ops) op e = ground (arith, get-end_run id x now ops op, ended-id x now o)
