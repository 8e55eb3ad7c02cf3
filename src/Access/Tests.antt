-- ===== src/Access/Tests.antt =====
-- auth.py, profiles.py, servers.py: the theorems at concrete inputs.
use lerobot_nexarm.Prelude.{ℕ, ◌≡◌, ◌≢◌, ◌⊎◌, refl, Bool, false, List, [], ◌∷◌, Option, none, some}
use lerobot_nexarm.Prelude.Texts.{Text, codes, same_text}
use lerobot_nexarm.Access.Auth.{
  http, websocket, lifespan, Scope, Step, app, refuse, given, handle, engine, bearer, query_token,
  is_loopback, receive, close, unauthorized,
}
use lerobot_nexarm.Access.Auth.Laws.{handle_lem}
use lerobot_nexarm.Access.Profiles.{Call, puts, deletes, call_all, get}
use lerobot_nexarm.Access.Profiles.Laws.{replay, call_all-replay}
use lerobot_nexarm.Access.Servers.{RemoteServer, validate}

-- Addresses other than 127.0.0.1 are not loopback, queries are not parsed and texts not stripped.
abbrev address : Text → Option Bool
address host = some (same_text host (codes "127.0.0.1"))

abbrev no_query : Text → List (Text × List Text)
no_query text = []

abbrev unstripped : Text → Text
unstripped text = text

abbrev with_token : Scope
with_token = record {
  kind = http;
  headers = (codes "authorization", codes "Bearer abc") ∷ [];
  query_string = [];
}

abbrev bare : Scope
bare = record { kind = websocket; headers = []; query_string = codes "x=1" }

handle_lem_example :
    ((handle unstripped no_query (codes "abc") with_token ≡ app ∷ [])
      × ((http ≡ lifespan) ⊎ (given unstripped no_query with_token ≡ some (codes "abc"))))
    ⊎ ((given unstripped no_query with_token ≢ some (codes "abc"))
        × (((http ≡ http)
              × (handle unstripped no_query (codes "abc") with_token ≡ unauthorized 401 ∷ []))
            ⊎ ((http ≡ websocket)
                × (handle unstripped no_query (codes "abc") with_token
                    ≡ receive ∷ close 4401 ∷ []))))
handle_lem_example = handle_lem unstripped no_query (codes "abc") with_token

abbrev refusals : List Step
refusals = refuse websocket

engine_lem :
    engine address unstripped no_query (codes "0.0.0.0") (some (codes "abc")) bare ≡ some refusals
unfolding engine
engine_lem = refl

far : is_loopback address (codes "0.0.0.0") ≡ false
unfolding is_loopback
far = refl

no_bearer : bearer unstripped [] ≡ none
unfolding bearer
no_bearer = refl

no_query_token : query_token no_query bare ≡ none
unfolding query_token
no_query_token = refl

abbrev some_calls : List (Call ℕ)
some_calls =
    puts (record { name = 2; body = 20 })
    ∷ puts (record { name = 1; body = 10 })
    ∷ puts (record { name = 2; body = 21 })
    ∷ deletes 1
    ∷ []

call_all-replay_example : get 2 (call_all some_calls none) ≡ replay some_calls (λ m. none) 2
unfolding get
call_all-replay_example = call_all-replay some_calls none (λ m. none) 2 tt (λ m. refl)

abbrev gpu : RemoteServer
gpu = record {
  host = codes "gpu-1.example.org";
  user = codes "ubuntu";
  ssh_port = 22;
  key_path = some (codes "/k");
  engine_port = 8765;
}

gpu_lem : validate unstripped gpu ≡ some gpu
unfolding validate
gpu_lem = refl
