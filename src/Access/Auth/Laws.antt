-- ===== src/Access/Auth/Laws.antt =====
-- auth.py: which requests reach the application.
use lerobot_nexarm.Prelude.{
  ℕ, ◌≡◌, ◌≢◌, ◌⊎◌, inl, inr, refl, Bool, false, List, [], ◌∷◌, Option, none, some, arith,
  Option-cases,
}
use lerobot_nexarm.Prelude.Texts.{Text, same_text_lem, same_text_refl}
use lerobot_nexarm.Access.Auth.{
  http, websocket, lifespan, Scope, Step, app, receive, close, unauthorized, is_loopback, is_given,
  tokens_match, bearer, query_token, given, refuse, handle, engine,
}

-- A lifespan request, or one that gives the token, reaches the application and meets nothing else.
-- Any other is not seen by the application: an http request is answered by a 401, and a websocket
-- is received and closed with 4401.
pub handle_lem :
    (strip : Text → Text) (parse_qs : Text → List (Text × List Text)) (token : Text) (scope : Scope)
    → ((handle strip parse_qs token scope ≡ app ∷ [])
        × ((scope.kind ≡ lifespan) ⊎ (given strip parse_qs scope ≡ some token)))
      ⊎ ((given strip parse_qs scope ≢ some token)
          × (((scope.kind ≡ http) × (handle strip parse_qs token scope ≡ unauthorized 401 ∷ []))
              ⊎ ((scope.kind ≡ websocket)
                  × (handle strip parse_qs token scope ≡ receive ∷ close 4401 ∷ []))))
unfolding handle
handle_lem strip parse_qs token scope = elim (Option-cases (given strip parse_qs scope)) [
  | inl e ↦ ground arith
  | inr (t, e) ↦ ground (arith, same_text_lem t token, same_text_refl token)
]

-- An http request is answered the same whatever its query string holds.
pub handle-http :
    (strip : Text → Text) (parse_qs : Text → List (Text × List Text)) (token query : Text)
    (scope : Scope)
    → scope.kind ≡ http
    → handle strip parse_qs token (record scope { query_string = query })
      ≡ handle strip parse_qs token scope
unfolding handle
handle-http strip parse_qs token query scope h = ground arith

ungiven-tokens_match :
    (o : Option Text) (c : ℕ) (cs : Text) → is_given o ≡ false → tokens_match o (c ∷ cs) ≡ false
unfolding tokens_match
ungiven-tokens_match none c cs h = refl
ungiven-tokens_match (some []) c cs h = refl
ungiven-tokens_match (some (x ∷ xs)) c cs h = ground arith

-- An engine that has started on an address beyond loopback refuses each http or websocket request
-- that carries neither a bearer token nor a token in its query.
pub engine-refuse :
    (address : Text → Option Bool) (strip : Text → Text) (parse_qs : Text → List (Text × List Text))
    (host : Text) (token : Option Text) (scope : Scope) (answer : List Step)
    → is_loopback address host ≡ false
    → engine address strip parse_qs host token scope ≡ some answer
    → scope.kind ≢ lifespan
    → is_given (bearer strip scope.headers) ≡ false
    → is_given (query_token parse_qs scope) ≡ false
    → answer ≡ refuse scope.kind
unfolding engine
engine-refuse address strip parse_qs host none scope answer far e k b q = ground arith
engine-refuse address strip parse_qs host (some []) scope answer far e k b q = ground arith
engine-refuse address strip parse_qs host (some (c ∷ cs)) scope answer far e k b q =
    ground (arith, ungiven-tokens_match (query_token parse_qs scope) c cs)
