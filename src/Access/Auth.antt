-- ===== src/Access/Auth.antt =====
-- packages/nexarm_service/src/nexarm_service/auth.py: the token that guards an engine which listens
-- beyond loopback. Texts are their code points; parsing an address or a query and stripping a text
-- are the library's, so parameters.
pub mod Laws
use lerobot_nexarm.Prelude.{
  ℕ, zero, suc, ◌+◌, Bool, true, false, not, ◌&&◌, ◌||◌, List, [], ◌∷◌, ◌++◌, Option, none, some,
  ltb, leb, drop, if◌then◌else◌,
}
use lerobot_nexarm.Prelude.Texts.{Text, codes, same_text}

pub data Kind : Type 0 where
  http websocket lifespan : Kind

pub record Scope : Type 0 where
  pub kind : Kind
  pub headers : List (Text × Text)
  pub query_string : Text

-- What the middleware does with a request.
pub data Step : Type 0 where
  app receive : Step
  close unauthorized : ℕ → Step

-- None where `ip_address` raises.
unfoldable pub is_loopback : (Text → Option Bool) → Text → Bool
is_loopback address host =
    if same_text host (codes "localhost")
    then true
    else elim (address host) [ none ↦ false | some b ↦ b ]

abbrev pub is_given : Option Text → Bool
is_given none = false
is_given (some []) = false
is_given (some (c ∷ cs)) = true

-- False for the `SystemExit`.
pub require_token_for_bind : (Text → Option Bool) → Text → Option Text → Bool
unfolding is_loopback
require_token_for_bind address host token = is_loopback address host || is_given token

pub tokens_match : Option Text → Text → Bool
tokens_match none expected = false
tokens_match (some given) expected = same_text given expected

abbrev pub lower : ℕ → ℕ
lower c = if leb b'A' c && leb c b'Z' then c + 32 else c

abbrev pub starts_with_lower : Text → Text → Bool
starts_with_lower [] text = true
starts_with_lower (p ∷ ps) [] = false
starts_with_lower (p ∷ ps) (c ∷ cs) = same_text (lower c ∷ []) (p ∷ []) && starts_with_lower ps cs

unfoldable pub bearer : (Text → Text) → List (Text × Text) → Option Text
bearer strip [] = none
bearer strip ((name, value) ∷ headers) =
    let rest = bearer strip headers in
    if same_text name (codes "authorization") && starts_with_lower (codes "bearer ") value
    then some (strip (drop 7 value))
    else rest

abbrev pub first_value : List (Text × List Text) → Option Text
first_value [] = none
first_value ((k, vs) ∷ rest) =
    let later = first_value rest in
    if same_text k (codes "token") then elim vs [ [] ↦ none | v ∷ vs ↦ some v ] else later

unfoldable pub query_token : (Text → List (Text × List Text)) → Scope → Option Text
query_token parse_qs scope = elim scope.kind [
  | websocket ↦ first_value (parse_qs scope.query_string)
  | _ ↦ none
]

-- Python's `or` on two optional texts.
abbrev pub or_text : Option Text → Option Text → Option Text
or_text a b = if is_given a then a else b

pub given : (Text → Text) → (Text → List (Text × List Text)) → Scope → Option Text
unfolding bearer query_token
given strip parse_qs scope = or_text (bearer strip scope.headers) (query_token parse_qs scope)

abbrev pub refuse : Kind → List Step
refuse websocket = receive ∷ close 4401 ∷ []
refuse _ = unauthorized 401 ∷ []

-- `TokenAuthMiddleware.__call__`.
pub handle : (Text → Text) → (Text → List (Text × List Text)) → Text → Scope → List Step
unfolding given tokens_match
handle strip parse_qs token scope =
    let checked =
      if tokens_match (given strip parse_qs scope) token then app ∷ [] else refuse scope.kind in
    elim scope.kind [ lifespan ↦ app ∷ [] | _ ↦ checked ]

-- The start of the engine by the command line and `create_app`, and its answer to a request; none
-- where it does not start.
unfoldable pub engine :
    (Text → Option Bool)
    → (Text → Text)
    → (Text → List (Text × List Text))
    → Text
    → Option Text
    → Scope
    → Option (List Step)
unfolding require_token_for_bind handle
engine address strip parse_qs host token scope =
    let answer : List Step = elim token [
      | none ↦ app ∷ []
      | some t ↦ if is_given (some t) then handle strip parse_qs t scope else app ∷ []
    ] in
    if require_token_for_bind address host token then some answer else none
