-- ===== src/Access/Servers.antt =====
-- packages/nexarm_service/src/nexarm_service/servers.py: the profile of a GPU server and the ssh
-- commands that reach it. Stripping a text and printing a number are Python's, so parameters.
pub mod Laws
pub mod Command
use lerobot_nexarm.Prelude.{
  ℕ, zero, suc, ◌+◌, Bool, true, false, not, ◌&&◌, ◌||◌, List, [], ◌∷◌, ◌++◌, Option, none, some,
  ltb, leb, ◌==◌, if◌then◌else◌,
}
use lerobot_nexarm.Prelude.Texts.{Text, codes}

abbrev pub is_between : ℕ → ℕ → ℕ → Bool
is_between a z c = leb a c && leb c z

abbrev pub is_digit : ℕ → Bool
is_digit c = is_between b'0' b'9' c

abbrev pub is_lower : ℕ → Bool
is_lower c = is_between b'a' b'z' c

abbrev pub is_alnum : ℕ → Bool
is_alnum c = is_digit c || is_lower c || is_between b'A' b'Z' c

abbrev pub in_host : ℕ → Bool
in_host c = is_alnum c || c == b'.' || c == b'-'

abbrev pub starts_user : ℕ → Bool
starts_user c = is_lower c || c == b'_'

abbrev pub in_user : ℕ → Bool
in_user c = is_lower c || is_digit c || c == b'_' || c == b'-'

-- Python's `$`: the end, or a line feed at the end.
abbrev pub at_end : Text → Bool
at_end [] = true
at_end (c ∷ []) = c == 10
at_end (c ∷ d ∷ cs) = false

-- At most so many of a class, then the end.
abbrev pub match_rest : (ℕ → Bool) → ℕ → Text → Bool
match_rest class most [] = true
match_rest class zero (c ∷ cs) = at_end (c ∷ cs)
match_rest class (suc most) (c ∷ cs) =
    let rest = match_rest class most cs in if class c then rest else at_end (c ∷ cs)

abbrev pub match_name : (ℕ → Bool) → (ℕ → Bool) → ℕ → Text → Bool
match_name first class most [] = false
match_name first class most (c ∷ cs) = first c && match_rest class most cs

-- `_HOST_RE` and `_USER_RE`.
pub is_host : Text → Bool
is_host text = match_name is_alnum in_host 252 text

pub is_user : Text → Bool
is_user text = match_name starts_user in_user 31 text

abbrev pub is_blank : Text → Bool
is_blank [] = true
is_blank (c ∷ cs) = false

abbrev pub has : ℕ → Text → Bool
has c [] = false
has c (d ∷ ds) = if d == c then true else has c ds

abbrev pub is_option : Text → Bool
is_option [] = false
is_option (c ∷ cs) = c == b'-'

-- None for the `ValueError`.
pub clean_key : (Text → Text) → Option Text → Option (Option Text)
clean_key strip none = some none
clean_key strip (some text) =
    if is_blank (strip text)
    then some none
    else if is_option text || has 10 text
    then none
    else some (some text)

pub record RemoteServer : Type 0 where
  pub host : Text
  pub user : Text
  pub ssh_port : ℕ
  pub key_path : Option Text
  pub engine_port : ℕ

abbrev pub is_port : ℕ → Bool
is_port p = ltb 0 p && ltb p 65536

-- The validation of the model.
unfoldable pub validate : (Text → Text) → RemoteServer → Option RemoteServer
unfolding is_host is_user clean_key
validate strip s =
    if is_host s.host && is_user s.user && is_port s.ssh_port && is_port s.engine_port
    then elim (clean_key strip s.key_path) [
      | none ↦ none
      | some k ↦ some (record s { key_path = k })
    ]
    else none

abbrev pub common : List Text
common =
    codes "-o"
    ∷ codes "BatchMode=yes"
    ∷ codes "-o"
    ∷ codes "StrictHostKeyChecking=accept-new"
    ∷ codes "-o"
    ∷ codes "ServerAliveInterval=15"
    ∷ codes "-o"
    ∷ codes "ServerAliveCountMax=3"
    ∷ []

abbrev pub identity : Option Text → List Text
identity none = []
identity (some k) = if is_blank k then [] else codes "-i" ∷ k ∷ []

abbrev pub destination : RemoteServer → Text
destination s = s.user ++ b'@' ∷ s.host

pub target : (ℕ → Text) → RemoteServer → List Text
target str s =
    (codes "-p" ∷ str s.ssh_port ∷ common)
    ++ (identity s.key_path ++ codes "--" ∷ destination s ∷ [])

pub tunnel_command : (ℕ → Text) → RemoteServer → ℕ → List Text
unfolding target
tunnel_command str s local_port =
    let forward =
      codes "127.0.0.1:" ++ (str local_port ++ (codes ":127.0.0.1:" ++ str s.engine_port)) in
    codes "ssh"
    ∷ codes "-N"
    ∷ codes "-L"
    ∷ forward
    ∷ codes "-o"
    ∷ codes "ExitOnForwardFailure=yes"
    ∷ target str s

pub start_engine_command : (ℕ → Text) → RemoteServer → List Text
unfolding target
start_engine_command str s =
    codes "ssh" ∷ target str s ++ codes "$HOME/.nexarm/start-engine.sh" ∷ []
