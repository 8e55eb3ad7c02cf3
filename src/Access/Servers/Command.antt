-- ===== src/Access/Servers/Command.antt =====
-- servers.py: the words of the ssh commands.
use lerobot_nexarm.Prelude.{
  ℕ, ◌≡◌, ◌≢◌, ◌⊎◌, inl, inr, refl, subst, false, List, [], ◌∷◌, ◌++◌, append-nil, some,
  if◌then◌else◌, arith, Bool-cases, Option-cases,
}
use lerobot_nexarm.Prelude.Texts.{Text, codes, same_text}
use lerobot_nexarm.Access.Servers.{
  is_blank, is_option, RemoteServer, validate, identity, destination, target, tunnel_command,
  start_engine_command,
}
use lerobot_nexarm.Access.Servers.Laws.{validate-destination}

-- The words of a command behind its first `--`, which no program reads as options.
abbrev pub operands : List Text → List Text
operands [] = []
operands (w ∷ ws) = let rest = operands ws in if same_text w (codes "--") then ws else rest

word-same_text : (w : Text) → is_option w ≡ false → same_text w (codes "--") ≡ false
word-same_text [] h = refl
word-same_text (c ∷ cs) h = ground arith

target-operands :
    (str : ℕ → Text) (s : RemoteServer) (rest : List Text)
    → is_option (str s.ssh_port) ≡ false
    → ((k : Text) → (s.key_path ≢ some k) ⊎ (is_option k ≡ false))
    → operands (target str s ++ rest) ≡ destination s ∷ rest
unfolding target
target-operands str s rest port key = elim (Option-cases s.key_path) [
  | inl e ↦ rw e (rw (word-same_text (str s.ssh_port) port) refl)
  | inr (k, e) ↦ rw e (
      rw (word-same_text (str s.ssh_port) port)
        (keyed k (elim (key k) [ inl n ↦ absurd (n e) | inr o ↦ o ])))
]
  where
    keyed :
        (k : Text)
        → is_option k ≡ false
        → operands ((identity (some k) ++ codes "--" ∷ destination s ∷ []) ++ rest)
          ≡ destination s ∷ rest
    keyed k o = elim (Bool-cases (is_blank k)) [
      | inl b ↦ rw b refl
      | inr b ↦ rw b (rw (word-same_text k o) refl)
    ]

-- Of an accepted server nothing but the destination, and for the start the engine's own command,
-- stands behind the `--` of an ssh command; before it no word of the server is taken for it. A
-- printed number is taken to be no option.
pub validate-operands :
    (str : ℕ → Text) (strip : Text → Text) (s s' : RemoteServer) (local_port : ℕ)
    → ((n : ℕ) → is_option (str n) ≡ false)
    → validate strip s ≡ some s'
    → (operands (tunnel_command str s' local_port) ≡ destination s' ∷ [])
      × (operands (start_engine_command str s')
          ≡ destination s' ∷ codes "$HOME/.nexarm/start-engine.sh" ∷ [])
unfolding tunnel_command start_engine_command
validate-operands str strip s s' local_port digits h =
    let port = digits s'.ssh_port in
    let key : (k : Text) → (s'.key_path ≢ some k) ⊎ (is_option k ≡ false) =
      λ k. (validate-destination strip s s' k h).2 in
    (
      subst (λ ws. operands ws ≡ destination s' ∷ []) (append-nil (target str s'))
          (target-operands str s' [] port key),
      target-operands str s' (codes "$HOME/.nexarm/start-engine.sh" ∷ []) port key,
    )
