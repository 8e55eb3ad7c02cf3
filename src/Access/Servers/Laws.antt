-- ===== src/Access/Servers/Laws.antt =====
-- servers.py: what ssh is given for a server that was accepted.
use lerobot_nexarm.Prelude.{
  ℕ, zero, suc, ◌≡◌, ◌≢◌, ◌⊎◌, inl, inr, refl, ap, Bool, true, false, [], ◌∷◌, ◌++◌, Option, none,
  some, ◌==◌, if◌then◌else◌, arith, Bool-cases, Option-cases,
}
use lerobot_nexarm.Prelude.Texts.{Text}
use lerobot_nexarm.Access.Servers.{
  in_host, starts_user, in_user, at_end, match_rest, match_name, is_host, is_user, has, is_option,
  clean_key, RemoteServer, validate, destination,
}

match_rest-has :
    (c : ℕ) (class : ℕ → Bool) (most : ℕ) (text : Text)
    → class c ≡ false
    → c ≢ 10
    → match_rest class most text ≡ true
    → has c text ≡ false
match_rest-has c class most [] k h m = refl
match_rest-has c class zero (d ∷ []) k h m = ground arith
match_rest-has c class zero (d ∷ e ∷ ds) k h m = ground arith
match_rest-has c class (suc most) (d ∷ []) k h m =
    ground (arith, ap class, match_rest-has c class most [])
match_rest-has c class (suc most) (d ∷ e ∷ ds) k h m = elim (Bool-cases (d == c)) [
  | inl same ↦
      let e : d ≡ c = ground arith in let none_ : class d ≡ class c = ap class e in ground arith
  | inr differs ↦ ground (arith, match_rest-has c class most (e ∷ ds))
]

-- The text before the first of a character, and the text behind it.
abbrev pub cut : ℕ → Text → Text × Text
cut c [] = ([], [])
cut c (d ∷ ds) = let rest = cut c ds in if d == c then ([], ds) else (d ∷ rest.0, rest.1)

cut-append : (c : ℕ) (u h : Text) → has c u ≡ false → cut c (u ++ c ∷ h) ≡ (u, h)
cut-append c [] h n = ground arith
cut-append c (d ∷ ds) h n = ground (arith, cut-append c ds h)

match_name-has :
    (c : ℕ) (first class : ℕ → Bool) (most : ℕ) (text : Text)
    → first c ≡ false
    → class c ≡ false
    → c ≢ 10
    → match_name first class most text ≡ true
    → has c text ≡ false
match_name-has c first class most [] f k h m = refl
match_name-has c first class most (d ∷ ds) f k h m = elim (Bool-cases (d == c)) [
  | inl same ↦
      let e : d ≡ c = ground arith in let none_ : first d ≡ first c = ap first e in ground arith
  | inr differs ↦ ground (arith, match_rest-has c class most ds k h)
]

user-is_option : (user host : Text) → is_user user ≡ true → is_option (user ++ b'@' ∷ host) ≡ false
unfolding is_user
user-is_option [] host h = ground arith
user-is_option (c ∷ cs) host h = ground arith

key-is_option :
    (strip : Text → Text) (key : Option Text) (k : Text)
    → clean_key strip key ≡ some (some k)
    → is_option k ≡ false
unfolding clean_key
key-is_option strip none k h = ground arith
key-is_option strip (some text) k h = ground arith

-- In the command of an accepted server the destination is no option and is cut at its one sign
-- into the user and the host, and an identity file is no option.
pub validate-destination :
    (strip : Text → Text) (s s' : RemoteServer) (k : Text)
    → validate strip s ≡ some s'
    → (is_option (destination s') ≡ false)
      × (cut b'@' (destination s') ≡ (s'.user, s'.host))
      × ((s'.key_path ≢ some k) ⊎ (is_option k ≡ false))
unfolding validate is_user is_host
validate-destination strip s s' k h = elim (Option-cases (clean_key strip s.key_path)) [
  | inl e ↦ ground arith
  | inr (key, e) ↦ ground (
    arith,
    user-is_option s.user s.host,
    match_name-has b'@' starts_user in_user 31 s.user,
    cut-append b'@' s.user s.host,
    key-is_option strip s.key_path k,
  )
]

at_end-line_feed :
    (c : ℕ) (cs : Text) → has 10 (c ∷ cs) ≡ false → at_end (c ∷ cs ++ 10 ∷ []) ≡ at_end (c ∷ cs)
at_end-line_feed c [] h = ground arith
at_end-line_feed c (d ∷ []) h = ground arith
at_end-line_feed c (d ∷ e ∷ ds) h = refl

match_rest-line_feed :
    (class : ℕ → Bool) (most : ℕ) (text : Text)
    → class 10 ≡ false
    → has 10 text ≡ false
    → match_rest class most (text ++ 10 ∷ []) ≡ match_rest class most text
match_rest-line_feed class zero [] k h = refl
match_rest-line_feed class (suc most) [] k h = ground arith
match_rest-line_feed class zero (c ∷ cs) k h = at_end-line_feed c cs h
match_rest-line_feed class (suc most) (c ∷ cs) k h =
    ground (arith, at_end-line_feed c cs, match_rest-line_feed class most cs)

-- A user or a host that was accepted is also accepted with a line feed behind it.
pub is_user-line_feed :
    (text : Text)
    → has 10 text ≡ false
    → (is_user (text ++ 10 ∷ []) ≡ is_user text) × (is_host (text ++ 10 ∷ []) ≡ is_host text)
unfolding is_user is_host
is_user-line_feed [] h = (refl, refl)
is_user-line_feed (c ∷ cs) h =
    ground (arith, match_rest-line_feed in_user 31 cs, match_rest-line_feed in_host 252 cs)
