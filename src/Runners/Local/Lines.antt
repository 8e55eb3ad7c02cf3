-- ===== src/Runners/Local/Lines.antt =====
-- local_runner.py: the lines of the process do not depend on how its output is cut into chunks.
use lerobot_nexarm.Prelude.{
  ◌≡◌, ◌⊎◌, inl, inr, refl, sym, ap, ◌∙◌, Bool, true, false, List, [], ◌∷◌, ◌++◌, append_assoc,
  append-nil, arith, Bool-cases,
}
use lerobot_nexarm.Prelude.Texts.{Text}
use lerobot_nexarm.Runners.Local.{is_separator, split, shown, pump_lines}

-- The lines of a whole text.
abbrev pub lines_of : (Text → Text) → List Text × Text → List Text
lines_of strip parts = shown strip parts.0 ++ shown strip (parts.1 ∷ [])

abbrev pub concat : List Text → Text
concat [] = []
concat (t ∷ ts) = t ++ concat ts

shown-append :
    (strip : Text → Text) (ps qs : List Text)
    → shown strip (ps ++ qs) ≡ shown strip ps ++ shown strip qs
shown-append strip [] qs = refl
shown-append strip (p ∷ ps) qs = ground (arith, shown-append strip ps qs)

-- Whether a separator goes on makes an empty part at most.
split-flag :
    (strip : Text → Text) (text : Text)
    → strip [] ≡ []
    → lines_of strip (split [] true text) ≡ lines_of strip (split [] false text)
unfolding split
split-flag strip [] e = refl
split-flag strip (c ∷ cs) e = ground arith

-- What goes on from a cut: an open part, with the flag of its end.
split-append :
    (strip : Text → Text) (part : Text) (flag : Bool) (s t : Text)
    → strip [] ≡ []
    → (flag ≡ false) ⊎ (part ≡ [])
    → lines_of strip (split part flag (s ++ t))
      ≡ shown strip (split part flag s).0 ++ lines_of strip (split (split part flag s).1 false t)
unfolding split
split-append strip part flag [] t e h = ground (arith, split-flag strip t)
split-append strip part flag (c ∷ s) t e h = ground (
  arith,
  split-append strip part true s t,
  split-append strip [] true s t,
  split-append strip (part ++ c ∷ []) false s t,
)

-- A text without separators is a part that goes on.
abbrev pub IsOpen : Text → Type 0
IsOpen [] = Unit
IsOpen (c ∷ cs) = (is_separator c ≡ false) × IsOpen cs

split-open :
    (part text more : Text)
    → IsOpen text
    → split part false (text ++ more) ≡ split (part ++ text) false more
unfolding split
split-open part [] more o = rw (append-nil part) refl
split-open part (c ∷ text) more o = rw o.0 (
    split-open (part ++ c ∷ []) text more o.1
    ∙ ap (λ p. split p false more) (append_assoc part (c ∷ []) text))

IsOpen-append : (a b : Text) → IsOpen a → IsOpen b → IsOpen (a ++ b)
IsOpen-append [] b o p = p
IsOpen-append (c ∷ a) b o p = (o.0, IsOpen-append a b o.1 p)

split-IsOpen :
    (part : Text) (flag : Bool) (text : Text) → IsOpen part → IsOpen (split part flag text).1
unfolding split
split-IsOpen part flag [] o = o
split-IsOpen part flag (c ∷ cs) o = elim (Bool-cases (is_separator c)) [
  | inl e ↦ rw e (ground (arith, split-IsOpen part true cs, split-IsOpen [] true cs))
  | inr e ↦ rw e (split-IsOpen (part ++ c ∷ []) false cs (IsOpen-append part (c ∷ []) o (e, tt)))
]

pump_lines-open :
    (strip : Text → Text) (pending : Text) (chunks : List Text)
    → strip [] ≡ []
    → IsOpen pending
    → pump_lines strip pending chunks ≡ lines_of strip (split [] false (pending ++ concat chunks))
unfolding pump_lines split
pump_lines-open strip pending [] e o = rw (split-open [] pending [] o) refl
pump_lines-open strip pending (chunk ∷ chunks) e o =
    let text = pending ++ chunk in
    let parts = split [] false text in
    let open_ = split-IsOpen [] false text tt in
    let rest = concat chunks in
    let later : pump_lines strip parts.1 chunks ≡ lines_of strip (split parts.1 false rest) =
      pump_lines-open strip parts.1 chunks e open_
      ∙ ap (lines_of strip) (split-open [] parts.1 rest open_) in
    rw (← append_assoc pending chunk rest) (
      ap (◌++◌ (shown strip parts.0)) later
      ∙ sym (split-append strip [] false text rest e (inl refl)))

-- However the output of the process is cut into chunks, the lines handed on are those of the whole
-- output, if stripping the empty text leaves it empty.
pub pump_lines-concat :
    (strip : Text → Text) (chunks : List Text)
    → strip [] ≡ []
    → pump_lines strip [] chunks ≡ lines_of strip (split [] false (concat chunks))
pump_lines-concat strip chunks e = pump_lines-open strip [] chunks e tt
