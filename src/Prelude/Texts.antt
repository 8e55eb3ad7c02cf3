-- ===== src/Prelude/Texts.antt =====
-- Texts as the lists of their code points.
use Prim.Native.Char.{code}
use Prim.Native.String.{String}
use Prim.Native.Nat.{ℕ}
use mathlib.Core.Path.{◌≡◌, refl}
use mathlib.Core.Bool.{Bool, true, false, ◌&&◌}
use mathlib.Core.List.{List, [], ◌∷◌}
use native.Mathlib.Omega.{arith}
use lerobot_nexarm.Prelude.Tests.{◌==◌}

abbrev pub Text : Type 0
Text = List ℕ

abbrev pub codes : String → Text
codes String.[] = []
codes (String.◌∷◌ c s) = code c ∷ codes s

abbrev pub same_text : Text → Text → Bool
same_text [] [] = true
same_text (x ∷ xs) (y ∷ ys) = x == y && same_text xs ys
same_text _ _ = false

pub same_text_lem : (xs ys : Text) → same_text xs ys ≡ true → xs ≡ ys
same_text_lem [] [] h = refl
same_text_lem [] (y ∷ ys) h = ground arith
same_text_lem (x ∷ xs) [] h = ground arith
same_text_lem (x ∷ xs) (y ∷ ys) h = ground (arith, same_text_lem xs ys)

pub same_text_refl : (xs : Text) → same_text xs xs ≡ true
same_text_refl [] = refl
same_text_refl (x ∷ xs) = ground (arith, same_text_refl xs)
