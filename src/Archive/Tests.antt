-- ===== src/Archive/Tests.antt =====
-- archive.py: the theorem at a concrete input.
use lerobot_nexarm.Prelude.{◌≤◌, ◌≡◌, ◌≢◌, All, ◌⊎◌, true, false, List, [], ◌∷◌, Option, none, some}
use lerobot_nexarm.Prelude.Texts.{Text, codes}
use lerobot_nexarm.Archive.{regular, directory, link, Member, Files, extract}
use lerobot_nexarm.Archive.Laws.{sizes, places, extract_lem}

-- Every name is one part.
abbrev one_part : Text → List Text
one_part name = name ∷ []

abbrev two_members : List Member
two_members =
    record { name = codes "meta"; kind = directory; size = 0; is_broken = false }
    ∷ record { name = codes "info.json"; kind = regular; size = 12; is_broken = false }
    ∷ []

extract_lem_example :
    let r = extract one_part (codes "s" ∷ []) 100 false true two_members none in
    ((r.result ≡ none) × (r.destination ≡ none))
    ⊎ ((◌≡◌ {A = Option Files} none none)
        × (r.result ≡ some (sizes two_members))
        × (sizes two_members ≤ 100)
        × (r.destination ≡ some (places one_part (codes "s" ∷ []) two_members))
        × All (λ m. m.kind ≢ link) two_members)
extract_lem_example = extract_lem one_part (codes "s" ∷ []) 100 false true two_members none
