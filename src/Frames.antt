-- ===== src/Frames.antt =====
-- packages/nexarm_service/src/nexarm_service/dataset_store.py: the open video containers of
-- `_decode`, and `close`. A video and a container are numbers. The dict keeps the order of
-- insertion; the list is in the reverse of it, the latest first.
pub mod Laws
mod Tests
use lerobot_nexarm.Prelude.{
  ℕ, zero, suc, Bool, List, [], ◌∷◌, ◌++◌, Option, none, some, length, true, false, ltb, ◌==◌,
  if◌then◌else◌,
}

-- `_OPEN_CONTAINERS`.
abbrev pub open_containers : ℕ
open_containers = 4

abbrev pub Cache : Type 0
Cache = List (ℕ × ℕ)

-- The number of containers opened so far names the next one; `dropped` are those that an exception
-- left open and out of the cache.
pub record Containers : Type 0 where
  pub cache : Cache
  pub opened : ℕ
  pub closed : List ℕ
  pub dropped : List ℕ

-- What `av.open` does with the file of a video, and the look at its first video stream after it.
pub data Opening : Type 0 where
  opens raises no_stream : Opening

abbrev pub no_containers : Containers
no_containers = record { cache = []; opened = 0; closed = []; dropped = [] }

unfoldable pub find : ℕ → Cache → Option ℕ
find video [] = none
find video ((v, c) ∷ cache) = if v == video then some c else find video cache

-- `pop` removes the entry of a key, of which there is one.
unfoldable pub pop : ℕ → Cache → Cache
pop video [] = []
pop video ((v, c) ∷ cache) =
    let rest = pop video cache in if v == video then cache else (v, c) ∷ rest

-- `popitem(last=False)`: the entries that stay, and the container of the one that goes.
unfoldable pub without_oldest : Cache → Cache
without_oldest [] = []
without_oldest (e ∷ []) = []
without_oldest (e ∷ f ∷ cache) = e ∷ without_oldest (f ∷ cache)

unfoldable pub oldest : Cache → List ℕ
oldest [] = []
oldest ((v, c) ∷ []) = c ∷ []
oldest (e ∷ f ∷ cache) = oldest (f ∷ cache)

abbrev pub close_oldest : Containers → Containers
close_oldest s = record s { cache = without_oldest s.cache; closed = s.closed ++ oldest s.cache }

-- The loop that closes the oldest while there are too many; the fuel is the number of entries.
unfoldable pub evict : ℕ → Containers → Containers
evict zero s = s
evict (suc fuel) s =
    let rest = evict fuel (close_oldest s) in
    if ltb open_containers (length s.cache) then rest else s

abbrev pub keep : ℕ → ℕ → Containers → Containers
keep video c s =
    let kept = record s { cache = (video, c) ∷ pop video s.cache } in evict (length kept.cache) kept

-- The next container, before it is kept.
abbrev pub open_next : Containers → Containers
open_next s = record s { opened = suc s.opened }

-- The containers after a frame of a video is asked for, and whether its container is kept. One
-- without a video stream raises after it was opened, and is dropped without being closed.
abbrev pub keep_found : ℕ → Opening → Option ℕ → Containers → Containers × Bool
keep_found video opening (some c) s = (keep video c s, true)
keep_found video opens none s = (keep video s.opened (open_next s), true)
keep_found video raises none s = (s, false)
keep_found video no_stream none s = (record (open_next s) { dropped = s.opened ∷ s.dropped }, false)

unfoldable pub decode : ℕ → Opening → Containers → Containers × Bool
decode video opening s = keep_found video opening (find video s.cache) s

abbrev pub ids : Cache → List ℕ
ids [] = []
ids ((v, c) ∷ cache) = ids cache ++ c ∷ []

-- `close`, from the oldest on.
unfoldable pub close : Containers → Containers
close s = record s { cache = []; closed = s.closed ++ ids s.cache }

pub data Call : Type 0 where
  decodes : ℕ → Opening → Call
  closes : Call
