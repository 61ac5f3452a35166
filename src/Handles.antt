-- ===== src/Handles.antt =====
-- What a program does with the objects that a library hands out, in order: the experiments with
-- libudev, sd-device and the EFI variables.
use storing_devices_logs_tfm.Base.{
  ℕ, Bool, true, false, ◌==◌, if◌then◌else◌, List, [], ◌∷◌, ◌++◌, Option, none, some, ◌≡◌, arith,
}

pub data Use : Type 0 where
  acquire : ℕ → Use
  access : ℕ → Use
  release : ℕ → Use

unfoldable pub is_live : ℕ → List ℕ → Bool
is_live h [] = false
is_live h (x ∷ live) = let rest = is_live h live in if x == h then true else rest

unfoldable pub without : ℕ → List ℕ → List ℕ
without h [] = []
without h (x ∷ live) = let rest = x ∷ without h live in if x == h then live else rest

-- The objects that are live behind the uses. `none`: one that is not live is used or released.
unfoldable pub live_after : List Use → List ℕ → Option (List ℕ)
unfolding is_live without
live_after [] live = some live
live_after (acquire h ∷ uses) live = live_after uses (h ∷ live)
live_after (access h ∷ uses) live =
    let rest = live_after uses live in if is_live h live then rest else none
live_after (release h ∷ uses) live =
    let rest = live_after uses (without h live) in if is_live h live then rest else none

-- Every object is released once, and none is used before it is handed out or behind its release.
abbrev pub IsBalanced : List Use → Type 0
IsBalanced uses = live_after uses [] ≡ some []

-- Uses that leave what is live, followed by others.
pub live_after-append :
    (a b : List Use) (live live' : List ℕ)
    → live_after a live ≡ some live'
    → live_after (a ++ b) live ≡ live_after b live'
unfolding live_after
live_after-append [] b live live' h = ground (arith, h)
live_after-append (acquire x ∷ a) b live live' h = live_after-append a b (x ∷ live) live' h
live_after-append (access x ∷ a) b live live' h =
    ground (arith, h, live_after-append a b live live')
live_after-append (release x ∷ a) b live live' h =
    ground (arith, h, live_after-append a b (without x live) live')
