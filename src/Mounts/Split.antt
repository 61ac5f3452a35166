-- ===== src/Mounts/Split.antt =====
-- What the tokens of a text are.
use storing_devices_logs_tfm.Base.{ℕ, true, ◌≡◌, arith, List, [], ◌∷◌, ◌++◌, Bytes}
use storing_devices_logs_tfm.Usb.Values.{lacks}
use storing_devices_logs_tfm.Mounts.{begin_token, split}

-- Every token with a delimiter behind it.
abbrev pub unsplit : List Bytes → ℕ → Bytes
unsplit [] d = []
unsplit (token ∷ tokens) d = token ++ (d ∷ unsplit tokens d)

-- A token in front of a delimiter.
pub split-field :
    (field rest : Bytes) (d : ℕ)
    → lacks d field ≡ true
    → split (field ++ d ∷ rest) d ≡ field ∷ split rest d
unfolding split begin_token
split-field [] rest d h = ground arith
split-field (c ∷ field) rest d h = ground (arith, split-field field rest d)
