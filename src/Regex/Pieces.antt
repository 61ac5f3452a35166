-- ===== src/Regex/Pieces.antt =====
-- What a match of a pattern that begins with a literal looks like.
use storing_devices_logs_tfm.Base.{
  ℕ, true, ◌≡◌, refl, ap, ◌∙◌, [], ◌∷◌, ◌++◌, some, Bytes, ==_iff, All,
}
use storing_devices_logs_tfm.Regex.{
  Class, many, Pattern, literal, in_class, regex_search, one, byte,
}
use storing_devices_logs_tfm.Regex.Meaning.{Matches, stop, once, leave, again}
use storing_devices_logs_tfm.Regex.Search.{MatchesAny, first, later, regex_search-Leftmost}

MatchesAny-one : {p : Pattern} {m : Bytes} → MatchesAny (p ∷ []) m → Matches p m
MatchesAny-one (first k) = k
MatchesAny-one (later k) = elim k [ ]

-- With one alternative, what is found is described by it.
pub regex_search-Matches :
    (p : Pattern) (line : Bytes) {m : Bytes} → regex_search (p ∷ []) line ≡ some m → Matches p m
regex_search-Matches p line h =
    MatchesAny-one (regex_search-Leftmost (p ∷ []) line h).occurs.matches

Matches-byte :
    {c : ℕ} {p : Pattern} {m : Bytes}
    → Matches (one (byte c) ∷ p) m
    → (r : Bytes) × (m ≡ c ∷ r) × Matches p r
Matches-byte (once {x = x} {m = m} t k) = (m, ap (λ y. y ∷ m) ((==_iff x _).0 t), k)

pub literal-Matches :
    (s : Bytes) {p : Pattern} {m : Bytes}
    → Matches (literal s ++ p) m
    → (r : Bytes) × (m ≡ s ++ r) × Matches p r
unfolding literal
literal-Matches [] k = (_, refl, k)
literal-Matches (c ∷ s) k =
    let (r, e, k') = Matches-byte k in
    let (r', e', k'') = literal-Matches s k' in (r', e ∙ ap (◌∷◌ c) e', k'')

-- A run of a class.
pub many-Matches :
    {c : Class} {m : Bytes} → Matches (many c ∷ []) m → All (λ x. in_class c x ≡ true) m
many-Matches (leave stop) = tt
many-Matches (again t k) = (t, many-Matches k)
