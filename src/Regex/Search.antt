-- ===== src/Regex/Search.antt =====
-- `regex_search` against the occurrences of an expression in a text.
use storing_devices_logs_tfm.Base.{
  ℕ, ◌≤◌, ◌≡◌, refl, sym, ap, ◌∙◌, arith, ◌⊎◌, inl, inr, [], ◌∷◌, ◌++◌, none, some, Bytes, length,
  Option-cases, subst,
}
use storing_devices_logs_tfm.Regex.{
  Pattern, Regex, match_at, first_match, search_from, c_str, regex_search,
}
use storing_devices_logs_tfm.Regex.Meaning.{Matches, Starts, match_at_sound, match_at_complete}

-- Some alternative describes the text.
pub data MatchesAny : Regex → Bytes → Type 0 where
  first : {p : Pattern} {r : Regex} {m : Bytes} → Matches p m → MatchesAny (p ∷ r) m
  later : {p : Pattern} {r : Regex} {m : Bytes} → MatchesAny r m → MatchesAny (p ∷ r) m

-- `m` stands in `s` behind `before`, and the expression describes it.
pub record Occurs (r : Regex) (s before m : Bytes) : Type 0 where
  pub behind : Bytes
  pub splits : s ≡ before ++ (m ++ behind)
  pub matches : MatchesAny r m

first_match-hit :
    (p : Pattern) (r : Regex) (s m : Bytes) → match_at p s ≡ some m → first_match (p ∷ r) s ≡ some m
unfolding first_match
first_match-hit p r s m e = rw (e, first_match)

first_match-miss :
    (p : Pattern) (r : Regex) (s : Bytes)
    → match_at p s ≡ none
    → first_match (p ∷ r) s ≡ first_match r s
unfolding first_match
first_match-miss p r s e = rw (e, first_match)

first_match-nil : (s : Bytes) {m : Bytes} → first_match [] s ≡ some m → ⊥
unfolding first_match
first_match-nil s h = cc

later_Occurs : {p : Pattern} {r : Regex} {s b m : Bytes} → Occurs r s b m → Occurs (p ∷ r) s b m
later_Occurs o = record { behind = o.behind; splits = o.splits; matches = later o.matches }

first_match_sound : (r : Regex) (s : Bytes) {m : Bytes} → first_match r s ≡ some m → Occurs r s [] m
first_match_sound [] s h = absurd (first_match-nil s h)
first_match_sound (p ∷ r) s h = elim (Option-cases (match_at p s)) [
  | inl e ↦ later_Occurs (first_match_sound r s (sym (first_match-miss p r s e) ∙ h))
  | inr (m', e) ↦
      let k : Starts p s m' = match_at_sound p s e in
      subst (Occurs (p ∷ r) s []) (cc (first_match-hit p r s m' e, h))
        (record { behind = k.rest; splits = k.splits; matches = first k.matches })
]

first_match_complete :
    {r : Regex} {m : Bytes} (rest : Bytes)
    → MatchesAny r m
    → (m' : Bytes) × (first_match r (m ++ rest) ≡ some m')
first_match_complete rest (first {p} {r} {m} k) =
    let (m', e) = match_at_complete rest k in (m', first_match-hit p r (m ++ rest) m' e)
first_match_complete rest (later {p} {r} {m} k) = elim (Option-cases (match_at p (m ++ rest))) [
  | inl e ↦
      let (m', found) = first_match_complete rest k in
      (m', first_match-miss p r (m ++ rest) e ∙ found)
  | inr (m', e) ↦ (m', first_match-hit p r (m ++ rest) m' e)
]

search_from-nil : (r : Regex) → search_from r [] ≡ first_match r []
unfolding search_from
search_from-nil r = refl

search_from-hit :
    (r : Regex) (x : ℕ) (s m : Bytes)
    → first_match r (x ∷ s) ≡ some m
    → search_from r (x ∷ s) ≡ some m
unfolding search_from
search_from-hit r x s m e = rw (e, search_from)

search_from-miss :
    (r : Regex) (x : ℕ) (s : Bytes)
    → first_match r (x ∷ s) ≡ none
    → search_from r (x ∷ s) ≡ search_from r s
unfolding search_from
search_from-miss r x s e = rw (e, search_from)

-- An occurrence at the start, or one of the text without its first byte.
Occurs-cases :
    {r : Regex} {x : ℕ} {s m : Bytes} (b : Bytes)
    → Occurs r (x ∷ s) b m
    → ((m' : Bytes) × (first_match r (x ∷ s) ≡ some m'))
      ⊎ ((b' : Bytes) × (b ≡ x ∷ b') × Occurs r s b' m)
Occurs-cases [] o = let (m', e) = first_match_complete o.behind o.matches in inl (m', rw o.splits e)
Occurs-cases (y ∷ b) o =
    inr
      (b, cc (o.splits), record { behind = o.behind; splits = cc (o.splits); matches = o.matches })

Occurs-nil :
    {r : Regex} {m : Bytes} (b : Bytes)
    → Occurs r [] b m
    → (m' : Bytes) × (first_match r [] ≡ some m')
Occurs-nil [] o = let (m', e) = first_match_complete o.behind o.matches in (m', rw o.splits e)
Occurs-nil (y ∷ b) o = absurd (cc (o.splits))

pub record Leftmost (r : Regex) (s m : Bytes) : Type 0 where
  pub before : Bytes
  pub occurs : Occurs r s before m
  pub least : (b m' : Bytes) → Occurs r s b m' → length before ≤ length b

search_from-Leftmost :
    (r : Regex) (s : Bytes) {m : Bytes} → search_from r s ≡ some m → Leftmost r s m
search_from-Leftmost r [] h = record {
  before = [];
  occurs = first_match_sound r [] (sym (search_from-nil r) ∙ h);
  least = λ b m' o. omega arith;
}
search_from-Leftmost r (x ∷ s) h = elim (Option-cases (first_match r (x ∷ s))) [
  | inr (m', e) ↦ record {
    before = [];
    occurs = first_match_sound r (x ∷ s) (e ∙ cc (search_from-hit r x s m' e, h));
    least = λ b m'' o. omega arith;
  }
  | inl e ↦
      let l : Leftmost r s _ = search_from-Leftmost r s (sym (search_from-miss r x s e) ∙ h) in
      record {
        before = x ∷ l.before;
        occurs = record {
          behind = l.occurs.behind;
          splits = ap (◌∷◌ x) l.occurs.splits;
          matches = l.occurs.matches;
        };
        least = λ b m' o. elim (Occurs-cases b o) [
          | inl (m'', e') ↦ absurd (cc (e, e'))
          | inr (b', k, o') ↦ omega (arith, ap length k, l.least b' m' o')
        ];
      }
]

search_from_complete :
    (r : Regex) (s b : Bytes) {m : Bytes}
    → Occurs r s b m
    → (m' : Bytes) × (search_from r s ≡ some m')
search_from_complete r [] b o = let (m', e) = Occurs-nil b o in (m', search_from-nil r ∙ e)
search_from_complete r (x ∷ s) b o = elim (Option-cases (first_match r (x ∷ s))) [
  | inr (m', e) ↦ (m', search_from-hit r x s m' e)
  | inl e ↦ elim (Occurs-cases b o) [
    | inl (m'', e') ↦ absurd (cc (e, e'))
    | inr (b', k, o') ↦
        let (m', found) = search_from_complete r s b' o' in (m', search_from-miss r x s e ∙ found)
  ]
]

-- A search that succeeds returns an occurrence in the C string, and none starts further left.
pub regex_search-Leftmost :
    (r : Regex) (line : Bytes) {m : Bytes}
    → regex_search r line ≡ some m
    → Leftmost r (c_str line) m
unfolding regex_search
regex_search-Leftmost r line h = search_from-Leftmost r (c_str line) h

-- A search fails only where the C string holds no occurrence.
pub regex_search_complete :
    (r : Regex) (line before : Bytes) {m : Bytes}
    → Occurs r (c_str line) before m
    → (m' : Bytes) × (regex_search r line ≡ some m')
unfolding regex_search
regex_search_complete r line before o = search_from_complete r (c_str line) before o
