-- ===== src/Regex/Meaning.antt =====
-- The language of a pattern, and `match_at` against it.
use storing_devices_logs_tfm.Base.{
  ℕ, true, false, subst, [], ◌∷◌, ◌++◌, none, some, ◌≡◌, refl, ap, sym, ◌∙◌, arith, Bytes, Option,
  Bool-cases, inl, inr, Option-cases,
}
use storing_devices_logs_tfm.Regex.{Class, one, many, Pattern, in_class, cons_match, match_at}

-- `Matches p m`: the pattern describes the text `m`.
pub data Matches : Pattern → Bytes → Type 0 where
  stop : Matches [] []
  once :
      {c : Class} {p : Pattern} {x : ℕ} {m : Bytes}
      → in_class c x ≡ true
      → Matches p m
      → Matches (one c ∷ p) (x ∷ m)
  leave : {c : Class} {p : Pattern} {m : Bytes} → Matches p m → Matches (many c ∷ p) m
  again :
      {c : Class} {p : Pattern} {x : ℕ} {m : Bytes}
      → in_class c x ≡ true
      → Matches (many c ∷ p) m
      → Matches (many c ∷ p) (x ∷ m)

-- `s` begins with `m`, which the pattern describes.
pub record Starts (p : Pattern) (s m : Bytes) : Type 0 where
  pub rest : Bytes
  pub splits : s ≡ m ++ rest
  pub matches : Matches p m

Starts-once :
    {c : Class} {p : Pattern} {s m : Bytes} (x : ℕ)
    → in_class c x ≡ true
    → Starts p s m
    → Starts (one c ∷ p) (x ∷ s) (x ∷ m)
Starts-once x h t = record {
  rest = t.rest;
  splits = ap (◌∷◌ x) t.splits;
  matches = once h t.matches;
}

Starts-again :
    {c : Class} {p : Pattern} {s m : Bytes} (x : ℕ)
    → in_class c x ≡ true
    → Starts (many c ∷ p) s m
    → Starts (many c ∷ p) (x ∷ s) (x ∷ m)
Starts-again x h t = record {
  rest = t.rest;
  splits = ap (◌∷◌ x) t.splits;
  matches = again h t.matches;
}

Starts-leave : {c : Class} {p : Pattern} {s m : Bytes} → Starts p s m → Starts (many c ∷ p) s m
Starts-leave t = record { rest = t.rest; splits = t.splits; matches = leave t.matches }

cons_match-eq-some :
    (x : ℕ) (o : Option Bytes) {m : Bytes}
    → cons_match x o ≡ some m
    → (m' : Bytes) × (o ≡ some m') × (m ≡ x ∷ m')
unfolding cons_match
cons_match-eq-some x none h = cc
cons_match-eq-some x (some m') h = (m', refl, cc)

match_at-end : (c : Class) (p : Pattern) → match_at (many c ∷ p) [] ≡ match_at p []
unfolding match_at
match_at-end c p = refl

pub match_at-once :
    (c : Class) (p : Pattern) (x : ℕ) (s m : Bytes)
    → in_class c x ≡ true
    → match_at p s ≡ some m
    → match_at (one c ∷ p) (x ∷ s) ≡ some (x ∷ m)
unfolding match_at
match_at-once c p x s m t e = rw t (rw (e, cons_match))

-- The two ways on at a star.
match_at-longer :
    (c : Class) (p : Pattern) (x : ℕ) (s m : Bytes)
    → in_class c x ≡ true
    → match_at (many c ∷ p) s ≡ some m
    → match_at (many c ∷ p) (x ∷ s) ≡ some (x ∷ m)
unfolding match_at
match_at-longer c p x s m t e = rw t (rw (e, cons_match))

match_at-shorter :
    (c : Class) (p : Pattern) (x : ℕ) (s : Bytes)
    → match_at (many c ∷ p) s ≡ none
    → match_at (many c ∷ p) (x ∷ s) ≡ match_at p (x ∷ s)
unfolding match_at
match_at-shorter c p x s e = ground arith

match_at-outside :
    (c : Class) (p : Pattern) (x : ℕ) (s : Bytes)
    → in_class c x ≡ false
    → match_at (many c ∷ p) (x ∷ s) ≡ match_at p (x ∷ s)
unfolding match_at
match_at-outside c p x s e = rw e

match_at-inside :
    (c : Class) (p : Pattern) (x : ℕ) (s : Bytes) {m : Bytes}
    → match_at (one c ∷ p) (x ∷ s) ≡ some m
    → (m' : Bytes) × (in_class c x ≡ true) × (match_at p s ≡ some m') × (m ≡ x ∷ m')
unfolding match_at
match_at-inside c p x s h = elim (Option-cases (match_at p s)) [
  | inl e ↦ absurd (ground (arith, e))
  | inr (m', e) ↦ (m', ground arith, e, ground arith)
]

star_leaves :
    (c : Class) (p : Pattern) (s : Bytes)
    → (m : Bytes) × (match_at p s ≡ some m)
    → (m : Bytes) × (match_at (many c ∷ p) s ≡ some m)
star_leaves c p [] (m, e) = (m, unfold match_at in e)
star_leaves c p (x ∷ s) (m, e) = elim (Bool-cases (in_class c x)) [
  | inr out ↦ (m, match_at-outside c p x s out ∙ e)
  | inl t ↦ elim (Option-cases (match_at (many c ∷ p) s)) [
    | inl k ↦ (m, match_at-shorter c p x s k ∙ e)
    | inr (m', k) ↦ (x ∷ m', match_at-longer c p x s m' t k)
  ]
]

-- What `match_at` returns stands at the start of the text, and the pattern describes it.
pub match_at_sound : (p : Pattern) (s : Bytes) {m : Bytes} → match_at p s ≡ some m → Starts p s m
match_at_sound [] s h =
    unfold match_at in
    record { rest = s; splits = ground arith; matches = subst (Matches []) (ground arith) stop }
match_at_sound (one c ∷ p) [] h = unfold match_at in cc
match_at_sound (one c ∷ p) (x ∷ s) h =
    let (m', t, e, k) = match_at-inside c p x s h in rw k (Starts-once x t (match_at_sound p s e))
match_at_sound (many c ∷ p) [] h = Starts-leave (match_at_sound p [] (sym (match_at-end c p) ∙ h))
match_at_sound (many c ∷ p) (x ∷ s) h = elim (Bool-cases (in_class c x)) [
  | inr out ↦ Starts-leave (match_at_sound p (x ∷ s) (sym (match_at-outside c p x s out) ∙ h))
  | inl t ↦ elim (Option-cases (match_at (many c ∷ p) s)) [
    | inl e ↦ Starts-leave (match_at_sound p (x ∷ s) (sym (match_at-shorter c p x s e) ∙ h))
    | inr (m', e) ↦
        subst (Starts (many c ∷ p) (x ∷ s)) (cc (match_at-longer c p x s m' t e, h))
          (Starts-again x t (match_at_sound (many c ∷ p) s e))
  ]
]

-- If the pattern describes some text at the start of `s`, `match_at` finds one.
pub match_at_complete :
    {p : Pattern} {m : Bytes} (rest : Bytes)
    → Matches p m
    → (m' : Bytes) × (match_at p (m ++ rest) ≡ some m')
match_at_complete rest stop = ([], unfold match_at in refl)
match_at_complete rest (once {c} {p} {x} {m} t k) =
    let (m', e) = match_at_complete rest k in (x ∷ m', match_at-once c p x (m ++ rest) m' t e)
match_at_complete rest (leave {c} {p} {m} k) =
    star_leaves c p (m ++ rest) (match_at_complete rest k)
match_at_complete rest (again {c} {p} {x} {m} t k) =
    let (m', e) = match_at_complete rest k in (x ∷ m', match_at-longer c p x (m ++ rest) m' t e)
