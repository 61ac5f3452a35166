-- ===== src/Identity/Group.antt =====
-- What the group of the expression in from disk 2/example.cpp takes.
use storing_devices_logs_tfm.Base.{
  ℕ, Bool, true, false, ◌≡◌, ◌⊎◌, inl, inr, refl, sym, subst, ap, ◌∙◌, arith, List, [], ◌∷◌, ◌++◌,
  Option, some, Bytes, text, All, Option-cases, Bool-cases, ◌==◌, ==_iff, append-nil,
}
use storing_devices_logs_tfm.Regex.{Class, dot, Atom, one, many, in_class, literal}
use storing_devices_logs_tfm.Identity.{first_line, openind_serial}
use storing_devices_logs_tfm.Identity.Captures.{outside, not_space, serial_regex, keep, full_match}

-- A star outside of the group takes some bytes.
many-outside :
    (c : Class) (p : List (Atom × Bool)) (s m : Bytes)
    → full_match ((many c, false) ∷ p) s ≡ some m
    → (pre : Bytes) × (post : Bytes) × (s ≡ pre ++ post) × (full_match p post ≡ some m)
unfolding full_match keep
many-outside c p [] m h = ([], [], refl, h)
many-outside c p (x ∷ s) m h = elim (Bool-cases (in_class c x)) [
  | inr n ↦ ([], x ∷ s, refl, ground (arith, n, h))
  | inl y ↦ elim (Option-cases (full_match ((many c, false) ∷ p) s)) [
    | inl n ↦ ([], x ∷ s, refl, ground (arith, y, n, h))
    | inr (m', f) ↦
        let same : m' ≡ m = ground (arith, y, f, h) in
        let (pre, post, e, g) = many-outside c p s m (f ∙ ap some same) in
        (x ∷ pre, post, ap (λ t. x ∷ t) e, g)
  ]
]

-- A star in the group takes some bytes of its class.
many_in_group :
    (c : Class) (p : List (Atom × Bool)) (s m : Bytes)
    → full_match ((many c, true) ∷ p) s ≡ some m
    → (taken : Bytes) × (post : Bytes) × (m' : Bytes) × (s ≡ taken ++ post)
      × (m ≡ taken ++ m')
      × All (λ x. in_class c x ≡ true) taken
      × (full_match p post ≡ some m')
unfolding full_match keep
many_in_group c p [] m h = ([], [], m, refl, refl, tt, h)
many_in_group c p (x ∷ s) m h = elim (Bool-cases (in_class c x)) [
  | inr n ↦ ([], x ∷ s, m, refl, refl, tt, ground (arith, n, h))
  | inl y ↦ elim (Option-cases (full_match ((many c, true) ∷ p) s)) [
    | inl n ↦ ([], x ∷ s, m, refl, refl, tt, ground (arith, y, n, h))
    | inr (m₁, f) ↦
        let same : x ∷ m₁ ≡ m = ground (arith, y, f, h) in
        let (taken, post, m', e, g, all, r) = many_in_group c p s m₁ f in
        (x ∷ taken, post, m', ap (λ t. x ∷ t) e, sym same ∙ ap (λ t. x ∷ t) g, (y, all), r)
  ]
]

literal-outside :
    (w : Bytes) (p : List (Atom × Bool)) (s m : Bytes)
    → full_match (outside (literal w) ++ p) s ≡ some m
    → (post : Bytes) × (s ≡ w ++ post) × (full_match p post ≡ some m)
unfolding full_match keep literal
literal-outside [] p s m h = (s, refl, h)
literal-outside (c ∷ w) p [] m h = absurd (cc (h))
literal-outside (c ∷ w) p (x ∷ s) m h = elim (Bool-cases (x == c)) [
  | inr n ↦ absurd (ground (arith, n, h))
  | inl y ↦ elim (Option-cases (full_match (outside (literal w) ++ p) s)) [
    | inl n ↦ absurd (ground (arith, y, n, h))
    | inr (m', f) ↦
        let same : m' ≡ m = ground (arith, y, f, h) in
        let (post, e, g) = literal-outside w p s m (f ∙ ap some same) in
        let byte : x ≡ c = (==_iff x c).0 y in (post, rw byte (ap (λ t. c ∷ t) e), g)
  ]
]

one_in_group :
    (c : Class) (p : List (Atom × Bool)) (s m : Bytes)
    → full_match ((one c, true) ∷ p) s ≡ some m
    → (x : ℕ) × (t : Bytes) × (m' : Bytes) × (s ≡ x ∷ t)
      × (m ≡ x ∷ m')
      × (in_class c x ≡ true)
      × (full_match p t ≡ some m')
unfolding full_match keep
one_in_group c p [] m h = absurd (cc (h))
one_in_group c p (x ∷ s) m h = elim (Bool-cases (in_class c x)) [
  | inr n ↦ absurd (ground (arith, n, h))
  | inl y ↦ elim (Option-cases (full_match p s)) [
    | inl n ↦ absurd (ground (arith, y, n, h))
    | inr (m', f) ↦ (x, s, m', refl, ground (arith, y, f, h), y, f)
  ]
]

-- The text is a serial number without white space that stands behind a `serial_short=`.
pub record IsShort (line serial : Bytes) : Type 0 where
  pub before : Bytes
  pub first : ℕ
  pub rest : Bytes
  pub after : Bytes
  pub splits : line ≡ before ++ (text "serial_short=" ++ (serial ++ after))
  pub not_empty : serial ≡ first ∷ rest
  pub no_space : All (λ x. in_class not_space x ≡ true) serial

abbrev behind_group : List (Atom × Bool)
behind_group = (many dot, false) ∷ []

-- Behind the group only the star is left.
group_end : (s m : Bytes) → full_match behind_group s ≡ some m → m ≡ []
group_end s m h = let (pre, post, e, g) = many-outside dot [] s m h in all_taken post g
  where
    all_taken : (post : Bytes) → full_match [] post ≡ some m → m ≡ []
    all_taken [] g = unfold full_match in cc (g)
    all_taken (x ∷ t) g = unfold full_match in absurd (cc (g))

full_match-IsShort : (s m : Bytes) → full_match serial_regex s ≡ some m → IsShort s m
full_match-IsShort s m h =
    let group : List (Atom × Bool) =
      (one not_space, true) ∷ (many not_space, true) ∷ behind_group in
    let (before, s₁, e₁, h₁) =
      many-outside dot (outside (literal (text "serial_short=")) ++ group) s m h in
    let (s₂, e₂, h₂) = literal-outside (text "serial_short=") group s₁ m h₁ in
    let (x, s₃, m₁, e₃, f₃, c, h₃) =
      one_in_group not_space ((many not_space, true) ∷ behind_group) s₂ m h₂ in
    let (taken, after, m₂, e₄, f₄, all, h₄) = many_in_group not_space behind_group s₃ m₁ h₃ in
    let none_left : m₂ ≡ [] = group_end after m₂ h₄ in
    let serial : m ≡ x ∷ taken =
      f₃ ∙ ap (λ t. x ∷ t) (f₄ ∙ ap (λ t. taken ++ t) none_left ∙ append-nil taken) in
    let shown : s₂ ≡ m ++ after = e₃ ∙ ap (λ t. x ∷ t) e₄ ∙ ap (λ t. t ++ after) (sym serial) in
    record {
      before = before;
      first = x;
      rest = taken;
      after = after;
      splits = e₁ ∙ ap (λ t. before ++ t) (e₂ ∙ ap (λ t. text "serial_short=" ++ t) shown);
      not_empty = serial;
      no_space = subst (All (λ x. in_class not_space x ≡ true)) (sym serial) (c, all);
    }

-- The serial number that the program of from disk 2 takes from the first line of the kernel's file
-- is empty, or it is a text that is not empty, has no white space and stands in the line behind a
-- text `serial_short=`.
pub openind_serial-IsShort :
    (file : Option Bytes)
    → (openind_serial file ≡ []) ⊎ IsShort (first_line file) (openind_serial file)
openind_serial-IsShort file = elim (Option-cases (full_match serial_regex (first_line file))) [
  | inl n ↦ inl (rw n)
  | inr (m, h) ↦ inr (rw h (full_match-IsShort (first_line file) m h))
]
