-- ===== src/Usb/Dates.antt =====
-- What the expression for dates finds in a line of the log.
use storing_devices_logs_tfm.Base.{
  ℕ, true, ◌&&◌, leb, ==_iff, ◌≡◌, refl, sym, ap, ◌∙◌, arith, ◌⊎◌, inl, inr, [], ◌∷◌, ◌++◌, some,
  All, Bytes, Option-cases, subst,
}
use storing_devices_logs_tfm.Regex.{
  Class, Pattern, dot, one, many, in_class, digit, regex_search, str, c_str,
}
use storing_devices_logs_tfm.Regex.Meaning.{Matches, stop, once, leave, again}
use storing_devices_logs_tfm.Regex.Pieces.{regex_search-Matches}
use storing_devices_logs_tfm.Regex.Search.{regex_search-Leftmost}
use storing_devices_logs_tfm.Usb.Text.{date_regex, time_pattern, day_class}
use storing_devices_logs_tfm.Usb.Checks.{date_of}

-- `hh:mm:ss`, with any digits.
pub record IsTime (t : Bytes) : Type 0 where
  pub digits : Bytes
  pub are_digits : All (λ x. in_class digit x ≡ true) digits
  pub is_time :
      (a b c d e f : ℕ) × (digits ≡ a ∷ b ∷ c ∷ d ∷ e ∷ f ∷ [])
      × (t ≡ a ∷ b ∷ b':' ∷ c ∷ d ∷ b':' ∷ e ∷ f ∷ [])

-- Text, a digit of 1 to 3, text, and a time.
pub record IsDate (m : Bytes) : Type 0 where
  pub before : Bytes
  pub day : ℕ
  pub between : Bytes
  pub time : Bytes
  pub splits : m ≡ before ++ day ∷ (between ++ time)
  pub day_is_1_to_3 : (leb b'1' day && leb day b'3') ≡ true
  pub is_time : IsTime time

many-split :
    {c : Class} {p : Pattern} {m : Bytes}
    → Matches (many c ∷ p) m
    → (a b : Bytes) × (m ≡ a ++ b) × Matches p b
many-split (leave k) = ([], _, refl, k)
many-split (again {x = x} t k) = let (a, b, e, r) = many-split k in (x ∷ a, b, ap (λ y. x ∷ y) e, r)

day_of : (x : ℕ) → in_class day_class x ≡ true → (leb b'1' x && leb x b'3') ≡ true
day_of x h = ground arith

time_pattern-IsTime : {m : Bytes} → Matches time_pattern m → IsTime m
time_pattern-IsTime
      (once {x = a} ha (
        once {x = b} hb (
          once {x = x} k (
            once {x = c} hc
              (once {x = d} hd (once {x = y} l (once {x = e} he (once {x = f} hf stop)))))))) =
    record {
      digits = a ∷ b ∷ c ∷ d ∷ e ∷ f ∷ [];
      are_digits = (ha, (hb, (hc, (hd, (he, (hf, tt))))));
      is_time = (
        a,
        b,
        c,
        d,
        e,
        f,
        refl,
        ap (λ u. a ∷ b ∷ u ∷ c ∷ d ∷ y ∷ e ∷ f ∷ []) ((==_iff x b':').0 k)
            ∙ ap (λ u. a ∷ b ∷ b':' ∷ c ∷ d ∷ u ∷ e ∷ f ∷ []) ((==_iff y b':').0 l),
      );
    }

one-split :
    {c : Class} {p : Pattern} {m : Bytes}
    → Matches (one c ∷ p) m
    → (x : ℕ) × (r : Bytes) × (m ≡ x ∷ r) × (in_class c x ≡ true) × Matches p r
one-split (once {x = x} {m = m} t k) = (x, m, refl, t, k)

tail-IsDate :
    {m : Bytes} → Matches (many dot ∷ one day_class ∷ many dot ∷ time_pattern) m → IsDate m
tail-IsDate k =
    let (before, r, e, k₁) = many-split k in
    let (day, r', e', d, k₂) = one-split k₁ in
    let (between, time, e'', k₃) = many-split k₂ in
    record {
      before = before;
      day = day;
      between = between;
      time = time;
      splits = e ∙ ap (λ y. before ++ y) (e' ∙ ap (λ y. day ∷ y) e'');
      day_is_1_to_3 = day_of day d;
      is_time = time_pattern-IsTime k₃;
    }

behind_byte : (x : ℕ) {m r : Bytes} → m ≡ x ∷ r → IsDate r → IsDate m
behind_byte x e d = record {
  before = x ∷ d.before;
  day = d.day;
  between = d.between;
  time = d.time;
  splits = e ∙ ap (λ y. x ∷ y) d.splits;
  day_is_1_to_3 = d.day_is_1_to_3;
  is_time = d.is_time;
}

regex_search-IsDate : (line : Bytes) {m : Bytes} → regex_search date_regex line ≡ some m → IsDate m
regex_search-IsDate line h =
    let (a, r, e, x, k) = one-split (regex_search-Matches _ line h) in
    let (b, r', e', y, k') = one-split k in
    let (c, r'', e'', z, k'') = one-split k' in
    behind_byte a e (behind_byte b e' (behind_byte c e'' (tail-IsDate k'')))

-- The date `m` with its place in the line.
pub record IsDateOf (line m : Bytes) : Type 0 where
  pub ahead : Bytes
  pub behind : Bytes
  pub stands : c_str line ≡ ahead ++ (m ++ behind)
  pub is_date : IsDate m

found-IsDateOf :
    (line : Bytes) {m : Bytes} → regex_search date_regex line ≡ some m → IsDateOf line m
found-IsDateOf line h =
    let o = (regex_search-Leftmost date_regex line h).occurs in
    record { ahead = _; behind = o.behind; stands = o.splits; is_date = regex_search-IsDate line h }

-- The time that is kept for a line is empty, or it is a text that stands in the line up to its
-- first zero byte and consists of some text, a digit from 1 to 3, some text, and six digits with a
-- colon behind the second and the fourth.
pub date_of-IsDate : (line : Bytes) → (date_of line ≡ []) ⊎ IsDateOf line (date_of line)
date_of-IsDate line = elim (Option-cases (regex_search date_regex line)) [
  | inl e ↦ inl (rw e)
  | inr (m, e) ↦ inr (subst (IsDateOf line) (sym (ap str e)) (found-IsDateOf line e))
]
