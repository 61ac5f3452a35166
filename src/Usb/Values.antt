-- ===== src/Usb/Values.antt =====
-- The value behind a separator, as usb.cpp cuts it out of a match.
use storing_devices_logs_tfm.Base.{
  ℕ, zero, suc, append_assoc, ◌≤◌, true, Bool, not, ◌&&◌, ◌≡◌, refl, sym, ap, arith, [], ◌∷◌, ◌++◌,
  some, Bytes, done, length, take, drop, length-append, ◌==◌,
}
use storing_devices_logs_tfm.Usb.Text.{index_of, behind, substr, value_behind}

abbrev pub lacks : ℕ → Bytes → Bool
lacks c [] = true
lacks c (x ∷ s) = not (x == c) && lacks c s

index_of-append :
    (c : ℕ) (s t : Bytes) → lacks c s ≡ true → index_of c (s ++ c ∷ t) ≡ some (length s)
unfolding index_of
index_of-append c [] t h = ground arith
index_of-append c (x ∷ s) t h = ground (arith, index_of-append c s t)

drop-append : (s t : Bytes) → drop (length s) (s ++ t) ≡ t
drop-append [] t = refl
drop-append (x ∷ s) t = drop-append s t

take_all : (n : ℕ) (s : Bytes) → length s ≤ n → take n s ≡ s
take_all zero [] h = refl
take_all zero (x ∷ s) h = absurd (omega arith)
take_all (suc n) [] h = refl
take_all (suc n) (x ∷ s) h = ap (◌∷◌ x) (take_all n s (omega arith))

substr-append : (s t : Bytes) (n : ℕ) → length t ≤ n → substr (s ++ t) (length s) n ≡ done t
unfolding substr
substr-append s t n h = ground (arith, length-append s t, drop-append s t, take_all n t h)

at_length :
    (s t u : Bytes) (i n : ℕ) → s ≡ t ++ u → i ≡ length t → length u ≤ n → substr s i n ≡ done u
at_length s t u i n e k h = rw (e, k) (substr-append t u n h)

-- The separator is the byte that is looked for and what follows it, up to the value.
pub value_behind-append :
    (c : ℕ) (label separator v : Bytes)
    → lacks c label ≡ true
    → value_behind c (suc (length separator)) (label ++ (c ∷ (separator ++ v))) ≡ done v
unfolding value_behind behind
value_behind-append c label separator v h = rw (index_of-append c label (separator ++ v) h) (
    at_length _ (label ++ (c ∷ separator)) v _ _ (sym (append_assoc label (c ∷ separator) v))
      (omega (arith, length-append label (c ∷ separator)))
      (omega (arith, length-append label (c ∷ (separator ++ v)), length-append separator v)))
