-- ===== src/Base/Faults.antt =====
-- What a piece of C++ can do besides return: reach undefined behaviour, or throw.
use mathlib.Core.Path.{◌≡◌, refl, sym, ap, ◌∙◌, subst}
use mathlib.Core.Option.{Option, none, some}

pub data Fault : Type 0 where
  -- An iterator that is `end()`, or whose element was erased, is dereferenced or advanced.
  invalid_iterator : Fault
  -- A variable is read that nothing has written.
  uninitialised : Fault
  -- `std::out_of_range`, thrown by `substr`.
  out_of_range : Fault
  -- An array or a string is read outside its bounds.
  bad_index : Fault

pub data Outcome {ℓ} (A : Type ℓ) : Type ℓ where
  done : A → Outcome A
  fault : Fault → Outcome A

infixl 5 ◌>>=◌
abbrev pub ◌>>=◌ {ℓ κ} : {A : Type ℓ} {B : Type κ} → Outcome A → (A → Outcome B) → Outcome B
done a >>= f = f a
fault e >>= f = fault e

abbrev pub or_fault {ℓ} : {A : Type ℓ} → Option A → Fault → Outcome A
or_fault none e = fault e
or_fault (some a) e = done a

-- The run returns a value, and the value satisfies `P`.
abbrev pub Returns {ℓ} : {A : Type ℓ} → (A → Type 0) → Outcome A → Type 0
Returns P (done a) = P a
Returns P (fault e) = ⊥

pub >>=-eq-done {ℓ κ} :
    {A : Type ℓ} {B : Type κ} (m : Outcome A) (f : A → Outcome B) {b : B}
    → m >>= f ≡ done b
    → (a : A) × (m ≡ done a) × (f a ≡ done b)
>>=-eq-done (done a) f h = (a, refl, h)
>>=-eq-done (fault e) f h = cc

-- The run returns a value of which `P` holds, or reads an unwritten variable, and then `Q` holds.
abbrev pub Ends {ℓ} : {A : Type ℓ} → (A → Type 0) → Type 0 → Outcome A → Type 0
Ends P Q (done a) = P a
Ends P Q (fault uninitialised) = Q
Ends P Q (fault _) = ⊥

pub Ends-bind {ℓ κ} :
    {A : Type ℓ} {B : Type κ} (P : A → Type 0) (R : B → Type 0) (Q : Type 0) (m : Outcome A)
    (f : A → Outcome B)
    → Ends P Q m
    → ((a : A) → P a → Ends R Q (f a))
    → Ends R Q (m >>= f)
Ends-bind P R Q (done a) f h k = k a h
Ends-bind P R Q (fault uninitialised) f h k = h
Ends-bind P R Q (fault _) f h k = h

pub Ends-done {ℓ} :
    {A : Type ℓ} (P : A → Type 0) (Q : Type 0) {m : Outcome A} {a : A}
    → m ≡ done a
    → P a
    → Ends P Q m
Ends-done P Q e h = subst (Ends P Q) (sym e) h

pub Ends-map {ℓ} :
    {A : Type ℓ} (P R : A → Type 0) (Q : Type 0) (m : Outcome A)
    → ((a : A) → P a → R a)
    → Ends P Q m
    → Ends R Q m
Ends-map P R Q (done a) f h = f a h
Ends-map P R Q (fault uninitialised) f h = h
Ends-map P R Q (fault _) f h = h

pub Ends-weaken {ℓ} :
    {A : Type ℓ} (P : A → Type 0) (Q R : Type 0) (m : Outcome A) → (Q → R) → Ends P Q m → Ends P R m
Ends-weaken P Q R (done a) f h = h
Ends-weaken P Q R (fault uninitialised) f h = f h
Ends-weaken P Q R (fault _) f h = h

pub >>=-assoc {ℓ κ μ} :
    {A : Type ℓ} {B : Type κ} {C : Type μ} (m : Outcome A) (f : A → Outcome B) (g : B → Outcome C)
    → (m >>= f) >>= g ≡ m >>= λ a. f a >>= g
>>=-assoc (done a) f g = refl
>>=-assoc (fault e) f g = refl

pub >>=-ap {ℓ κ} :
    {A : Type ℓ} {B : Type κ} (m : Outcome A) {f g : A → Outcome B}
    → ((a : A) → f a ≡ g a)
    → m >>= f ≡ m >>= g
>>=-ap (done a) h = h a
>>=-ap (fault e) h = refl

abbrev pub Finishes {ℓ} : {A : Type ℓ} → Outcome A → Type ℓ
Finishes {A = A} m = (a : A) × (m ≡ done a)

pub Finishes-bind {ℓ κ} :
    {A : Type ℓ} {B : Type κ} (m : Outcome A) (f : A → Outcome B)
    → Finishes m
    → ((a : A) → Finishes (f a))
    → Finishes (m >>= f)
Finishes-bind m f (a, e) h = let (b, k) = h a in (b, ap (λ x. x >>= f) e ∙ k)

pub Finishes-first {ℓ κ} :
    {A : Type ℓ} {B : Type κ} (m : Outcome A) (f : A → Outcome B) → Finishes (m >>= f) → Finishes m
Finishes-first m f (b, e) = let (a, k, h) = >>=-eq-done m f e in (a, k)

-- A run that meets no unwritten variable returns a value.
pub Ends-Finishes {ℓ} :
    {A : Type ℓ} (P : A → Type 0) (Q : Type 0) (m : Outcome A) → Ends P (¬ Q) m → Q → Finishes m
Ends-Finishes P Q (done a) h q = (a, refl)
Ends-Finishes P Q (fault uninitialised) h q = absurd (h q)
Ends-Finishes P Q (fault _) h q = absurd h
