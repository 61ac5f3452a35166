-- ===== src/Disk/Set.antt =====
-- The set of getDisksSet against the paths that the entries of /dev name.
use storing_devices_logs_tfm.Base.{
  true, ◌≡◌, refl, ap, ◌∙◌, arith, ◌⊎◌, inl, inr, ◌↔◌, List, [], ◌∷◌, Option, none, some, Bytes,
  less, less_trans, less_total, subst,
}
use storing_devices_logs_tfm.Regex.{regex_search}
use storing_devices_logs_tfm.Disk.Names.{
  sd_regex, insert, dev, add_found, add_entries, get_disks_set,
}

abbrev pub Ahead : Bytes → List Bytes → Type 0
Ahead k [] = Unit
Ahead k (j ∷ s) = (less k j ≡ true) × Ahead k s

-- Strictly increasing, so without repetition.
abbrev pub IsIncreasing : List Bytes → Type 0
IsIncreasing [] = Unit
IsIncreasing (k ∷ s) = Ahead k s × IsIncreasing s

pub Ahead-trans : (j k : Bytes) (s : List Bytes) → less j k ≡ true → Ahead k s → Ahead j s
Ahead-trans j k [] h a = tt
Ahead-trans j k (i ∷ s) h a = (less_trans j k i h a.0, Ahead-trans j k s h a.1)

insert-Ahead : (j k : Bytes) (s : List Bytes) → less j k ≡ true → Ahead j s → Ahead j (insert k s)
unfolding insert
insert-Ahead j k [] h a = (h, tt)
insert-Ahead j k (i ∷ s) h a = ground (arith, insert-Ahead j k s h a.1)

insert-IsIncreasing : (k : Bytes) (s : List Bytes) → IsIncreasing s → IsIncreasing (insert k s)
unfolding insert
insert-IsIncreasing k [] s = (tt, tt)
insert-IsIncreasing k (i ∷ s) h =
    ground (arith, insert-IsIncreasing k s h.1, insert-Ahead i k s, Ahead-trans k i s)

abbrev pub Has : Bytes → List Bytes → Type 0
Has k [] = ⊥
Has k (j ∷ s) = (j ≡ k) ⊎ Has k s

-- An entry names the path `k`.
abbrev pub IsNamed : Bytes → List Bytes → Type 0
IsNamed k [] = ⊥
IsNamed k (entry ∷ entries) =
    ((m : Bytes) × (regex_search sd_regex entry ≡ some m) × (dev m ≡ k)) ⊎ IsNamed k entries

Has-insert : (k j : Bytes) (s : List Bytes) → Has k (insert j s) → (j ≡ k) ⊎ Has k s
unfolding insert
Has-insert k j [] h = h
Has-insert k j (i ∷ s) h = ground (arith, Has-insert k j s)

Has-insert_self : (j : Bytes) (s : List Bytes) → Has j (insert j s)
unfolding insert
Has-insert_self j [] = inl refl
Has-insert_self j (i ∷ s) = ground (arith, Has-insert_self j s, less_total j i)

Has-insert_old : (k j : Bytes) (s : List Bytes) → Has k s → Has k (insert j s)
unfolding insert
Has-insert_old k j (i ∷ s) h = ground (arith, Has-insert_old k j s)
Has-insert_old k j [] h = absurd h

add_found-IsIncreasing :
    (o : Option Bytes) (s : List Bytes) → IsIncreasing s → IsIncreasing (add_found o s)
unfolding add_found
add_found-IsIncreasing none s h = h
add_found-IsIncreasing (some m) s h = insert-IsIncreasing (dev m) s h

add_entries-IsIncreasing :
    (s entries : List Bytes) → IsIncreasing s → IsIncreasing (add_entries s entries)
unfolding add_entries
add_entries-IsIncreasing s [] h = h
add_entries-IsIncreasing s (e ∷ entries) h =
    add_entries-IsIncreasing (add_found (regex_search sd_regex e) s) entries
      (add_found-IsIncreasing (regex_search sd_regex e) s h)

-- The path of one entry, or one that was there before.
abbrev Adds : Bytes → Option Bytes → Type 0
Adds k o = (m : Bytes) × (o ≡ some m) × (dev m ≡ k)

Has-add_found :
    (k : Bytes) (o : Option Bytes) (s : List Bytes) → Has k (add_found o s) → Adds k o ⊎ Has k s
unfolding add_found
Has-add_found k none s h = inr h
Has-add_found k (some m) s h = elim (Has-insert k (dev m) s h) [
  | inl e ↦ inl (m, refl, e)
  | inr h ↦ inr h
]

add_found-Has :
    (k : Bytes) (o : Option Bytes) (s : List Bytes) → Adds k o ⊎ Has k s → Has k (add_found o s)
unfolding add_found
add_found-Has k none s (inl (m, e, _)) = absurd (cc)
add_found-Has k none s (inr h) = h
add_found-Has k (some m) s (inl (m', e, n)) =
    let same : m ≡ m' = cc in
    subst (λ x. Has x (insert (dev m) s)) (ap dev same ∙ n) (Has-insert_self (dev m) s)
add_found-Has k (some m) s (inr h) = Has-insert_old k (dev m) s h

Has-add_entries :
    (k : Bytes) (s entries : List Bytes)
    → Has k (add_entries s entries) ↔ (IsNamed k entries ⊎ Has k s)
unfolding add_entries
Has-add_entries k s [] = (inr, λ h. elim h [ inl x ↦ absurd x | inr y ↦ y ])
Has-add_entries k s (e ∷ entries) =
    let o = regex_search sd_regex e in
    let (there, back) = Has-add_entries k (add_found o s) entries in
    (
      λ h. elim (there h) [
        | inl n ↦ inl (inr n)
        | inr h ↦ elim (Has-add_found k o s h) [ inl a ↦ inl (inl a) | inr h ↦ inr h ]
      ],
      λ h. elim h [
        | inl (inl a) ↦ back (inr (add_found-Has k o s (inl a)))
        | inl (inr n) ↦ back (inl n)
        | inr h ↦ back (inr (add_found-Has k o s (inr h)))
      ],
    )

-- The set of getDisksSet is in order with no path twice, and a path is in it exactly if some entry
-- of /dev names it.
pub get_disks_set-IsNamed :
    (entries : List Bytes)
    → IsIncreasing (get_disks_set (some entries))
      × ((k : Bytes) → Has k (get_disks_set (some entries)) ↔ IsNamed k entries)
unfolding get_disks_set
get_disks_set-IsNamed entries = (
  add_entries-IsIncreasing [] entries tt,
  λ k.
      let (there, back) = Has-add_entries k [] entries in
      (λ h. elim (there h) [ inl n ↦ n | inr x ↦ absurd x ], λ n. back (inl n)),
)
