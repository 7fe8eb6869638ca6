-- ===== src/Cache/Recall.antt =====
-- What the ideal cache still finds after a use: nothing that it did not find before, but the name
-- that is put.
use lang_os_distributed_file.Base.{
  ℕ, ◌≡◌, refl, some, none, [], ◌∷◌, Text, arith, str_eq, ◌==◌, length, str_eq_iff, str_eq_refl,
  true, false, Option-cases, Bool-cases, inl, inr, ◌⊎◌,
}
use lang_os_distributed_file.Cache.{cache_size}
use lang_os_distributed_file.Cache.Ideal.{Recent, file_of, without, touch, admit, drop_last}

file_of-without :
    (key name : Text) (m : Recent)
    → str_eq key name ≡ false
    → file_of name (without key m) ≡ file_of name m
unfolding file_of without
file_of-without key name [] other = refl
file_of-without key name ((k, file) ∷ m) other =
    ground
      (arith, str_eq_iff k key, str_eq_iff k name, str_eq_iff key name, file_of-without key name m)

-- A get changes the order alone.
pub file_of-touch : (key name : Text) (m : Recent) → file_of name (touch key m) ≡ file_of name m
unfolding touch
file_of-touch key name m = elim (Option-cases (file_of key m)) [
  | inl absent ↦ ground (arith, absent)
  | inr (file, found) ↦
      let same : str_eq key name ≡ true → file_of name m ≡ some file =
        λ e. rw (← (str_eq_iff key name).0 e) found in
      elim (Bool-cases (str_eq key name)) [
        | inl e ↦ ground (arith, found, e, same e)
        | inr other ↦ ground (arith, found, other, file_of-without key name m other)
      ]
]

file_of-drop_last :
    (name : Text) (m : Recent) (p : ℕ)
    → file_of name (drop_last m) ≡ some p
    → file_of name m ≡ some p
unfolding file_of drop_last
file_of-drop_last name [] p h = cc
file_of-drop_last name (e ∷ []) p h = cc
file_of-drop_last name ((k, file) ∷ f ∷ m) p h = ground (arith, h, file_of-drop_last name (f ∷ m) p)

-- A put of a new name adds that name with its file.
pub file_of-admit :
    (file : ℕ) (name other : Text) (m : Recent) (p : ℕ)
    → file_of name m ≡ none
    → file_of other (admit file name m) ≡ some p
    → ((name ≡ other) × (file ≡ p)) ⊎ (file_of other m ≡ some p)
unfolding admit
file_of-admit file name other m p absent h = elim (Bool-cases (str_eq name other)) [
  | inl same ↦ inl ((str_eq_iff name other).0 same, ground (arith, h, absent, same))
  | inr differ ↦ elim (Bool-cases (length m == cache_size)) [
    | inl full ↦ inr (file_of-drop_last other m p (ground (arith, h, absent, differ, full)))
    | inr room ↦ inr (ground (arith, h, absent, differ, room))
  ]
]

pub file_of-admit_self :
    (file : ℕ) (name : Text) (m : Recent)
    → file_of name m ≡ none
    → file_of name (admit file name m) ≡ some file
unfolding admit
file_of-admit_self file name m absent = ground (arith, absent, str_eq_refl name)
