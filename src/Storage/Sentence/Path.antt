-- ===== src/Storage/Sentence/Path.antt =====
-- Where `get_safe_path` leads.
use lang_os_distributed_file.Base.{
  ℕ, ◌≤◌, true, false, [], ◌∷◌, ◌++◌, Text, ◌≡◌, arith, lit, length, take, contains, before,
  starts_with, contains-take, Bool-cases, inl, inr, ◌⊎◌, take_of_length-le,
}
use lang_os_distributed_file.Storage.Sentence.{get_safe_path}

-- A prefix that holds no dot adds no "..".
dots-prefix :
    (s : Text) → contains s (lit "..") ≡ false → contains (lit "ss_files/" ++ s) (lit "..") ≡ false
unfolding contains before starts_with
dots-prefix s h = ground (arith, h)

false_of-take : (n : ℕ) (s p : Text) → contains s p ≡ false → contains (take n s) p ≡ false
false_of-take n s p h = elim (Bool-cases (contains (take n s) p)) [
  | inl e ↦ ground (arith, contains-take n s p e, h)
  | inr e ↦ e
]

-- A path that `get_safe_path` makes is empty, or begins with the root directory and a slash, and it
-- never has ".." in it; it is empty exactly for the names with "..".
pub safe_path-stays :
    (filename : Text)
    → (contains (get_safe_path filename) (lit "..") ≡ false)
      × (((contains filename (lit "..") ≡ true) × (get_safe_path filename ≡ []))
          ⊎ ((contains filename (lit "..") ≡ false)
              × (starts_with (get_safe_path filename) (lit "ss_files/") ≡ true)))
unfolding get_safe_path
safe_path-stays filename = elim (Bool-cases (contains filename (lit ".."))) [
  | inl e ↦ (unfold contains before starts_with in ground (arith, e), inl (e, ground (arith, e)))
  | inr e ↦ (
    ground (
      arith,
      e,
      false_of-take 255 (lit "ss_files/" ++ filename) (lit "..") (dots-prefix filename e),
    ),
    inr (e, unfold starts_with in ground (arith, e)),
  )
]

append-cancel : (s t u : Text) → s ++ t ≡ s ++ u → t ≡ u
append-cancel [] t u h = h
append-cancel (c ∷ s) t u h = append-cancel s t u (ground (arith, h))

-- Two names without ".." of at most 246 bytes have different paths.
pub safe_path-injective :
    (a b : Text)
    → contains a (lit "..") ≡ false
    → contains b (lit "..") ≡ false
    → length a ≤ 246
    → length b ≤ 246
    → get_safe_path a ≡ get_safe_path b
    → a ≡ b
unfolding get_safe_path
safe_path-injective a b ha hb la lb h = append-cancel (lit "ss_files/") a b (
    ground (
      arith,
      h,
      ha,
      hb,
      take_of_length-le 255 (lit "ss_files/" ++ a) (omega arith),
      take_of_length-le 255 (lit "ss_files/" ++ b) (omega arith),
    ))
