-- ===== src/Server/Sound.antt =====
-- When the pointers of the Name Server's globals agree (src/name_server/CRWD.c): no pointer of the
-- file list, of the hash table or of the cache is dangling. The rules below carry this through the
-- handlers.
pub mod Search
pub mod Rules
pub mod Save
pub mod Link
pub mod Peer
pub mod Creates
pub mod Asks
pub mod Tells
pub mod Changes
pub mod Threads
use lang_os_distributed_file.Base.{
  ℕ, ◌≡◌, ◌≢◌, ◌≤◌, ◌<◌, refl, sym, ◌∙◌, Option, some, none, List, [], ◌∷◌, Text, arith, length,
  Exec, Run, ok, fault, blocked, use_after_free, Fault, Bool, true, false, if◌then◌else◌, ◌>>=◌,
  ◌==◌, pure,
}
use lang_os_distributed_file.Table.{ht_search}
use lang_os_distributed_file.Cache.Order.{Entry}
use lang_os_distributed_file.Cache.Shape.{Represents}
use lang_os_distributed_file.Cache.Ideal.{file_of, contents}
use lang_os_distributed_file.Server.{NameServer, FileMetadata, load, store, write}

-- Every file of the list exists.
abbrev pub AreLive : (ℕ → Option FileMetadata) → List ℕ → Type 0
AreLive files [] = Unit
AreLive files (p ∷ ps) = ((f : FileMetadata) × (files p ≡ some f)) × AreLive files ps

-- The cache is well formed and agrees with the table; what the table finds under a name is a file
-- of that name; the listed files exist; and no file stands where the next one will.
pub record IsSound (s : NameServer) : Type 0 where
  pub entries : List Entry
  pub cached : Represents s.file_cache entries
  pub agrees :
      (name : Text) (p : ℕ)
      → file_of name (contents entries) ≡ some p
      → ht_search s.file_hash_table name ≡ some p
  pub named :
      (name : Text) (p : ℕ)
      → ht_search s.file_hash_table name ≡ some p
      → (f : FileMetadata) × (s.files p ≡ some f) × (f.filename ≡ name) × (length name < 100)
  pub live : AreLive s.files s.file_list
  pub unused : (p : ℕ) → s.fresh ≤ p → s.files p ≡ none

-- Every file of `s` still exists in `t`, under the same name.
abbrev pub Extends : NameServer → NameServer → Type 0
Extends s t =
    (p : ℕ) (f : FileMetadata)
    → s.files p ≡ some f
    → (g : FileMetadata) × (t.files p ≡ some g) × (g.filename ≡ f.filename)

-- How a run from `s` ends: in a sound state in which no file is gone, or in a fault that is not the
-- use of freed memory, or blocked.
abbrev pub Upholds : {A : Type 0} → NameServer → Run (A × NameServer) → Type 0
Upholds s (ok (a, t)) = IsSound t × Extends s t
Upholds s (fault e) = e ≢ use_after_free
Upholds s blocked = Unit

-- Code that does so from every sound state.
abbrev pub Keeps : {A : Type 0} → Exec NameServer A → Type 0
Keeps m = (s : NameServer) → IsSound s → Upholds s (m s)

pub Extends-trans : (s t u : NameServer) → Extends s t → Extends t u → Extends s u
Extends-trans s t u h k p f at_p =
    let (g, at_g, named) = h p f at_p in
    let (g', at_g', named') = k p g at_g in (g', at_g', named' ∙ named)

pub Upholds-trans :
    {A : Type 0} (s t : NameServer) (r : Run (A × NameServer))
    → Extends s t
    → Upholds t r
    → Upholds s r
Upholds-trans s t (ok (a, u)) h (sound, k) = (sound, Extends-trans s t u h k)
Upholds-trans s t (fault e) h k = k
Upholds-trans s t blocked h k = k

pub Upholds-bind :
    {A B : Type 0} (s : NameServer) (m : Exec NameServer A) (k : A → Exec NameServer B)
    → Upholds s (m s)
    → ((a : A) (t : NameServer) → m s ≡ ok (a, t) → IsSound t → Extends s t → Upholds t (k a t))
    → Upholds s ((m >>= k) s)
Upholds-bind {A} {B} s m k first second = after (m s) refl first
  where
    after :
        (r : Run (A × NameServer))
        → m s ≡ r
        → Upholds s r
        → Upholds s (elim r as (λ r. Run (B × NameServer)) [
          | ok (a, t) ↦ k a t
          | fault e ↦ fault e
          | blocked ↦ blocked
        ])
    after (ok (a, t)) e (sound, h) = Upholds-trans s t (k a t) h (second a t e sound h)
    after (fault e) _ h = h
    after blocked _ h = h

pub Keeps-bind :
    {A B : Type 0} (m : Exec NameServer A) (k : A → Exec NameServer B)
    → Keeps m
    → ((a : A) → Keeps (k a))
    → Keeps (m >>= k)
Keeps-bind m k first second s sound =
    Upholds-bind s m k (first s sound) (λ a t _ sound _. second a t sound)

pub Extends-refl : (s : NameServer) → Extends s s
Extends-refl s p f at_p = (f, at_p, refl)

pub Keeps-pure : {A : Type 0} (a : A) → Keeps (pure a)
Keeps-pure a s sound = (sound, Extends-refl s)

pub Keeps-if :
    {A : Type 0} (b : Bool) (m k : Exec NameServer A)
    → Keeps m
    → Keeps k
    → Keeps (if b then m else k)
Keeps-if true m k p q = p
Keeps-if false m k p q = q

pub Upholds-if :
    {A : Type 0} (s : NameServer) (b : Bool) (r r' : Run (A × NameServer))
    → Upholds s r
    → Upholds s r'
    → Upholds s (if b then r else r')
Upholds-if s true r r' p q = p
Upholds-if s false r r' p q = q

pub Upholds-test :
    {A : Type 0} (s : NameServer) (b : Bool) (m k : Exec NameServer A)
    → Upholds s (m s)
    → Upholds s (k s)
    → Upholds s ((if b then m else k) s)
Upholds-test s true m k p q = p
Upholds-test s false m k p q = q

-- A split on an option, of code and of the run of code.
pub Upholds-case :
    {A B : Type 0} (s : NameServer) (o : Option B) (m : Exec NameServer A)
    (k : B → Exec NameServer A)
    → Upholds s (m s)
    → ((b : B) → Upholds s (k b s))
    → Upholds s ((elim o as (λ _. Exec NameServer A) [ none ↦ m | some b ↦ k b ]) s)
Upholds-case s none m k p q = p
Upholds-case s (some b) m k p q = q b

pub Upholds-case_run :
    {A B : Type 0} (s : NameServer) (o : Option B) (r : Run (A × NameServer))
    (k : B → Run (A × NameServer))
    → Upholds s r
    → ((b : B) → Upholds s (k b))
    → Upholds s (elim o as (λ _. Run (A × NameServer)) [ none ↦ r | some b ↦ k b ])
Upholds-case_run s none r k p q = p
Upholds-case_run s (some b) r k p q = q b
