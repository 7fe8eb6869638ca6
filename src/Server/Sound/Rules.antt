-- ===== src/Server/Sound/Rules.antt =====
-- Sound states are kept by the steps that the handlers of src/name_server/CRWD.c are made of.
use lang_os_distributed_file.Base.{
  ℕ, ◌≡◌, ◌≢◌, refl, sym, ◌∙◌, Option, some, none, List, [], ◌∷◌, Text, arith, Exec, Run, ok, fault,
  blocked, use_after_free, null_pointer, ◌>>=◌, ◌==◌, pure, lift, raise, and_then, Bool-cases,
  Option-cases, inl, inr, strcpy, strcat,
}
use lang_os_distributed_file.Table.{ht_search}
use lang_os_distributed_file.Server.{
  NameServer, FileMetadata, StorageServer, Disk, User, load, store, write, target_ss,
}
use lang_os_distributed_file.Server.Find.{find_file, with_file}
use lang_os_distributed_file.Server.Find.Frame.{with_cache}
use lang_os_distributed_file.Server.Sound.{
  AreLive, IsSound, Extends, Extends-refl, Upholds, Keeps, Upholds-bind,
}
use lang_os_distributed_file.Server.Sound.Search.{find_file_lem}

-- Code that never reads freed memory.
abbrev pub Clean : {A : Type 0} → Run A → Type 0
Clean r = r ≢ fault use_after_free

pub Clean-and_then :
    {A B : Type 0} (r : Run A) (f : A → Run B)
    → Clean r
    → ((a : A) → Clean (f a))
    → Clean (and_then r f)
Clean-and_then (ok a) f h k = k a
Clean-and_then (fault e) f h k = λ bad. h (cc)
Clean-and_then blocked f h k = λ bad. cc

pub Clean-ok : {A : Type 0} (a : A) → Clean (ok a)
Clean-ok a bad = cc

pub Keeps-lift : {A : Type 0} (r : Run A) → Clean r → Keeps (lift r)
Keeps-lift (ok a) h s sound = (sound, Extends-refl s)
Keeps-lift (fault e) h s sound = λ bad. h (cc)
Keeps-lift blocked h s sound = tt

pub Clean-strcpy : (size : ℕ) (t : Text) → Clean (strcpy size t)
unfolding strcpy
Clean-strcpy size t = ground arith

pub Clean-strcat : (size : ℕ) (buf t : Text) → Clean (strcat size buf t)
unfolding strcat
Clean-strcat size buf t = ground arith

pub Keeps-target_ss : (file : FileMetadata) → Keeps (target_ss file)
Keeps-target_ss file s sound = at file.ss
  where
    at :
        (ss : Option StorageServer)
        → Upholds s (
            (elim ss as (λ _. Exec NameServer StorageServer) [
              | none ↦ raise null_pointer
              | some ss ↦ pure ss
            ])
              s)
    at none = λ bad. cc
    at (some ss) = (sound, Extends-refl s)

-- The fields that hold no pointer to a file may change.
pub IsSound-outer :
    (s : NameServer) (disk : Disk) (users : List User) (servers : List StorageServer)
    → IsSound s
    → IsSound (record s { disk = disk; user_list = users; ss_list = servers })
IsSound-outer s disk users servers v = record {
  entries = v.entries;
  cached = v.cached;
  agrees = v.agrees;
  named = v.named;
  live = v.live;
  unused = v.unused;
}

AreLive-write :
    (files : ℕ → Option FileMetadata) (p : ℕ) (g : FileMetadata) (ps : List ℕ)
    → AreLive files ps
    → AreLive (write files p (some g)) ps
AreLive-write files p g [] live = tt
AreLive-write files p g (q ∷ ps) ((f, at_q), live) = (
  elim (Bool-cases (q == p)) [ inl e ↦ (g, rw e refl) | inr e ↦ (f, rw (e, at_q) refl) ],
  AreLive-write files p g ps live,
)

-- A change of a file that keeps its name.
pub store_lem :
    (s : NameServer) (p : ℕ) (file g : FileMetadata)
    → IsSound s
    → s.files p ≡ some file
    → g.filename ≡ file.filename
    → Upholds s (store p g s)
unfolding store
store_lem s p file g v at_p same =
    let grown : Extends s (record s { files = write s.files p (some g) }) = λ q f at_q.
      elim (Bool-cases (q == p)) [
        | inl e ↦ (g, rw e refl, ground (arith, at_p, at_q, same, e))
        | inr e ↦ (f, rw (e, at_q) refl, refl)
      ] in
    (
      record {
        entries = v.entries;
        cached = v.cached;
        agrees = v.agrees;
        named = λ name q found.
            let (f, at_q, is, short) = v.named name q found in
            let (f', at_q', is') = grown q f at_q in (f', at_q', is' ∙ is, short);
        live = AreLive-write s.files p g s.file_list v.live;
        unused = λ q above. ground (arith, v.unused q, at_p);
      },
      grown,
    )

pub load_lem :
    (s : NameServer) (p : ℕ) (file : FileMetadata) → s.files p ≡ some file → load p s ≡ ok (file, s)
unfolding load
load_lem s p file at_p = ground (arith, at_p)

ok_pair :
    {A : Type 0} (a b : A) (s t : NameServer)
    → (let x : Run (A × NameServer) = ok (a, s) in x ≡ ok (b, t))
    → (a ≡ b) × (s ≡ t)
ok_pair a b s t h = (cc, cc)

pub Keeps-find_file : (filename : Text) → Keeps (find_file filename)
Keeps-find_file filename s sound =
    let l = find_file_lem s filename sound in rw l.finds (l.sound, λ p f at_p. (f, at_p, refl))

pub Upholds-load :
    {A : Type 0} (s : NameServer) (p : ℕ) (file : FileMetadata)
    (k : FileMetadata → Exec NameServer A)
    → s.files p ≡ some file
    → Upholds s (k file s)
    → Upholds s ((load p >>= k) s)
Upholds-load {A} s p file k at_p h = after (load p s) (load_lem s p file at_p)
  where
    after :
        (r : Run (FileMetadata × NameServer))
        → r ≡ ok (file, s)
        → Upholds s (elim r as (λ r. Run (A × NameServer)) [
          | ok (a, t) ↦ k a t
          | fault e ↦ fault e
          | blocked ↦ blocked
        ])
    after (ok (a, t)) e = let (same, at) = ok_pair a file t s e in rw (same, at) h
    after (fault _) e = cc
    after blocked e = cc

-- What follows a lookup runs with a free name, or with a file that exists.
pub Upholds-lookup :
    {A : Type 0} (filename : Text) (k : Option ℕ → Exec NameServer A) (s : NameServer)
    → IsSound s
    → ((t : NameServer)
        → IsSound t
        → ht_search t.file_hash_table filename ≡ none
        → Upholds t (k none t))
    → ((t : NameServer) (p : ℕ) (file : FileMetadata)
        → IsSound t
        → t.files p ≡ some file
        → Upholds t (k (some p) t))
    → Upholds s ((find_file filename >>= k) s)
Upholds-lookup filename k s sound missed found =
    let l = find_file_lem s filename sound in
    let t = with_cache s l.cache in
    Upholds-bind s (find_file filename) k (Keeps-find_file filename s sound) λ r t' ran sound' _.
      let (same, at) = ok_pair r (ht_search s.file_hash_table filename) t' t (sym ran ∙ l.finds) in
      elim (Option-cases (ht_search s.file_hash_table filename)) [
        | inl absent ↦ rw (same, absent) (missed t' sound' (rw at absent))
        | inr (p, at_p) ↦
            let (f, here, _, _) = sound.named filename p at_p in
            rw (same, at_p) (found t' p f sound' (rw at here))
      ]

-- A handler that looks up its file goes on with a file that exists.
pub Keeps-with_file :
    (filename : Text) (missing : Exec NameServer Text) (k : ℕ → FileMetadata → Exec NameServer Text)
    → Keeps missing
    → ((p : ℕ) (file : FileMetadata) (s : NameServer)
        → IsSound s
        → s.files p ≡ some file
        → Upholds s (k p file s))
    → Keeps (with_file filename missing k)
unfolding with_file
Keeps-with_file filename missing k hm hk s sound =
    Upholds-lookup filename _ s sound (λ t sound' _. hm t sound')
      λ t p file sound' at_p. Upholds-load t p file (k p) at_p (hk p file t sound' at_p)

pub AreLive-ext :
    (s t : NameServer) (ps : List ℕ) → Extends s t → AreLive s.files ps → AreLive t.files ps
AreLive-ext s t [] h live = tt
AreLive-ext s t (p ∷ ps) h ((f, at_p), live) =
    let (g, at_g, _) = h p f at_p in ((g, at_g), AreLive-ext s t ps h live)
