-- ===== src/Server/Sound/Link.antt =====
-- The creations of files in src/name_server/CRWD.c and name_server.c in a sound state: each first
-- looks the name up, and links a new struct only where it is free.
use lang_os_distributed_file.Base.{
  ℕ, ◌≡◌, ◌<◌, ◌+◌, refl, ◌∙◌, some, none, ◌∷◌, Text, arith, length, ok, fault, buffer_overflow,
  false, if◌then◌else◌, Bool-cases, inl, inr, strcpy, ltb, ltb→lt, str_eq, str_eq_iff,
}
use lang_os_distributed_file.Table.{HashTable, ht_search, ht_insert}
use lang_os_distributed_file.Table.Laws.{search-insert, ht_insert-fits}
use lang_os_distributed_file.Server.{NameServer, FileMetadata, store, write, link_file}
use lang_os_distributed_file.Server.Sound.{IsSound, Extends, Upholds}
use lang_os_distributed_file.Server.Sound.Rules.{AreLive-ext}

-- The state with a file linked in under its name.
abbrev pub linked : NameServer → FileMetadata → HashTable ℕ → NameServer
linked s file table = record s {
  files = write s.files s.fresh (some file);
  fresh = s.fresh + 1;
  file_list = s.fresh ∷ s.file_list;
  file_hash_table = table;
}

module _ (s : NameServer) (file : FileMetadata) (v : IsSound s) where
  link_file-fits :
      (table : HashTable ℕ)
      → ht_insert s.file_hash_table file.filename s.fresh ≡ ok table
      → link_file file s ≡ ok (tt, linked s file table)
  unfolding link_file store
  link_file-fits table inserted = ground (arith, inserted)

  link_file-long : ltb (length file.filename) 100 ≡ false → link_file file s ≡ fault buffer_overflow
  unfolding link_file store ht_insert strcpy
  link_file-long long = ground (arith, long)

  linked-Extends : (table : HashTable ℕ) → Extends s (linked s file table)
  linked-Extends table p f at_p = (f, ground (arith, at_p, v.unused s.fresh (omega arith)), refl)

  linked-IsSound :
      (table : HashTable ℕ)
      → length file.filename < 100
      → ht_search s.file_hash_table file.filename ≡ none
      → ht_insert s.file_hash_table file.filename s.fresh ≡ ok table
      → IsSound (linked s file table)
  linked-IsSound table short free inserted =
      let finds : (name : Text)
          → ht_search table name ≡ (
              if str_eq file.filename name
              then some s.fresh
              else ht_search s.file_hash_table name) =
        λ name. search-insert s.file_hash_table file.filename name s.fresh inserted in
      record {
        entries = v.entries;
        cached = v.cached;
        agrees = λ name p held.
            ground (arith, finds name, v.agrees name p held, free, str_eq_iff file.filename name);
        named = λ name p found. elim (Bool-cases (str_eq file.filename name)) [
          | inl same ↦
              let is = (str_eq_iff file.filename name).0 same in
              (file, ground (arith, finds name, found, same), is, rw (← is) short)
          | inr other ↦
              let (f, at_p, is, fits) = v.named name p (ground (arith, finds name, found, other)) in
              let (g, at_g, is') = linked-Extends table p f at_p in (g, at_g, is' ∙ is, fits)
        ];
        live = (
          (file, ground arith),
          AreLive-ext s (linked s file table) s.file_list (linked-Extends table) v.live,
        );
        unused = λ p above. ground (arith, v.unused p (omega arith));
      }

  -- A file is linked under a free name.
  pub link_lem : ht_search s.file_hash_table file.filename ≡ none → Upholds s (link_file file s)
  link_lem free = elim (Bool-cases (ltb (length file.filename) 100)) [
    | inl fits ↦
        let short = ltb→lt _ _ fits in
        let (table, inserted) = ht_insert-fits s.file_hash_table file.filename s.fresh short in
        rw (link_file-fits table inserted)
          (linked-IsSound table short free inserted, linked-Extends table)
    | inr long ↦ rw (link_file-long long) (λ bad. cc)
  ]

-- A short and free name: the link succeeds, and the table finds the new file under it.
pub link_free :
    (s : NameServer) (file : FileMetadata)
    → IsSound s
    → length file.filename < 100
    → ht_search s.file_hash_table file.filename ≡ none
    → (table : HashTable ℕ) × (link_file file s ≡ ok (tt, linked s file table))
      × IsSound (linked s file table)
      × ((name : Text)
          → ht_search table name ≡ (
              if str_eq file.filename name then some s.fresh else ht_search s.file_hash_table name))
link_free s file v short free =
    let (table, inserted) = ht_insert-fits s.file_hash_table file.filename s.fresh short in
    (
      table,
      link_file-fits s file v table inserted,
      linked-IsSound s file v table short free inserted,
      λ name. search-insert s.file_hash_table file.filename name s.fresh inserted,
    )
