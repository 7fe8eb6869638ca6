-- ===== src/Storage/Commit/Copy.antt =====
-- `copy_file` of src/storage_server/storage_server.c.
use lang_os_distributed_file.Base.{
  some, true, false, [], ◌∷◌, Text, ok, ◌≡◌, ◌≢◌, arith, ◌==◌, str_eq, str_eq_refl,
}
use lang_os_distributed_file.Storage.Fs.{Node, file, Fs, node_at, put_node, has_place, write_file}
use lang_os_distributed_file.Storage.Fs.Laws.{is_directory, node_at-put_node, write_file-put_node}
use lang_os_distributed_file.Storage.Commit.{make_parents, copy_file}
use lang_os_distributed_file.Storage.Commit.Parents.{
  CanHold, is_free, is_clear, no_parent, make_parents-place, make_parents-elsewhere,
  make_parents-Keeps, ensure-makes, ensure_lem,
}

-- A file is copied to a path that can hold one, whether its directories exist already or not: the
-- target then has its content, everything else that existed is as it was.
pub copy_file_lem :
    (fs : Fs) (src content dest : Text)
    → node_at fs src ≡ some (file content)
    → CanHold fs dest
    → (fs' : Fs) × (copy_file fs src dest ≡ ok (true, fs'))
      × (node_at fs' dest ≡ some (file content))
      × ((q : Text) (node : Node)
          → str_eq dest q ≡ false
          → node_at fs q ≡ some node
          → node_at fs' q ≡ some node)
unfolding copy_file is_free
copy_file_lem fs src content [] at_src can = absurd (cc can.free)
copy_file_lem fs src content (c ∷ rest) at_src can =
    let relative : (c == b'/') ≡ false = ground (arith, can.free) in
    let clear : is_clear fs (c ∷ []) rest ≡ true = ground (arith, can.free) in
    let fs₁ = make_parents fs (c ∷ []) rest in
    let made = ensure-makes fs c rest (omega (arith, can.short)) can.ends in
    let top : has_place fs (c ∷ []) ≡ true =
      unfold has_place in ground (arith, no_parent c relative) in
    let place = make_parents-place rest c [] fs top clear in
    let same = make_parents-elsewhere rest (c ∷ []) (c ∷ rest) fs (omega arith) in
    let free : is_directory (node_at fs₁ (c ∷ rest)) ≡ false = rw same can.no_directory in
    let wrote = write_file-put_node fs₁ (c ∷ rest) content free place in
    (
      put_node fs₁ (c ∷ rest) (file content),
      ground (arith, at_src, made, wrote),
      ground (
        arith,
        node_at-put_node fs₁ (c ∷ rest) (c ∷ rest) (file content),
        str_eq_refl (c ∷ rest),
      ),
      λ q node other at_q. ground (
        arith,
        node_at-put_node fs₁ (c ∷ rest) q (file content),
        other,
        make_parents-Keeps rest (c ∷ []) fs q node at_q,
      ),
    )

-- A file is copied over another one.
pub copy_over :
    (fs : Fs) (src dest content old : Text)
    → node_at fs src ≡ some (file content)
    → dest ≢ []
    → node_at fs dest ≡ some (file old)
    → (fs' : Fs) × (copy_file fs src dest ≡ ok (true, fs'))
      × (node_at fs' dest ≡ some (file content))
      × ((q : Text) (node : Node)
          → str_eq dest q ≡ false
          → node_at fs q ≡ some node
          → node_at fs' q ≡ some node)
unfolding copy_file
copy_over fs src dest content old at_src given at_dest =
    let (fs₁, made, same, keeps) = ensure_lem fs dest given in
    let wrote : write_file fs₁ dest content ≡ some (put_node fs₁ dest (file content)) =
      unfold write_file in ground (arith, same, at_dest) in
    (
      put_node fs₁ dest (file content),
      ground (arith, at_src, made, wrote),
      ground (arith, node_at-put_node fs₁ dest dest (file content), str_eq_refl dest),
      λ q node other at_q.
          ground (arith, node_at-put_node fs₁ dest q (file content), other, keeps q node at_q),
    )
