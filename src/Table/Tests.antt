-- ===== src/Table/Tests.antt =====
use lang_os_distributed_file.Base.{◌≡◌, refl, lit}
use lang_os_distributed_file.Table.{hash_function}

hash_of_a : hash_function (lit "a.txt") ≡ 980
unfolding hash_function
hash_of_a = refl
