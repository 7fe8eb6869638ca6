-- ===== src/Session/Witnesses.antt =====
-- A Name Server starts, a Storage Server registers with one file, and a client asks for it.
use lang_os_distributed_file.Base.{
  fgets, ◌≡◌, ◌≢◌, ◌≤◌, refl, Text, lit, ok, fault, blocked, false, Run, use_after_free, strtok,
  atoi, strcpy, str_eq,
}
use lang_os_distributed_file.Table.{ht_create, ht_search, ht_insert, hash_function, search_chain}
use lang_os_distributed_file.Cache.{LruCache, cache_size, lru_init, lru_get}
use lang_os_distributed_file.Server.{NameServer, boot, link_file}
use lang_os_distributed_file.Server.Find.{find_file}
use lang_os_distributed_file.Server.Find.Frame.{with_cache}
use lang_os_distributed_file.Server.Example.{w, disk}
use lang_os_distributed_file.Server.Restore.{load_metadata}
use lang_os_distributed_file.Server.Register.{find_ss}
use lang_os_distributed_file.Server.Sound.{IsSound}
use lang_os_distributed_file.Session.{Session, closed, open_session, serve, parse_command}
use lang_os_distributed_file.Session.Keeps.{asks_delete}
use lang_os_distributed_file.Session.Reach.{
  IsQuiet, idle, Reach, started, opened, reach_sound, reach_reads_live, find_file_searches,
}

abbrev state_of : {A : Type 0} → Run (A × NameServer) → NameServer → NameServer
state_of r s = elim r [ ok (a, t) ↦ t | fault e ↦ s | blocked ↦ s ]

abbrev s₁ : NameServer
s₁ = state_of (load_metadata w (boot disk)) (boot disk)

loaded : load_metadata w (boot disk) ≡ ok (tt, s₁)
unfolding load_metadata boot strtok strcpy ht_search ht_create fgets find_ss
loaded = refl

abbrev hello : Text
hello = lit "REGISTER_SS;10.0.0.2;9001;a\n"

abbrev s₂ : NameServer
s₂ = state_of (open_session w (lit "10.0.0.2") hello s₁) s₁

abbrev ack : Session × Text
ack = (closed, lit "ACK_SS_REG\n__END__\n")

registered : open_session w (lit "10.0.0.2") hello s₁ ≡ ok (ack, s₂)
unfolding open_session load_metadata boot strtok strcpy ht_search ht_create ht_insert lru_get
    lru_init hash_function search_chain str_eq atoi find_file link_file fgets find_ss
registered = refl

abbrev reach : Reach s₂
reach = opened w (lit "10.0.0.2") hello (started w disk loaded) registered

reach_sound_example : IsSound s₂
reach_sound_example = reach_sound reach

quiet : IsQuiet w.others
quiet = idle

no_delete : asks_delete (parse_command (lit "READ;a\n")) ≡ false
unfolding parse_command strtok str_eq
no_delete = refl

reach_reads_live_example : serve w (lit "al") (lit "READ;a\n") s₂ ≢ fault use_after_free
reach_reads_live_example = reach_reads_live w (lit "al") (lit "READ;a\n") reach no_delete quiet

find_file_searches_example :
    (cache : LruCache) × (find_file (lit "a") s₂
      ≡ ok (ht_search s₂.file_hash_table (lit "a"), with_cache s₂ cache))
    × (cache.size ≤ cache_size)
find_file_searches_example = find_file_searches (lit "a") reach
