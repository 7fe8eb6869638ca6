-- ===== src/Server/Sound/Save.antt =====
-- `save_metadata` of src/name_server/CRWD.c in a sound state.
use lang_os_distributed_file.Base.{
  ℕ, refl, List, [], ◌∷◌, ◌++◌, length, ◌==◌, pure, not, lit, modify,
}
use lang_os_distributed_file.Server.{NameServer, Disk, target_ss}
use lang_os_distributed_file.Server.Save.{
  save_metadata, save_users, save_files, save_notes, save_notes_if_open, file_lines, note_lines,
}
use lang_os_distributed_file.Server.Sound.{
  AreLive, IsSound, Extends-refl, Upholds, Keeps, Upholds-bind, Keeps-bind, Keeps-pure, Keeps-if,
  Upholds-if,
}
use lang_os_distributed_file.Server.Sound.Rules.{
  Upholds-load, Keeps-target_ss, AreLive-ext, IsSound-outer,
}

-- The loops over the file list.
Keeps-file_lines :
    (ps : List ℕ) (s : NameServer) → IsSound s → AreLive s.files ps → Upholds s (file_lines ps s)
unfolding file_lines
Keeps-file_lines [] s sound live = (sound, Extends-refl s)
Keeps-file_lines (p ∷ ps) s sound ((f, at_p), live) = Upholds-load s p f _ at_p (
    Upholds-bind s (target_ss f) _ (Keeps-target_ss f s sound) λ ss t ran sound' ext.
      Upholds-bind t (file_lines ps) _ (Keeps-file_lines ps t sound' (AreLive-ext s t ps ext live))
        λ rest u ran sound'' ext. (sound'', Extends-refl u))

Keeps-note_lines :
    (ps : List ℕ) (s : NameServer) → IsSound s → AreLive s.files ps → Upholds s (note_lines ps s)
unfolding note_lines
Keeps-note_lines [] s sound live = (sound, Extends-refl s)
Keeps-note_lines (p ∷ ps) s sound ((f, at_p), live) = Upholds-load s p f _ at_p (
    Upholds-bind s (note_lines ps) _ (Keeps-note_lines ps s sound live) λ rest u ran sound' ext.
      Keeps-if (length f.annotation == 0) (pure rest)
        (pure (f.filename ++ (lit ";" ++ (f.annotation ++ (lit "\n" ++ rest))))) (Keeps-pure rest)
        (Keeps-pure (f.filename ++ (lit ";" ++ (f.annotation ++ (lit "\n" ++ rest))))) u sound')

Keeps-disk : (f : Disk → Disk) → Keeps (modify (λ s. record s { disk = f s.disk }))
Keeps-disk f s sound =
    (IsSound-outer s (f s.disk) s.user_list s.ss_list sound, λ p f at_p. (f, at_p, refl))

Keeps-save_users : Keeps save_users
unfolding save_users
Keeps-save_users s sound =
    (IsSound-outer s _ s.user_list s.ss_list sound, λ p f at_p. (f, at_p, refl))

Keeps-save_files : Keeps save_files
unfolding save_files
Keeps-save_files =
    Keeps-bind (λ s. file_lines s.file_list s) _
      (λ s sound. Keeps-file_lines s.file_list s sound sound.live) (λ text. Keeps-disk _)

Keeps-save_notes : Keeps save_notes_if_open
unfolding save_notes_if_open save_notes
Keeps-save_notes s sound =
    Upholds-if s s.disk.annotations_opens _ _
      (Keeps-bind (λ s. note_lines s.file_list s) _
        (λ s sound. Keeps-note_lines s.file_list s sound sound.live) (λ text. Keeps-disk _) s sound)
      (sound, Extends-refl s)

pub Keeps-save_metadata : Keeps save_metadata
unfolding save_metadata
Keeps-save_metadata s sound =
    Upholds-if s (not s.disk.user_data_opens) _ _ (sound, Extends-refl s)
      (Upholds-if s (not s.disk.file_metadata_opens) _ _ (Keeps-save_users s sound) (
        Keeps-bind save_users _ Keeps-save_users
          (λ u. Keeps-bind save_files _ Keeps-save_files λ v. Keeps-save_notes) s sound))
