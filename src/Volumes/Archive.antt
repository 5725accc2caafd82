-- ===== src/Volumes/Archive.antt =====
-- pkg/fsinject/inject-archive.go: a tar archive that a `tar` process unpacks into a volume. What the
-- process and archive/tar answer are the fields of `TarAnswers`.
use kube_pet_node.Prelude.{ℕ, List, [], ◌∷◌, ◌++◌, Option, none, some, ◌==◌, if◌then◌else◌}
use kube_pet_node.Prelude.Text.{Text, str}
use kube_pet_node.Prelude.Result.{Result, ok, err}

pub data Entry : Type 0 where
  file : Text → ℕ → Text → Entry
  sym_link : Text → Text → Entry

pub record TarAnswers : Type 0 where
  pub uid : ℕ
  pub stdin_pipe : Result (Unit {0})
  pub start : List Text → Result (Unit {0})
  pub write_header : Entry → Result (Unit {0})
  pub copy : Entry → Result (Unit {0})
  pub close_tar : Result (Unit {0})
  pub close_stdin : Result (Unit {0})
  pub wait : Result (Unit {0})

-- `entries` are those whose header was written.
pub record ArchiveExtraction : Type 0 where
  pub dest : Text
  pub error : Option Text
  pub entries : List Entry

unfoldable pub tar_command : ℕ → Text → List Text
tar_command uid dest =
    if uid == 1
    then str "tar" ∷ str "-xf" ∷ str "-" ∷ str "-C" ∷ dest ∷ []
    else str "sudo" ∷ str "tar" ∷ str "-xf" ∷ str "-" ∷ str "-C" ∷ dest ∷ []

after_start : Text → Result (Unit {0}) → Result ArchiveExtraction
after_start dest (err e) = err e
after_start dest (ok _) = ok (record { dest = dest; error = none; entries = [] })

after_pipe : TarAnswers → Text → Result (Unit {0}) → Result ArchiveExtraction
unfolding after_start tar_command
after_pipe t dest (err e) = err e
after_pipe t dest (ok _) = after_start dest (t.start (tar_command t.uid dest))

unfoldable pub start_archive_extraction : TarAnswers → Text → Result ArchiveExtraction
unfolding after_pipe
start_archive_extraction t dest = after_pipe t dest t.stdin_pipe

noted : Result (Unit {0}) → ArchiveExtraction → ArchiveExtraction
noted (err e) ae = record ae { error = some e }
noted (ok _) ae = ae

-- Only a file has a body, whose copy may fail too.
with_body : TarAnswers → Entry → ArchiveExtraction → ArchiveExtraction
unfolding noted
with_body t (file name mode body) ae = noted (t.copy (file name mode body)) ae
with_body t (sym_link name target) ae = ae

after_header : TarAnswers → Entry → Result (Unit {0}) → ArchiveExtraction → ArchiveExtraction
unfolding with_body
after_header t entry (err e) ae = record ae { error = some e }
after_header t entry (ok _) ae =
    with_body t entry (record ae { entries = ae.entries ++ (entry ∷ []) })

-- `WriteFile` and `WriteSymLink`: an error is kept for `Finish`.
unfoldable pub write_entry : TarAnswers → Entry → ArchiveExtraction → ArchiveExtraction
unfolding after_header
write_entry t entry ae = after_header t entry (t.write_header entry) ae

unfoldable pub write_entries : TarAnswers → List Entry → ArchiveExtraction → ArchiveExtraction
unfolding write_entry
write_entries t [] ae = ae
write_entries t (entry ∷ entries) ae = write_entries t entries (write_entry t entry ae)

first_error : Option Text → List (Result (Unit {0})) → Result (Unit {0})
first_error (some e) rest = err e
first_error none [] = ok tt
first_error none (err e ∷ rest) = err e
first_error none (ok _ ∷ rest) = first_error none rest

unfoldable pub finish : TarAnswers → ArchiveExtraction → Result (Unit {0})
unfolding first_error
finish t ae = first_error ae.error (t.close_tar ∷ t.close_stdin ∷ t.wait ∷ [])
