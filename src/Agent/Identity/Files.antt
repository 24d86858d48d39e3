-- ===== src/Agent/Identity/Files.antt =====
-- internal/agent/identity.go: which of the agent's two files a write or a load changes.
use deploy_os.Base.{String, ◌≡◌, refl, sym, ap, ◌∙◌, false, Option, none, some, ◌==◌}
use deploy_os.Go.Errors.{GoError, Result, ok, err}
use deploy_os.Go.Map.{lookup-insert}
use deploy_os.Agent.Identity.{
  Disk, device_id_file_name, device_token_file_name, read_trimmed_file, write_after, write_file,
  named_result, create, load_or_create_device_id, persist_device_token, load_token,
  load_device_token, loaded,
}

write_after-other :
    (name other_name contents : String) (a b : Option GoError) (disk : Disk)
    → (name == other_name) ≡ false
    → read_trimmed_file other_name (write_after name contents a b disk).0
      ≡ read_trimmed_file other_name disk
unfolding write_after read_trimmed_file
write_after-other name other_name contents (some e) b disk h = refl
write_after-other name other_name contents none (some e) disk h = refl
write_after-other name other_name contents none none disk h =
    rw (lookup-insert name other_name contents disk.files, h) refl

named_result-state :
    {A : Type 0} (before : String) (a : A) (x : Disk × Result (Unit {0}))
    → (named_result before a x).0 ≡ x.0
unfolding named_result
named_result-state before a (d, err e) = refl
named_result-state before a (d, ok tt) = refl

-- The token's file is not the id's.
pub persist_device_token-read :
    (token : String) (disk : Disk)
    → read_trimmed_file device_id_file_name (persist_device_token token disk).0
      ≡ read_trimmed_file device_id_file_name disk
unfolding persist_device_token write_file
persist_device_token-read token disk =
    ap (λ d. read_trimmed_file device_id_file_name d)
      (named_result-state "persisting device token: " tt
        (write_file device_token_file_name token disk))
    ∙ write_after-other device_token_file_name device_id_file_name token disk.no_directory
        (disk.unwritable device_token_file_name) disk refl

-- A write that failed left the disk as it was.
write_after-failed :
    (name contents : String) (a b : Option GoError) (disk after : Disk) (e : GoError)
    → write_after name contents a b disk ≡ (after, err e)
    → after ≡ disk
unfolding write_after
write_after-failed name contents (some e) b disk after er h =
    sym (ap (λ (y : Disk × Result (Unit {0})). y.0) h)
write_after-failed name contents none (some e) disk after er h =
    sym (ap (λ (y : Disk × Result (Unit {0})). y.0) h)
write_after-failed name contents none none disk after er h =
    let bad = ap (λ (y : Disk × Result (Unit {0})). y.1) h in cc

named_result-failed :
    {A : Type 0} (before : String) (a : A) (x : Disk × Result (Unit {0})) (after : Disk)
    (e : GoError)
    → named_result before a x ≡ (after, err e)
    → (er : GoError) × (x ≡ (after, err er))
unfolding named_result
named_result-failed {A = A} before a (d, err er) after e h =
    (er, ap (λ (y : Disk × Result A). (y.0, err er)) h)
named_result-failed {A = A} before a (d, ok tt) after e h =
    absurd (apart (ap (λ (y : Disk × Result A). y.1) h))
  where
    apart : ok a ≡ err e → ⊥
    apart q = cc

-- A token that could not be persisted left the disk as it was.
pub persist_device_token-failed :
    (token : String) (disk after : Disk) (e : GoError)
    → persist_device_token token disk ≡ (after, err e)
    → after ≡ disk
unfolding persist_device_token write_file
persist_device_token-failed token disk after e h =
    let (er, q) =
      named_result-failed _ tt (write_file device_token_file_name token disk) after e h in
    write_after-failed device_token_file_name token disk.no_directory
      (disk.unwritable device_token_file_name) disk after er q

create-token :
    (fresh : String) (r : Result (Option String)) (disk : Disk)
    → read_trimmed_file device_token_file_name (create fresh r disk).0
      ≡ read_trimmed_file device_token_file_name disk
unfolding create write_file
create-token fresh (err e) disk = refl
create-token fresh (ok (some id)) disk = refl
create-token fresh (ok none) disk =
    ap (λ d. read_trimmed_file device_token_file_name d)
      (named_result-state "persisting device id: " fresh
        (write_file device_id_file_name fresh disk))
    ∙ write_after-other device_id_file_name device_token_file_name fresh disk.no_directory
        (disk.unwritable device_id_file_name) disk refl

-- A load of the device id leaves the token's file as it was.
pub load_token-load_or_create_device_id :
    (fresh : String) (disk : Disk)
    → load_token (load_or_create_device_id fresh disk).0 ≡ load_token disk
unfolding load_or_create_device_id load_token load_device_token
load_token-load_or_create_device_id fresh disk =
    ap loaded (create-token fresh (read_trimmed_file device_id_file_name disk) disk)
