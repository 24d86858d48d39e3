-- ===== src/Agent/Identity.antt =====
-- internal/agent/identity.go, and Agent.loadToken of internal/agent/agent.go: the device id and the device token that the
-- agent keeps on disk. What os reports for a file, for the directory and for a write is part of the disk; uuid.NewString's answer is an argument.
pub mod Files
use deploy_os.Base.{
  false, sym, String, concat, ◌≡◌, refl, sym, ap, ◌∙◌, Option, none, some, List, [], ◌∷◌, eq_refl,
  ◌==◌, if◌then◌else◌, ==_false,
}
use deploy_os.Go.Errors.{ok_inj, GoError, other, wrap, Result, ok, err}
use deploy_os.Go.Text.{trim_space}
use deploy_os.Go.Map.{lookup, insert, lookup-insert}

abbrev pub device_id_file_name : String
device_id_file_name = "device_id"

abbrev pub device_token_file_name : String
device_token_file_name = "device_token"

-- The files of the data directory, and the failures: of a read other than a missing file, of MkdirAll, of a write.
pub record Disk : Type 0 where
  pub files : List (String × String)
  pub unreadable : String → Option GoError
  pub no_directory : Option GoError
  pub unwritable : String → Option GoError

abbrev non_empty : String → Option String
non_empty value = if value == "" then none else some value

trimmed : Option String → Option String
unfolding trim_space
trimmed none = none
trimmed (some contents) = non_empty (trim_space contents)

read_after : String → Option GoError → Option String → Result (Option String)
unfolding trimmed
read_after name (some e) found = err (wrap (concat ("reading " ∷ name ∷ ": " ∷ [])) e "")
read_after name none found = ok (trimmed found)

-- readTrimmedFile
unfoldable pub read_trimmed_file : String → Disk → Result (Option String)
unfolding read_after
read_trimmed_file name disk = read_after name (disk.unreadable name) (lookup name disk.files)

write_after : String → String → Option GoError → Option GoError → Disk → Disk × Result (Unit {0})
write_after name contents (some e) failure disk = (disk, err (wrap "creating data dir: " e ""))
write_after name contents none (some e) disk =
    (disk, err (wrap (concat ("writing " ∷ name ∷ ": " ∷ [])) e ""))
write_after name contents none none disk =
    (record disk { files = insert name contents disk.files }, ok tt)

-- writeFile
unfoldable pub write_file : String → String → Disk → Disk × Result (Unit {0})
unfolding write_after
write_file name contents disk =
    write_after name contents disk.no_directory (disk.unwritable name) disk

named_result : {A : Type 0} → String → A → Disk × Result (Unit {0}) → Disk × Result A
named_result before a (disk, err e) = (disk, err (wrap before e ""))
named_result before a (disk, ok tt) = (disk, ok a)

create : String → Result (Option String) → Disk → Disk × Result String
unfolding write_file named_result
create fresh (err e) disk = (disk, err e)
create fresh (ok (some id)) disk = (disk, ok id)
create fresh (ok none) disk =
    named_result "persisting device id: " fresh (write_file device_id_file_name fresh disk)

-- loadOrCreateDeviceID
unfoldable pub load_or_create_device_id : String → Disk → Disk × Result String
unfolding create read_trimmed_file
load_or_create_device_id fresh disk = create fresh (read_trimmed_file device_id_file_name disk) disk

-- persistDeviceToken
unfoldable pub persist_device_token : String → Disk → Disk × Result (Unit {0})
unfolding write_file named_result
persist_device_token token disk =
    named_result "persisting device token: " tt (write_file device_token_file_name token disk)

-- loadDeviceToken
unfoldable pub load_device_token : Disk → Result (Option String)
unfolding read_trimmed_file
load_device_token disk = read_trimmed_file device_token_file_name disk

loaded : Result (Option String) → Result String
loaded (err e) = err (wrap "loading device token: " e "")
loaded (ok none) = err (other "no device token persisted yet; waiting for registration")
loaded (ok (some token)) = ok token

-- Agent.loadToken
unfoldable pub load_token : Disk → Result String
unfolding loaded load_device_token
load_token disk = loaded (load_device_token disk)

-- Text that a file gives back as it was written: with no white space at its ends, and not empty.
pub record IsTrimmed (s : String) : Type 0 where
  pub ends : trim_space s ≡ s
  pub some_text : ¬ (s ≡ "")

trimmed-IsTrimmed : (s : String) → IsTrimmed s → trimmed (some s) ≡ some s
unfolding trimmed
trimmed-IsTrimmed s t = rw (t.ends, ==_false s "" t.some_text)

-- A write that went well, with or without a wrapped error.
named_result-ok :
    {A : Type 0} (before : String) (a b : A) (x : Disk × Result (Unit {0})) (after : Disk)
    → named_result before a x ≡ (after, ok b)
    → (x ≡ (after, ok tt)) × (a ≡ b)
unfolding named_result
named_result-ok {A = A} before a b (d, err e) after h =
    absurd (apart (ap (λ (y : Disk × Result A). y.1) h))
  where
    apart : err (wrap before e "") ≡ ok b → ⊥
    apart q = cc
named_result-ok {A = A} before a b (d, ok tt) after h =
    (ap (λ (y : Disk × Result A). (y.0, ok tt)) h, same (ap (λ (y : Disk × Result A). y.1) h))
  where
    same : ok a ≡ ok b → a ≡ b
    same q = cc

write_after-ok :
    (name contents : String) (a b : Option GoError) (disk after : Disk)
    → write_after name contents a b disk ≡ (after, ok tt)
    → after ≡ record disk { files = insert name contents disk.files }
unfolding write_after
write_after-ok name contents (some e) b disk after h =
    let bad = ap (λ (y : Disk × Result (Unit {0})). y.1) h in cc
write_after-ok name contents none (some e) disk after h =
    let bad = ap (λ (y : Disk × Result (Unit {0})). y.1) h in cc
write_after-ok name contents none none disk after h =
    sym (ap (λ (y : Disk × Result (Unit {0})). y.0) h)

read-write :
    (name contents : String) (disk after : Disk)
    → IsTrimmed contents
    → disk.unreadable name ≡ none
    → write_file name contents disk ≡ (after, ok tt)
    → read_trimmed_file name after ≡ ok (some contents)
unfolding read_trimmed_file read_after write_file
read-write name contents disk after t readable h = rw (
  write_after-ok name contents disk.no_directory (disk.unwritable name) disk after h,
  readable,
  lookup-insert,
  eq_refl name,
  trimmed-IsTrimmed contents t,
)

-- After a token, not empty and with no white space at its ends, was persisted with success, the
-- agent's token source gives that token, where the file can be read.
pub load_token-persist :
    (token : String) (disk after : Disk)
    → IsTrimmed token
    → disk.unreadable device_token_file_name ≡ none
    → persist_device_token token disk ≡ (after, ok tt)
    → load_token after ≡ ok token
unfolding load_token load_device_token loaded persist_device_token
load_token-persist token disk after t readable h =
    let (wrote, _) =
      named_result-ok _ tt tt (write_file device_token_file_name token disk) after h in
    ap loaded (read-write device_token_file_name token disk after t readable wrote)

read_after-readable :
    (name : String) (failure : Option GoError) (found : Option String)
    → read_after name failure found ≡ ok none
    → failure ≡ none
unfolding read_after
read_after-readable name none found h = refl
read_after-readable name (some e) found h = cc

-- The first load leaves on the disk what it gives.
created-read :
    (fresh id : String) (disk after : Disk) (r : Result (Option String))
    → IsTrimmed fresh
    → read_trimmed_file device_id_file_name disk ≡ r
    → create fresh r disk ≡ (after, ok id)
    → read_trimmed_file device_id_file_name after ≡ ok (some id)
unfolding create
created-read fresh id disk after (err e) t q h =
    let bad = ap (λ (y : Disk × Result String). y.1) h in cc
created-read fresh id disk after (ok (some found)) t q h =
    let same = ap (λ (y : Disk × Result String). y.0) h in
    let text : found ≡ id = ok_inj (ap (λ (y : Disk × Result String). y.1) h) in
    ap (λ d. read_trimmed_file device_id_file_name d) (sym same) ∙ q ∙ ap (λ s. ok (some s)) text
created-read fresh id disk after (ok none) t q h =
    let (wrote, same) =
      named_result-ok _ fresh id (write_file device_id_file_name fresh disk) after h in
    let readable =
      read_after-readable device_id_file_name (disk.unreadable device_id_file_name)
        (lookup device_id_file_name disk.files) (unfold read_trimmed_file in q) in
    read-write device_id_file_name fresh disk after t readable wrote ∙ ap (λ s. ok (some s)) same

pub load_or_create_device_id-read :
    (fresh id : String) (disk after : Disk)
    → IsTrimmed fresh
    → load_or_create_device_id fresh disk ≡ (after, ok id)
    → read_trimmed_file device_id_file_name after ≡ ok (some id)
unfolding load_or_create_device_id
load_or_create_device_id-read fresh id disk after t h =
    created-read fresh id disk after (read_trimmed_file device_id_file_name disk) t refl h

pub read-load_or_create_device_id :
    (later id : String) (disk : Disk)
    → read_trimmed_file device_id_file_name disk ≡ ok (some id)
    → load_or_create_device_id later disk ≡ (disk, ok id)
unfolding load_or_create_device_id create
read-load_or_create_device_id later id disk e = ap (λ r. create later r disk) e

-- After a load of the device id that succeeded, whether it read the id or created it, a later
-- load gives the same id and leaves the disk as it is, where the ids that are created have no
-- white space at their ends and are not empty.
pub load_or_create_device_id-again :
    (fresh later id : String) (disk after : Disk)
    → IsTrimmed fresh
    → load_or_create_device_id fresh disk ≡ (after, ok id)
    → load_or_create_device_id later after ≡ (after, ok id)
unfolding load_or_create_device_id
load_or_create_device_id-again fresh later id disk after t h =
    read-load_or_create_device_id later id after
      (load_or_create_device_id-read fresh id disk after t h)
