-- ===== src/Cli.antt =====
-- cmd/cli: the commands of the command-line interface. Each writes lines, and ends at the first write that fails; the library
-- that reads the command line is a parameter, and so are the files of the working directory.
use deploy_os.Base.{
  ℕ, suc, String, concat, ◌≡◌, refl, ap, ◌↔◌, inl, inr, Option, none, some, List, [], ◌∷◌, arith,
  Option-cases,
}
use deploy_os.Go.Errors.{GoError, error_text}

-- What a command has written, and its error.
pub record Output : Type 0 where
  pub written : List String
  pub error : Option GoError

-- One Fprintf after another: `write` says what the n-th gives.
unfoldable pub print : (ℕ → Option GoError) → ℕ → List String → Output
print write n [] = record { written = []; error = none }
print write n (line ∷ lines) =
    let rest = print write (suc n) lines in
    elim (write n) [
      | none ↦ record { written = line ∷ rest.written; error = rest.error }
      | some e ↦ record { written = []; error = some e }
    ]

-- describePresence, on what os.Stat gives
unfoldable pub describe_presence : Option GoError → String
describe_presence none = "found"
describe_presence (some e) = "not found (defaults will be used)"

-- runtime.Version, GOOS and GOARCH
pub record GoRuntime : Type 0 where
  pub version : String
  pub operating_system : String
  pub architecture : String

-- The lines of `deployos doctor`
unfoldable pub doctor_lines : GoRuntime → (String → Option GoError) → List String
unfolding describe_presence
doctor_lines go stat =
    concat (
      "go runtime:  " ∷ go.version ∷ " (" ∷ go.operating_system ∷ "/" ∷ go.architecture ∷ ")\n"
      ∷ [])
    ∷ concat ("config.yaml: " ∷ describe_presence (stat "config.yaml") ∷ "\n" ∷ [])
    ∷ concat (".env:        " ∷ describe_presence (stat ".env") ∷ "\n" ∷ [])
    ∷ []

pub data Command : Type 0 where
  version doctor agent : Command

-- The RunE of `deployos version`
unfoldable pub run_version : String → (ℕ → Option GoError) → Output
unfolding print
run_version build write = print write 0 (concat (build ∷ "\n" ∷ []) ∷ [])

-- The RunE of `deployos doctor`
unfoldable pub run_doctor : GoRuntime → (String → Option GoError) → (ℕ → Option GoError) → Output
unfolding print doctor_lines
run_doctor go stat write = print write 0 (doctor_lines go stat)

abbrev pub agent_note : String
agent_note =
    "agent management via the CLI is not implemented yet; run the deployos-agent binary directly (cmd/agent) to start an agent.\n"

-- The RunE of `deployos agent`
unfoldable pub run_agent : (ℕ → Option GoError) → Output
unfolding print
run_agent write = print write 0 (agent_note ∷ [])

-- The commands of the root command
unfoldable pub run_command :
    String → GoRuntime → (String → Option GoError) → (ℕ → Option GoError) → Command → Output
unfolding run_version run_doctor run_agent
run_command build go stat write version = run_version build write
run_command build go stat write doctor = run_doctor go stat write
run_command build go stat write agent = run_agent write

-- main: the exit status, and what it writes to the standard error
unfoldable pub exit_of : Output → ℕ × List String
unfolding error_text
exit_of o = elim o.error [ none ↦ (0, []) | some e ↦ (1, concat (error_text e ∷ "\n" ∷ []) ∷ []) ]

-- All the lines of a command.
abbrev pub lines_of : String → GoRuntime → (String → Option GoError) → Command → List String
lines_of build go stat version = concat (build ∷ "\n" ∷ []) ∷ []
lines_of build go stat doctor = doctor_lines go stat
lines_of build go stat agent = agent_note ∷ []

tail_same : {x : String} {xs ys : List String} → x ∷ xs ≡ x ∷ ys → xs ≡ ys
tail_same q = cc q

print-written :
    (write : ℕ → Option GoError) (n : ℕ) (lines : List String)
    → ((print write n lines).error ≡ none) ↔ ((print write n lines).written ≡ lines)
unfolding print
print-written write n [] = (λ e. refl, λ e. refl)
print-written write n (line ∷ lines) =
    let (there, back) = print-written write (suc n) lines in
    elim (Option-cases (write n)) [
      | inl e ↦ rw (e, print) (λ q. ap (λ l. line ∷ l) (there q), λ q. back (tail_same q))
      | inr (er, e) ↦ rw (e, print) (λ q. cc, λ q. cc)
    ]

run_command-print :
    (build : String) (go : GoRuntime) (stat : String → Option GoError) (write : ℕ → Option GoError)
    (c : Command)
    → run_command build go stat write c ≡ print write 0 (lines_of build go stat c)
unfolding run_command run_version run_doctor run_agent
run_command-print build go stat write version = refl
run_command-print build go stat write doctor = refl
run_command-print build go stat write agent = refl

exit_of-error : (o : Output) → ((exit_of o).0 ≡ 0) ↔ (o.error ≡ none)
unfolding exit_of
exit_of-error o = elim (Option-cases o.error) [
  | inl e ↦ rw (e, exit_of) (λ q. refl, λ q. refl)
  | inr (er, e) ↦ rw (e, exit_of) (λ q. ground arith, λ q. cc)
]

-- A command of the command line exits with 0 exactly when it has written all of its lines.
pub exits-written :
    (build : String) (go : GoRuntime) (stat : String → Option GoError) (write : ℕ → Option GoError)
    (c : Command)
    → let o = run_command build go stat write c in
      ((exit_of o).0 ≡ 0) ↔ (o.written ≡ lines_of build go stat c)
exits-written build go stat write c =
    let same = run_command-print build go stat write c in
    let (a, b) = exit_of-error (run_command build go stat write c) in
    let (there, back) = print-written write 0 (lines_of build go stat c) in
    (λ q. rw same (there (rw same at (a q))), λ q. b (rw same (back (rw same at q))))
