-- ===== src/Agent/Commands/Inspect.antt =====
-- internal/agent/handlers.go over internal/containers/docker: what the agent answers to INSPECT_CONTAINER.
use deploy_os.Base.{
  ℕ, String, concat, ◌≡◌, refl, sym, ◌∙◌, subst, inl, inr, true, false, List, [], ◌∷◌, arith,
  nat_eq, ◌==◌, Bool-cases, ==-cases,
}
use deploy_os.Go.Errors.{
  GoError, sentinel, wrap, error_text, is, Result, ok, err, ◌>>=◌, map_error, Result-cases,
}
use deploy_os.Go.Map.{lookup}
use deploy_os.Go.Integer.{ℤ}
use deploy_os.CommandBus.Wire.{Request, Response, kind_inspect_container}
use deploy_os.CommandBus.Dispatcher.{dispatch, finish, failure, dispatch-register}
use deploy_os.Containers.{Container, ContainerDetails, err_container_not_found}
use deploy_os.Containers.Docker.{
  Answer, ContainerSummary, ContainerInspect, err_not_found, get, list_containers,
  inspect_container, inspect_error, read_answer, details_of,
}
use deploy_os.Agent.Commands.{
  Machine, Runtime, agent_dispatcher, inspect_container_executor, argument, inspected, payload,
}

-- The Docker Engine and the libraries between it and the agent.
pub record Engine : Type 0 where
  pub itoa : ℕ → String
  pub atoi : String → ℤ
  pub parse_time : String → ℤ
  pub path_escape : String → String
  pub list : String → Result (Answer (List ContainerSummary))
  pub inspect : String → Result (Answer ContainerInspect)
  pub marshal_list : List Container → Result String
  pub marshal_details : ContainerDetails → Result String

-- docker.NewRuntime, as the executors use it
unfoldable pub docker_runtime : Engine → Runtime Container ContainerDetails
unfolding list_containers inspect_container
docker_runtime e = record {
  list_containers = list_containers e.itoa e.list;
  inspect_container = inspect_container e.itoa e.atoi e.parse_time e.path_escape e.inspect;
  marshal_list = e.marshal_list;
  marshal_details = e.marshal_details;
}

-- The engine's answer for the container
abbrev pub asked : Engine → String → Result (Answer ContainerInspect)
asked e id = e.inspect (concat ("/containers/" ∷ e.path_escape id ∷ "/json" ∷ []))

-- The container id that the command names, empty where it names none
abbrev pub named : Request → String
named req = argument (lookup "id" req.arguments)

-- What the agent answers.
pub data Inspection (e : Engine) (req : Request) (resp : Response) : Type 0 where
  unnamed :
      named req ≡ "" → resp ≡ failure req.id "missing required argument: id" → Inspection e req resp
  absent :
      (a : Answer ContainerInspect)
      → asked e (named req) ≡ ok a
      → a.status ≡ 404
      → resp
        ≡ failure req.id (
            error_text
              (wrap "" (sentinel err_container_not_found) (concat (": " ∷ named req ∷ []))))
      → Inspection e req resp
  found :
      (a : Answer ContainerInspect) (i : ContainerInspect) (text : String)
      → asked e (named req) ≡ ok a
      → a.status ≡ 200
      → a.body ≡ ok i
      → e.marshal_details (details_of e.atoi e.parse_time i) ≡ ok text
      → resp ≡ record {
        command_id = req.id;
        success = true;
        message = "";
        details = ("container", text) ∷ [];
      }
      → Inspection e req resp
  unreached :
      (er : GoError)
      → asked e (named req) ≡ err er
      → resp ≡ failure req.id (concat ("calling docker api: " ∷ error_text er ∷ []))
      → Inspection e req resp
  refused :
      (a : Answer ContainerInspect)
      → asked e (named req) ≡ ok a
      → ¬ (a.status ≡ 404)
      → ¬ (a.status ≡ 200)
      → resp
        ≡ failure req.id (concat ("docker api returned " ∷ e.itoa a.status ∷ ": " ∷ a.message ∷ []))
      → Inspection e req resp
  garbled :
      (a : Answer ContainerInspect) (er : GoError)
      → asked e (named req) ≡ ok a
      → a.status ≡ 200
      → a.body ≡ err er
      → resp ≡ failure req.id (concat ("decoding docker api response: " ∷ error_text er ∷ []))
      → Inspection e req resp
  unprinted :
      (a : Answer ContainerInspect) (i : ContainerInspect) (er : GoError)
      → asked e (named req) ≡ ok a
      → a.body ≡ ok i
      → e.marshal_details (details_of e.atoi e.parse_time i) ≡ err er
      → resp ≡ failure req.id (error_text er)
      → Inspection e req resp

-- The engine's client and the decoder know nothing of the package's own error.
pub record IsForeign (e : Engine) : Type 0 where
  pub transport :
      (path : String) (er : GoError) → e.inspect path ≡ err er → is er err_not_found ≡ false
  pub decoder :
      (path : String) (a : Answer ContainerInspect) (er : GoError)
      → e.inspect path ≡ ok a
      → a.body ≡ err er
      → is er err_not_found ≡ false

module _ (e : Engine) (req : Request) where
  -- What the dispatcher makes of what InspectContainer returned
  answer_of : Result ContainerDetails → Response
  unfolding payload
  answer_of r = record (payload "container" (r >>= λ details. e.marshal_details details)) {
    command_id = req.id;
  }

  -- What InspectContainer returns for an answer of the engine
  returned_for : Result (Answer ContainerInspect) → Result ContainerDetails
  unfolding read_answer inspect_error details_of
  returned_for r =
      map_error (inspect_error (named req))
        (map_error (λ er. wrap "calling docker api: " er "") r >>= read_answer e.itoa)
      >>= λ i. ok (details_of e.atoi e.parse_time i)

  decoded-Inspection :
      (a : Answer ContainerInspect)
      → IsForeign e
      → asked e (named req) ≡ ok a
      → a.status ≡ 200
      → (body : Result ContainerInspect) → a.body ≡ body
      → Inspection e req (answer_of (returned_for (ok a)))
  unfolding answer_of returned_for payload read_answer inspect_error is
  decoded-Inspection a f q s (err er) b =
      let foreign = f.decoder _ a er q b in
      rw (s, b, is, foreign) (garbled a er q s b (unfold error_text in refl))
  decoded-Inspection a f q s (ok i) b =
      elim (Result-cases (e.marshal_details (details_of e.atoi e.parse_time i))) [
        | inl (text, m) ↦ rw (s, b, m) (found a i text q s b m refl)
        | inr (er, m) ↦ rw (s, b, m) (unprinted a i er q b m refl)
      ]

  asked-Inspection :
      (r : Result (Answer ContainerInspect))
      → IsForeign e
      → asked e (named req) ≡ r
      → Inspection e req (answer_of (returned_for r))
  unfolding answer_of returned_for payload read_answer inspect_error is error_text
  asked-Inspection (err er) f q =
      let foreign = f.transport _ er q in rw foreign (unreached er q refl)
  asked-Inspection (ok a) f q = elim (Bool-cases (nat_eq a.status 404)) [
    | inl missing ↦ rw missing (absent a q (ground arith) refl)
    | inr there ↦ elim (Bool-cases (nat_eq a.status 200)) [
      | inl fine ↦ decoded-Inspection a f q (ground arith) a.body refl
      | inr bad ↦ rw (there, bad) (refused a q (λ s. ground arith) (λ s. ground arith) refl)
    ]
  ]

  -- The dispatcher hands the command to the executor of its kind.
  dispatch-inspected :
      (m : Machine)
      → req.kind ≡ kind_inspect_container
      → dispatch (agent_dispatcher m (docker_runtime e)) req
        ≡ record (inspected (docker_runtime e) (named req)) { command_id = req.id }
  unfolding agent_dispatcher inspect_container_executor finish
  dispatch-inspected m k =
      let same : (kind_inspect_container == req.kind) ≡ true = rw k refl in
      dispatch-register kind_inspect_container (inspect_container_executor (docker_runtime e)) _ req
      ∙ rw same refl

  inspected-Inspection :
      IsForeign e
      → Inspection e req (record (inspected (docker_runtime e) (named req)) { command_id = req.id })
  unfolding inspected docker_runtime inspect_container get payload answer_of returned_for
  inspected-Inspection f = elim (==-cases (named req) "") [
    | inl (q, b) ↦ rw b (unnamed q refl)
    | inr b ↦ rw b (asked-Inspection (asked e (named req)) f refl)
  ]

  -- Where the client of the Docker Engine and its decoder know nothing of the package's own error,
  -- the agent answers a command to inspect a container, under the command's id: with the details,
  -- exactly as encoded, for an answer 200 that decodes; and with a failure that names its cause
  -- for a missing id, a container that the engine does not have, an engine that is not reached,
  -- another status, a body that does not decode, and details that do not encode.
  pub inspect-Inspection :
      (m : Machine)
      → IsForeign e
      → req.kind ≡ kind_inspect_container
      → Inspection e req (dispatch (agent_dispatcher m (docker_runtime e)) req)
  inspect-Inspection m f k =
      subst (λ r. Inspection e req r) (sym (dispatch-inspected m k)) (inspected-Inspection f)
