-- ===== src/Containers/Docker.antt =====
-- internal/containers/docker: the requests to the Docker Engine, and what is made of its answers. The HTTP client with
-- the JSON decoder, url.PathEscape, strconv and time.Parse are parameters. The ranges over the maps of ports and networks go in the order of the lists.
use deploy_os.Base.{
  ℕ, code, String, concat, ◌≡◌, refl, sym, ap, ◌∙◌, inl, inr, false, Option, none, some, List, [],
  ◌∷◌, ◌++◌, map, nat_eq, ◌==◌, if◌then◌else◌, Bool-cases,
}
use deploy_os.Go.Errors.{
  Sentinel, GoError, sentinel, other, wrap, is, Result, ok, err, ◌>>=◌, map_error, Result-cases,
}
use deploy_os.Containers.{Container, Mount, Port, ContainerDetails, err_container_not_found}
use deploy_os.Go.Text.{after_prefix}
use deploy_os.Go.Integer.{ℤ}

abbrev pub err_not_found : Sentinel
err_not_found = record { name = "docker.errNotFound"; text = "docker: not found" }

-- An answer of the engine: the status, the body as a value or the decoder's error, and the message that the body of an error holds.
pub record Answer (A : Type 0) : Type 0 where
  pub status : ℕ
  pub body : Result A
  pub message : String

-- Runtime.get, for a request that builds
module _ {A : Type 0} where
  unfoldable pub read_answer : (ℕ → String) → Answer A → Result A
  read_answer itoa r =
      if nat_eq r.status 404
      then err (sentinel err_not_found)
      else if nat_eq r.status 200
      then map_error (λ e. wrap "decoding docker api response: " e "") r.body
      else err (other (concat ("docker api returned " ∷ itoa r.status ∷ ": " ∷ r.message ∷ [])))

  unfoldable pub get : (ℕ → String) → (String → Result (Answer A)) → String → Result A
  unfolding read_answer
  get itoa call path =
      map_error (λ e. wrap "calling docker api: " e "") (call path) >>= read_answer itoa

-- containerSummary
pub record ContainerSummary : Type 0 where
  pub id : String
  pub names : List String
  pub image : String
  pub created : ℤ
  pub state : String
  pub status : String

-- strings.TrimPrefix(name, "/")
trim_slash : String → String
unfolding after_prefix
trim_slash name = elim (after_prefix name "/") [ none ↦ name | some rest ↦ rest ]

-- containerName
unfoldable pub container_name : List String → String
unfolding trim_slash
container_name [] = ""
container_name (name ∷ names) = trim_slash name

summarized : ContainerSummary → Container
unfolding container_name
summarized s = record {
  id = s.id;
  name = container_name s.names;
  image = s.image;
  status = s.status;
  state = s.state;
  created = s.created;
}

-- Runtime.ListContainers
unfoldable pub list_containers :
    (ℕ → String) → (String → Result (Answer (List ContainerSummary))) → Result (List Container)
unfolding get summarized
list_containers itoa call =
    get itoa call "/containers/json?all=true" >>= λ summaries. ok (map summarized summaries)

-- containerInspect, with the host ports of each port's bindings
pub record ContainerInspect : Type 0 where
  pub id : String
  pub name : String
  pub image : String
  pub state_status : String
  pub created : String
  pub config_image : String
  pub cmd : List String
  pub env : List String
  pub restart_count : ℤ
  pub ports : List (String × List String)
  pub networks : List String
  pub mounts : List Mount

-- strings.Cut(s, "/"): the text in front of the first slash, and the text behind it if there is one.
unfoldable pub cut_slash : String → String × Option String
cut_slash String.[] = (String.[], none)
cut_slash (String.◌∷◌ c s) =
    let rest = cut_slash s in
    if nat_eq (code c) b'/' then (String.[], some s) else (String.◌∷◌ c rest.0, rest.1)

port_of : (String → ℤ) → String × Option String → ℤ × String
port_of atoi (port, none) = (atoi port, "tcp")
port_of atoi (port, some protocol) = (atoi port, protocol)

-- splitPortSpec. `atoi` gives the number that strconv.Atoi returns, with or without an error.
unfoldable pub split_port_spec : (String → ℤ) → String → ℤ × String
unfolding cut_slash port_of
split_port_spec atoi spec = port_of atoi (cut_slash spec)

bindings : (String → ℤ) → ℤ × String → List String → List Port
bindings atoi p [] = []
bindings atoi p (host ∷ hosts) =
    record { container_port = p.0; host_port = atoi host; protocol = p.1 } ∷ bindings atoi p hosts

-- inspectPorts
unfoldable pub inspect_ports : (String → ℤ) → List (String × List String) → List Port
unfolding bindings split_port_spec
inspect_ports atoi [] = []
inspect_ports atoi ((spec, hosts) ∷ ports) =
    bindings atoi (split_port_spec atoi spec) hosts ++ inspect_ports atoi ports

unfoldable pub details_of : (String → ℤ) → (String → ℤ) → ContainerInspect → ContainerDetails
unfolding trim_slash inspect_ports
details_of atoi parse_time i = record {
  container = record {
    id = i.id;
    name = trim_slash i.name;
    image = i.config_image;
    status = i.state_status;
    state = i.state_status;
    created = parse_time i.created;
  };
  command = i.cmd;
  env = i.env;
  mounts = i.mounts;
  ports = inspect_ports atoi i.ports;
  networks = i.networks;
  restart_count = i.restart_count;
}

unfoldable pub inspect_error : String → GoError → GoError
inspect_error id e =
    if is e err_not_found
    then wrap "" (sentinel err_container_not_found) (concat (": " ∷ id ∷ []))
    else e

-- Runtime.InspectContainer
unfoldable pub inspect_container :
    (ℕ → String)
    → (String → ℤ)
    → (String → ℤ)
    → (String → String)
    → (String → Result (Answer ContainerInspect))
    → String
    → Result ContainerDetails
unfolding get inspect_error details_of
inspect_container itoa atoi parse_time path_escape call id =
    map_error (inspect_error id)
      (get itoa call (concat ("/containers/" ∷ path_escape id ∷ "/json" ∷ [])))
    >>= λ i. ok (details_of atoi parse_time i)

-- A protocol that the engine leaves out is tcp.
split_port_spec_web :
    split_port_spec (λ s. if s == "80" then ℤ.pos 80 else ℤ.pos 0) "80/udp" ≡ (ℤ.pos 80, "udp")
unfolding split_port_spec
split_port_spec_web = refl

inspect_error-hidden : (id : String) (e : GoError) → is (inspect_error id e) err_not_found ≡ false
unfolding inspect_error is
inspect_error-hidden id e = elim (Bool-cases (is e err_not_found)) [
  | inl q ↦ rw q refl
  | inr q ↦ rw (q, q) refl
]

-- The package's own error for a missing container does not leave it: no error of InspectContainer is errNotFound.
pub inspect_container-hidden :
    (itoa : ℕ → String) (atoi parse_time : String → ℤ) (path_escape : String → String)
    (call : String → Result (Answer ContainerInspect)) (id : String) (e : GoError)
    → inspect_container itoa atoi parse_time path_escape call id ≡ err e
    → is e err_not_found ≡ false
unfolding inspect_container
inspect_container-hidden itoa atoi parse_time path_escape call id e h =
    elim (Result-cases (get itoa call (concat ("/containers/" ∷ path_escape id ∷ "/json" ∷ [])))) [
      | inl (i, q) ↦ let bad = rw (q, inspect_container) at h in cc
      | inr (er, q) ↦
          let same : inspect_error id er ≡ e = inner (rw (q, inspect_container) at h) in
          ap (λ x. is x err_not_found) (sym same) ∙ inspect_error-hidden id er
    ]
  where
    inner : {a b : GoError} → ◌≡◌ {A = Result ContainerDetails} (err a) (err b) → a ≡ b
    inner q = cc
