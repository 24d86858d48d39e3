-- ===== src/Fleet/Registration/Answer.antt =====
-- internal/devices/handler.go to internal/agent/registrar.go: what an answer that the agent takes for a success came from.
use deploy_os.Base.{
  ℕ, String, concat, ◌≡◌, refl, sym, ap, ◌∙◌, ◌⊎◌, inl, inr, Option, none, some, [], ◌∷◌, arith,
  Bool-cases,
}
use deploy_os.Go.Errors.{GoError, is, Result, ok, err, ok_inj}
use deploy_os.Auth.{User, Reply, success, failure, caller}
use deploy_os.Agent.Registrar.{
  Json, HttpResponse, DeviceRegisterRequest, register, register-IsAccepted, register_request,
}
use deploy_os.Devices.{Device, RegisterInput, err_invalid_input, err_owned_by_another_user}
use deploy_os.Devices.Service
use deploy_os.Devices.Service.{RegisterResult, device_of}
use deploy_os.Devices.Table.{Database, repository}
use deploy_os.Devices.Handler.{
  RegisterResponse, register_device, register_as, register_decoded, response_of, service_error,
}
use deploy_os.Devices.Handler.Ownership.{register_device-IsCreated}
use deploy_os.Fleet.Registration.{
  ServerJson, IsJson, input_of, written, http_reply, input_from, serve_register, IsServed,
}

-- A reply to a registration is a success exactly when its status is 201.
abbrev IsPlain : Reply RegisterResponse → Type 0
IsPlain (success status r) = status ≡ 201
IsPlain (failure status message) = ¬ (status ≡ 201)

service_error-IsPlain : (e : GoError) → IsPlain (service_error e)
unfolding service_error
service_error-IsPlain e = elim (Bool-cases (is e err_invalid_input)) [
  | inl q ↦ rw q (λ h. omega (arith, h))
  | inr q ↦ elim (Bool-cases (is e err_owned_by_another_user)) [
    | inl o ↦ rw (q, o) (λ h. omega (arith, h))
    | inr o ↦ rw (q, o) (λ h. omega (arith, h))
  ]
]

response_of-IsPlain : (r : Result RegisterResult) → IsPlain (response_of r)
unfolding response_of
response_of-IsPlain (err e) = service_error-IsPlain e
response_of-IsPlain (ok r) = refl

module _ (issuer : Device → Result (String × ℕ)) (parse_uuid : String → Result (Unit {0}))
    (db : Database) where
  decoded-IsPlain :
      (user : User) (body : Option RegisterInput)
      → IsPlain (register_decoded repository issuer parse_uuid user body db).1
  unfolding register_decoded
  decoded-IsPlain user none = λ h. omega (arith, h)
  decoded-IsPlain user (some i) =
      response_of-IsPlain (Service.register repository issuer parse_uuid user.id i db).1

  called-IsPlain :
      (c : String ⊎ User) (body : Option RegisterInput)
      → IsPlain (register_as repository issuer parse_uuid c body db).1
  unfolding register_as
  called-IsPlain (inl m) body = λ h. omega (arith, h)
  called-IsPlain (inr user) body = decoded-IsPlain user body

  register_device-IsPlain :
      (directory : String → Result User) (header : String) (body : Option RegisterInput)
      → IsPlain (register_device repository issuer parse_uuid directory header body db).1
  unfolding register_device
  register_device-IsPlain directory header body = called-IsPlain (caller directory header) body

-- A status of 201 on the wire is a success, with its body.
created_reply :
    (server : ServerJson) (r : Reply RegisterResponse)
    → IsPlain r
    → (http_reply server r).status ≡ 201
    → (resp : RegisterResponse) × (r ≡ success 201 resp)
      × ((http_reply server r).body ≡ written (server.encode_response resp))
unfolding http_reply
created_reply server (success status resp) p h = (resp, ap (λ s. success s resp) p, refl)
created_reply server (failure status m) p h = absurd (p h)

-- What the agent decodes is what the control plane answered with.
decoded_response :
    (json : Json) (server : ServerJson) (codec : IsJson json server) (sent resp : RegisterResponse)
    → json.decode_response (written (server.encode_response sent)) ≡ ok resp
    → sent ≡ resp
decoded_response json server codec sent resp h = by (server.encode_response sent) refl h
  where
    by :
        (x : Result String)
        → server.encode_response sent ≡ x
        → json.decode_response (written x) ≡ ok resp
        → sent ≡ resp
    by (err e) q g = absurd (codec.nothing resp g)
    by (ok body) q g = ok_inj (sym (codec.response sent body q) ∙ g)

paired :
    (x : Database × Reply RegisterResponse) (resp : RegisterResponse)
    → x.1 ≡ success 201 resp
    → x ≡ (x.0, success 201 resp)
paired (a, b) resp e = ap (λ r. (a, r)) e

module _ (json : Json) (server : ServerJson) (codec : IsJson json server)
    (issuer : Device → Result (String × ℕ)) (parse_uuid : String → Result (Unit {0}))
    (directory : String → Result User) (db : Database) where
  pub register-IsServed :
      (base_url access_token : String) (req : DeviceRegisterRequest) (resp : RegisterResponse)
      → register json
          (λ r. ok (serve_register server issuer parse_uuid directory r db).1)
          base_url
          access_token
          req
        ≡ ok resp
      → IsServed issuer parse_uuid directory access_token req db resp
  unfolding serve_register register_request
  register-IsServed base_url access_token req resp h =
      let a =
        (register-IsAccepted json
            (λ r. ok (serve_register server issuer parse_uuid directory r db).1) base_url
            access_token req resp).0
          h in
      let header = concat ("Bearer " ∷ access_token ∷ []) in
      let body : input_from (server.decode_request a.body) ≡ some (input_of req) =
        ap input_from (codec.request req a.body a.encoded) in
      let done =
        register_device repository issuer parse_uuid directory header (some (input_of req)) db in
      let reply : http_reply server done.1 ≡ a.response =
        ap
          (λ b.
            http_reply server
              (register_device repository issuer parse_uuid directory header b db).1)
          (sym body)
        ∙ ok_inj a.answered in
      let plain =
        register_device-IsPlain issuer parse_uuid db directory header (some (input_of req)) in
      let (sent, e, text) =
        created_reply server done.1 plain (ap (λ (r : HttpResponse). r.status) reply ∙ a.created) in
      let same : sent ≡ resp = decoded_response json server codec sent resp (
        ap json.decode_response (sym text ∙ ap (λ (r : HttpResponse). r.body) reply) ∙ a.decoded) in
      record {
        after = done.0;
        created =
            register_device-IsCreated issuer parse_uuid directory header (input_of req) db done.0
              resp (paired done resp (e ∙ ap (λ r. success 201 r) same));
      }
