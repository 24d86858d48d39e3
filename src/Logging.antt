-- ===== src/Logging.antt =====
-- internal/logging: the level of the logger, and the middleware that logs a request's status. A handler is the
-- writes that it makes on its http.ResponseWriter; what net/http makes of them is the model's `sent`.
use deploy_os.Base.{
  ℕ, ◌+◌, String, ◌≡◌, refl, Bool, true, false, not, ◌&&◌, ◌||◌, Option, none, some, List, [], ◌∷◌,
  map, ltb, leb, nat_eq, if◌then◌else◌,
}
use deploy_os.Go.Text.{trim_space, codes}
use deploy_os.Auth.{Reply, success, failure}

-- slog.Level
pub data Level : Type 0 where
  level_debug level_info level_warn level_error : Level

-- unicode.ToLower, for the letters whose lower case is in ASCII; no other letter takes part in a level's name.
lower_code : ℕ → ℕ
lower_code c =
    if leb b'A' c && leb c b'Z'
    then c + 32
    else if nat_eq c 0x130
    then b'i'
    else if nat_eq c 0x212a
    then b'k'
    else c

same_codes : List ℕ → List ℕ → Bool
same_codes [] [] = true
same_codes (x ∷ xs) (y ∷ ys) = nat_eq x y && same_codes xs ys
same_codes _ _ = false

-- strings.ToLower(strings.TrimSpace(level))
normalized : String → List ℕ
unfolding lower_code trim_space
normalized level = map lower_code (codes (trim_space level))

-- parseLevel
unfoldable pub parse_level : String → Level
unfolding normalized same_codes
parse_level level =
    let l = normalized level in
    if same_codes l (codes "debug")
    then level_debug
    else if same_codes l (codes "warn") || same_codes l (codes "warning")
    then level_warn
    else if same_codes l (codes "error")
    then level_error
    else level_info

-- One call of a handler on its writer.
pub data Write : Type 0 where
  write_header : ℕ → Write
  write : String → Write

-- A status in the hundreds but 101 is sent at once and leaves the real one open.
abbrev pub is_informational : ℕ → Bool
is_informational status = leb 100 status && ltb status 200 && not (nat_eq status 101)

-- The status that net/http sends: of the first call that is not informational, 200 if there is none or a body comes first.
unfoldable pub sent : List Write → ℕ
sent [] = 200
sent (write_header status ∷ ws) =
    let later = sent ws in if is_informational status then later else status
sent (write body ∷ ws) = 200

-- statusRecorder.WriteHeader over the writes of a handler, from the status in front of it
unfoldable pub record_from : ℕ → List Write → ℕ
record_from status [] = status
record_from status (write_header s ∷ ws) = record_from s ws
record_from status (write body ∷ ws) = record_from status ws

-- What the middleware logs of a request.
pub record Entry : Type 0 where
  pub request_id : String
  pub method : String
  pub path : String
  pub status : ℕ

-- newRequestID, from the bytes that rand.Read gave, in hex
abbrev pub new_request_id : Option String → String
new_request_id none = "unknown"
new_request_id (some id) = id

-- Middleware: the handler gets the request's id in its context, and its writes go through the recorder. The
-- duration is left out.
unfoldable pub middleware :
    (String → List Write) → Option String → String → String → List Write × Entry
unfolding record_from
middleware next id method path =
    let request_id = new_request_id id in
    let writes = next request_id in
    (
      writes,
      record {
        request_id = request_id;
        method = method;
        path = path;
        status = record_from 200 writes;
      },
    )

-- The handler writes one status, none of the informational ones, in front of any body; or no status at all.
abbrev pub NoHeader : List Write → Type 0
NoHeader [] = Unit
NoHeader (write_header s ∷ ws) = ⊥
NoHeader (write body ∷ ws) = NoHeader ws

abbrev pub IsOrderly : List Write → Type 0
IsOrderly [] = Unit
IsOrderly (write_header s ∷ ws) = (is_informational s ≡ false) × NoHeader ws
IsOrderly (write body ∷ ws) = NoHeader ws

record_from-NoHeader : (status : ℕ) (ws : List Write) → NoHeader ws → record_from status ws ≡ status
unfolding record_from
record_from-NoHeader status [] h = refl
record_from-NoHeader status (write_header s ∷ ws) h = absurd h
record_from-NoHeader status (write body ∷ ws) h = record_from-NoHeader status ws h

record_from-sent : (ws : List Write) → IsOrderly ws → record_from 200 ws ≡ sent ws
unfolding record_from sent
record_from-sent [] h = refl
record_from-sent (write_header s ∷ ws) h = rw (record_from-NoHeader s ws h.1, h.0)
record_from-sent (write body ∷ ws) h = record_from-NoHeader 200 ws h

-- For a handler that writes at most one status, not an informational one, and that in front of
-- any body, the middleware logs the status that is sent, and leaves the handler's writes, made
-- under the request's id that it logs, as they are.
pub middleware-sent :
    (next : String → List Write) (id : Option String) (method path : String)
    → ((request_id : String) → IsOrderly (next request_id))
    → let (writes, entry) = middleware next id method path in
      (entry.status ≡ sent writes) × (writes ≡ next entry.request_id)
unfolding middleware
middleware-sent next id method path orderly =
    (record_from-sent (next (new_request_id id)) (orderly (new_request_id id)), refl)

-- writeJSON and writeError
unfoldable pub writes_of {ℓ} : {A : Type ℓ} → (A → String) → Reply A → List Write
writes_of encode (success status body) = write_header status ∷ write (encode body) ∷ []
writes_of encode (failure status message) = write_header status ∷ write message ∷ []

-- The reply's status is not informational.
abbrev pub IsFinal {ℓ} : {A : Type ℓ} → Reply A → Type 0
IsFinal (success status body) = is_informational status ≡ false
IsFinal (failure status message) = is_informational status ≡ false

-- The replies of the control plane's handlers are written in order.
pub writes_of-IsOrderly {ℓ} :
    {A : Type ℓ} (encode : A → String) (r : Reply A) → IsFinal r → IsOrderly (writes_of encode r)
unfolding writes_of
writes_of-IsOrderly encode (success status body) h = (h, tt)
writes_of-IsOrderly encode (failure status message) h = (h, tt)

warned : parse_level " Warning\n" ≡ level_warn
unfolding parse_level
warned = refl
