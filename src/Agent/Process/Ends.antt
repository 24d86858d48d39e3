-- ===== src/Agent/Process/Ends.antt =====
-- The agent ends with its context, and reports its connection as it is.
use deploy_os.Base.{
  ℕ, ◌≤◌, String, ◌≡◌, refl, sym, ap, ◌∙◌, ◌↔◌, ◌⊎◌, inl, inr, Bool, true, false, Option, [], ◌∷◌,
  arith, Bool-cases,
}
use deploy_os.Go.Errors.{GoError}
use deploy_os.Runtime.{Steps, Steps-invariant, returned, point-cases}
use deploy_os.Runtime.HttpServer.Ends as HttpEnds
use deploy_os.Runtime.Group.{then_stage, http-canceled}
use deploy_os.Monitoring
use deploy_os.Connection.Client.Loop as Client
use deploy_os.Connection.Client.Loop.Ends as ClientEnds
use deploy_os.Connection.Client.{default_initial_backoff, default_max_backoff}
use deploy_os.Agent.Process.{
  Process, start, collect, Step, conn_runs, http_runs, conn_returns, http_returns,
}
use deploy_os.Agent.Routes.{serve, health, serve-health}
use deploy_os.Agent.Start.{agent_health, agent_health_lem}
use deploy_os.Agent.Process.Invariant.{Inv, start-Inv, Step-Inv}
use deploy_os.Agent.Process.Rank.{Steps-rank, rank_most}

-- Both goroutines have returned, the connection is reported as closed, and Wait returns what the HTTP server returned.
pub record IsOver (t : Process) : Type 0 where
  pub conn_returned : t.conn.place ≡ Client.stopped
  pub disconnected : t.conn.connected ≡ false
  pub http_returned : t.http.point ≡ returned t.error
  pub conn_collected : t.conn_done ≡ true
  pub http_collected : t.http_done ≡ true

abbrev Onward : Process → Type 0
Onward t = (u : Process) × Step t u

conn-returned :
    (t : Process) → Inv t → t.http.canceled ≡ true → (t.conn.place ≡ Client.stopped) ⊎ Onward t
conn-returned t v c =
    elim (ClientEnds.progress default_initial_backoff default_max_backoff t.conn (v.same ∙ c)
      t.conn.place refl) [
        | inl done ↦ inl done
        | inr a ↦ inr (record t { conn = a.after }, conn_runs a.after a.step a.kept refl)
      ]

http-returned :
    (t : Process)
    → Inv t
    → t.http.canceled ≡ true
    → ((r : Option GoError) × (t.http.point ≡ returned r)) ⊎ Onward t
http-returned t v c = elim (point-cases t.http.point) [
  | inl done ↦ inl done
  | inr running ↦
      let a = HttpEnds.Inv-progress t.http v.http c t.http.point refl running in
      inr (record t { http = a.after }, http_runs a.after a.step a.kept refl)
]

conn-collected : (t : Process) → t.conn.place ≡ Client.stopped → (t.conn_done ≡ true) ⊎ Onward t
conn-collected t p = elim (Bool-cases t.conn_done) [
  | inl d ↦ inl d
  | inr d ↦ inr (record t { conn_done = true }, conn_returns p d refl)
]

http-collected :
    (t : Process) (r : Option GoError) → t.http.point ≡ returned r → (t.http_done ≡ true) ⊎ Onward t
http-collected t r p = elim (Bool-cases t.http_done) [
  | inl d ↦ inl d
  | inr d ↦ inr (collect r (record t { http_done = true }), http_returns r p d refl)
]

over : (t : Process) → Inv t → t.http.canceled ≡ true → IsOver t ⊎ Onward t
over t v c = then_stage (conn-returned t v c) (λ p. then_stage (http-returned t v c) (λ (r, q).
    then_stage (conn-collected t p) (λ d. then_stage (http-collected t r q) (λ h. inl (record {
      conn_returned = p;
      disconnected = rw p at v.connected;
      http_returned = (rw h at v.http_noted).0;
      conn_collected = d;
      http_collected = h;
    })))))

-- What sets the end in motion.
pub data IsEnding (t : Process) : Type 0 where
  by_signal : t.http.canceled ≡ true → IsEnding t
  by_http : t.http_done ≡ true → IsEnding t

ending-canceled : (t : Process) → Inv t → IsEnding t → t.http.canceled ≡ true
ending-canceled t v (by_signal c) = c
ending-canceled t v (by_http d) =
    let (p, noted) = rw d at v.http_noted in
    http-canceled t.http.canceled t.error noted (rw p at v.http.gave)

-- Once the context of the agent is canceled or its errgroup has the result of the HTTP server,
-- at most nine further steps are taken, in whatever order; and behind each of them a further
-- step can be taken, or Client.Run has returned with the connection reported as closed, the HTTP
-- server has returned, the errgroup has both, and its error is what the HTTP server returned.
pub agent_ends :
    (n m : ℕ) (t u : Process)
    → Steps Step n start t
    → IsEnding t
    → Steps Step m t u
    → (m ≤ 9) × (IsOver u ⊎ ((w : Process) × Step u w))
agent_ends n m t u before ending later =
    let v = Steps-invariant Step Inv Step-Inv before start-Inv in
    let c = ending-canceled t v ending in
    let (w, d, few) = Steps-rank later v c in
    let most = rank_most t c in (omega (arith, few, most), over u w d)

-- The flag is set just behind a positive answer.
connected-place :
    (connected : Bool) (p : Client.Place)
    → ClientEnds.IsConnected connected p
    → (connected ≡ true) ↔ (p ≡ Client.connecting true)
connected-place connected (Client.connecting true) h = (λ e. refl, λ e. h)
connected-place connected (Client.connecting false) h = (λ e. cc, λ e. cc)
connected-place connected Client.checking h = (λ e. cc, λ e. cc)
connected-place connected (Client.attempted b) h = (λ e. cc, λ e. cc)
connected-place connected Client.sleeping h = (λ e. cc, λ e. cc)
connected-place connected Client.stopped h = (λ e. cc, λ e. cc)

health-connected :
    (connected : Bool) → (agent_health connected ≡ (200, Monitoring.status_ok)) ↔ (connected ≡ true)
health-connected true = (λ e. refl, λ e. agent_health_lem true)
health-connected false =
    (λ e. let bad = ap (λ y. y.0) (sym (agent_health_lem false) ∙ e) in ground arith, λ e. cc)

-- In every run of the agent, its HTTP server answers GET /healthz with 200 and the status ok
-- exactly while connectOnce stands between the positive answer to its authentication and its
-- return.
pub health_reports :
    (agent_version : String) (n : ℕ) (t : Process)
    → Steps Step n start t
    → (serve agent_version (Client.is_connected t.conn) "GET" ("healthz" ∷ [])
        ≡ health (200, Monitoring.status_ok))
      ↔ (t.conn.place ≡ Client.connecting true)
unfolding Client.is_connected
health_reports agent_version n t before =
    let v = Steps-invariant Step Inv Step-Inv before start-Inv in
    let (there, back) = connected-place t.conn.connected t.conn.place v.connected in
    let (a, b) = health-connected t.conn.connected in
    let served = serve-health agent_version t.conn.connected in
    (λ e. there (a (same_health (sym served ∙ e))), λ e. served ∙ ap health (b (back e)))
  where
    same_health : {x y : ℕ × Monitoring.Status} → health x ≡ health y → x ≡ y
    same_health q = cc
