-- ===== src/Examples/Process.antt =====
-- The agent's process and its connection loop at concrete runs.
use deploy_os.Base.{◌≤◌, ◌≡◌, refl, ◌↔◌, ◌⊎◌, true, false, [], ◌∷◌}
use deploy_os.Runtime.{Steps, stop, go}
use deploy_os.Runtime.HttpServer
use deploy_os.Monitoring
use deploy_os.Connection.Client.Loop as Client
use deploy_os.Agent.Routes.{serve, health}
use deploy_os.Agent.Process.{Process, start, cancel, Step, signals, conn_runs}
use deploy_os.Agent.Process.Ends.{IsOver, by_signal, agent_ends, health_reports}

-- The agent connects.
abbrev dialed : Process
dialed = record start { conn = record start.conn { place = Client.connecting false } }

abbrev online : Process
online = record start {
  conn = record start.conn { place = Client.connecting true; connected = true };
}

connects : Steps Step 2 start online
unfolding start Client.start HttpServer.start
connects =
    go (conn_runs dialed.conn (Client.dials refl refl refl) refl refl)
      (go (conn_runs online.conn (Client.authenticates refl refl) refl refl) (stop online))

health_reports_example :
    (serve "0.1.0" (Client.is_connected online.conn) "GET" ("healthz" ∷ [])
      ≡ health (200, Monitoring.status_ok))
    ↔ (online.conn.place ≡ Client.connecting true)
health_reports_example = health_reports "0.1.0" 2 online connects

-- A signal comes, and connectOnce returns.
abbrev left : Process
left = record (cancel online) {
  conn = record (cancel online).conn { place = Client.attempted true; connected = false };
}

connects_and_signals : Steps Step 3 start (cancel online)
unfolding start Client.start HttpServer.start
connects_and_signals = go (conn_runs dialed.conn (Client.dials refl refl refl) refl refl) (
    go (conn_runs online.conn (Client.authenticates refl refl) refl refl)
      (go (signals refl refl) (stop (cancel online))))

disconnects : Steps Step 1 (cancel online) left
unfolding cancel
disconnects = go (conn_runs left.conn (Client.disconnects true refl refl) refl refl) (stop left)

agent_ends_example : (1 ≤ 9) × (IsOver left ⊎ ((w : Process) × Step left w))
unfolding cancel
agent_ends_example =
    agent_ends 3 1 (cancel online) left connects_and_signals (by_signal refl) disconnects

-- One failed attempt, and its wait.
abbrev first : Client.Loop
first = Client.start 1000

abbrev asleep : Client.Loop
asleep = Client.sleep 1000 false 0 (record first { place = Client.attempted false })

waited : asleep.waits ≡ 800 ∷ []
unfolding Client.sleep Client.start
waited = refl
