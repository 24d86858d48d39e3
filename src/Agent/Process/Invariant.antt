-- ===== src/Agent/Process/Invariant.antt =====
-- What holds of the two goroutines and the errgroup at any time.
use deploy_os.Base.{◌≡◌, refl, sym, ◌∙◌, Bool, true, false, Option, none, some}
use deploy_os.Go.Errors.{GoError}
use deploy_os.Runtime.{Point, returned}
use deploy_os.Runtime.HttpServer
use deploy_os.Runtime.HttpServer.Invariant as HttpInvariant
use deploy_os.Runtime.HttpServer.Ends as HttpEnds
use deploy_os.Connection.Client.Loop as Client
use deploy_os.Connection.Client.Loop.Ends as ClientEnds
use deploy_os.Connection.Client.{default_initial_backoff, default_max_backoff}
use deploy_os.Agent.Process.{
  Process, start, cancel, collect, Step, signals, conn_runs, http_runs, conn_returns, http_returns,
}

-- What the errgroup has of the HTTP server.
abbrev pub Noted : Bool → Point → Bool → Option GoError → Type 0
Noted false p canceled error = error ≡ none
Noted true p canceled error =
    (p ≡ returned error) × ((e : GoError) → error ≡ some e → canceled ≡ true)

pub record Inv (s : Process) : Type 0 where
  pub http : HttpInvariant.Inv s.http
  pub same : s.conn.canceled ≡ s.http.canceled
  pub connected : ClientEnds.IsConnected s.conn.connected s.conn.place
  pub conn_noted : s.conn_done ≡ true → s.conn.place ≡ Client.stopped
  pub http_noted : Noted s.http_done s.http.point s.http.canceled s.error

pub start-Inv : Inv start
unfolding start Client.start HttpServer.start
start-Inv = record {
  http = HttpInvariant.start-Inv false;
  same = refl;
  connected = refl;
  conn_noted = λ d. cc;
  http_noted = refl;
}

Noted-moves :
    (b : Bool) (p q : Point) (canceled c : Bool) (error : Option GoError)
    → ((r : Option GoError) → p ≡ returned r → q ≡ returned r)
    → (canceled ≡ true → c ≡ true)
    → Noted b p canceled error
    → Noted b q c error
Noted-moves false p q canceled c error stays f n = n
Noted-moves true p q canceled c error stays f n = (stays error n.0, λ e h. f (n.1 e h))

cancel-Inv : (s : Process) → Inv s → Inv (cancel s)
unfolding cancel
cancel-Inv s v = record {
  http = HttpInvariant.cancel-Inv s.http v.http;
  same = refl;
  connected = v.connected;
  conn_noted = v.conn_noted;
  http_noted =
      Noted-moves s.http_done s.http.point s.http.point s.http.canceled true s.error (λ r h. h)
        (λ h. refl) v.http_noted;
}

collect-Inv :
    (r : Option GoError) (s : Process)
    → s.http.point ≡ returned r
    → s.http_done ≡ false
    → Inv s
    → Inv (collect r (record s { http_done = true }))
unfolding collect cancel
collect-Inv none s p d v = record {
  http = v.http;
  same = v.same;
  connected = v.connected;
  conn_noted = v.conn_noted;
  http_noted = let clear : s.error ≡ none = rw d at v.http_noted in rw clear (p, λ e h. cc);
}
collect-Inv (some e) s p d v = record {
  http = HttpInvariant.cancel-Inv s.http v.http;
  same = refl;
  connected = v.connected;
  conn_noted = v.conn_noted;
  http_noted = let clear : s.error ≡ none = rw d at v.http_noted in rw clear (p, λ x h. refl);
}

pub Step-Inv : (s t : Process) → Step s t → Inv s → Inv t
Step-Inv s t (signals c e) v = rw e (cancel-Inv s v)
Step-Inv s t (conn_runs c step k e) v = rw e (record {
  http = v.http;
  same = k ∙ v.same;
  connected =
      ClientEnds.Step-IsConnected default_initial_backoff default_max_backoff s.conn c step
        v.connected;
  conn_noted = λ d.
      ClientEnds.stopped-stays default_initial_backoff default_max_backoff s.conn c step
        (v.conn_noted d);
  http_noted = v.http_noted;
})
Step-Inv s t (http_runs r step k e) v = rw e (record {
  http = HttpInvariant.Step-Inv s.http r step v.http;
  same = v.same ∙ sym k;
  connected = v.connected;
  conn_noted = v.conn_noted;
  http_noted =
      Noted-moves s.http_done s.http.point r.point s.http.canceled r.canceled s.error
        (λ o. HttpEnds.returned-stays s.http r o step) (λ h. k ∙ h) v.http_noted;
})
Step-Inv s t (conn_returns p d e) v = rw e (record {
  http = v.http;
  same = v.same;
  connected = v.connected;
  conn_noted = λ h. p;
  http_noted = v.http_noted;
})
Step-Inv s t (http_returns r p d e) v = rw e (collect-Inv r s p d v)
