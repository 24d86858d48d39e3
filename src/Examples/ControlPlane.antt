-- ===== src/Examples/ControlPlane.antt =====
-- The control plane at concrete inputs: its start, and its end when the address of its HTTP server is taken.
use deploy_os.Base.{◌⊎◌, ◌≤◌, concat, ◌≡◌, refl, ◌↔◌, true, false, none, some, [], ◌∷◌}
use deploy_os.Go.Errors.{GoError, wrap, is, ok}
use deploy_os.Config.{
  Config, Options, Loader, Missing, missing, defaults, Source, AgentConfig, ServerConfig,
  SupabaseConfig, DeviceTokenConfig,
}
use deploy_os.Runtime.{
  Steps, stop, go, returned, finished, listening, selecting, stopping, draining,
}
use deploy_os.Runtime.HttpServer
use deploy_os.Runtime.GrpcServer
use deploy_os.ControlPlane.{
  Group, start, cancel, collect, Step, http_runs, grpc_runs, http_returns, grpc_returns, setup,
}
use deploy_os.ControlPlane.Ends.{IsOver, Onward, by_http, serve_ends}
use deploy_os.ControlPlane.Setup.{IsReady, setup-IsReady}
use deploy_os.Examples.Runtime.{taken, not_closed, stopped_server}

abbrev bind_error : GoError
bind_error = wrap "http server: " taken ""

abbrev failed_http : HttpServer.Run
failed_http = record {
  canceled = true;
  goroutine = finished;
  channel = [];
  point = returned (some bind_error);
}

abbrev over : Group
over = record {
  http = failed_http;
  grpc = stopped_server;
  http_done = true;
  grpc_done = true;
  error = some bind_error;
}

-- The HTTP server before its result reaches the group, and the gRPC server's states on its way.
abbrev http_sent : HttpServer.Run
http_sent = record {
  canceled = false;
  goroutine = finished;
  channel = some bind_error ∷ [];
  point = selecting;
}

abbrev http_over : HttpServer.Run
http_over = record http_sent { channel = []; point = returned (some bind_error) }

abbrev serving : GrpcServer.Run
serving = record {
  canceled = false;
  goroutine = listening;
  channel = [];
  point = selecting;
  stopper = GrpcServer.unstarted;
  forced = false;
}

abbrev grpc_stopping : GrpcServer.Run
grpc_stopping = record serving { canceled = true; point = stopping; stopper = GrpcServer.graceful }

abbrev grpc_draining : GrpcServer.Run
grpc_draining = record grpc_stopping { point = draining; forced = true }

abbrev grpc_sent : GrpcServer.Run
grpc_sent = record grpc_draining { goroutine = finished; channel = none ∷ [] }

abbrev group : HttpServer.Run → GrpcServer.Run → Group
group h g = record { http = h; grpc = g; http_done = false; grpc_done = false; error = none }

abbrev noted : GrpcServer.Run → Group
noted g = record {
  http = failed_http;
  grpc = g;
  http_done = true;
  grpc_done = false;
  error = some bind_error;
}

to_over : Steps Step 8 (start ":9090" none) over
unfolding start HttpServer.start GrpcServer.start HttpServer.serve_result is collect cancel
to_over =
    go {s = start ":9090" none} {t = group http_sent serving}
      (http_runs http_sent (HttpServer.serving_ends taken refl not_closed refl) refl refl)
      (go {s = group http_sent serving} {t = group http_over serving}
        (http_runs http_over (HttpServer.ends (some bind_error) [] refl refl refl) refl refl)
        (go {s = group http_over serving} {t = noted (record serving { canceled = true })}
          (http_returns (some bind_error) refl refl refl)
          (go {s = noted (record serving { canceled = true })} {t = noted grpc_stopping}
            (grpc_runs grpc_stopping (GrpcServer.stops refl refl refl refl) refl refl)
            (go {s = noted grpc_stopping} {t = noted grpc_draining}
              (grpc_runs grpc_draining (GrpcServer.times_out refl refl) refl refl)
              (go {s = noted grpc_draining} {t = noted grpc_sent}
                (grpc_runs grpc_sent (GrpcServer.serving_ends none refl (λ h. tt) refl) refl refl)
                (go {s = noted grpc_sent} {t = noted stopped_server}
                  (grpc_runs stopped_server (GrpcServer.drains none [] refl refl refl) refl refl)
                  (go {s = noted stopped_server} {t = over} (grpc_returns none refl refl refl)
                    (stop over))))))))

serve_ends_example : (8 ≤ 13) × (IsOver over ⊎ Onward over)
serve_ends_example = serve_ends ":9090" none 8 over to_over (by_http (some bind_error) refl)

abbrev pub settings : Config
settings = record {
  environment = "production";
  log_level = "info";
  agent = record {
    http_addr = ":8081";
    data_dir = "";
    api_base_url = "";
    grpc_server_addr = "";
    user_access_token = "";
    docker_socket = "";
  };
  server = record { http_addr = ":8080"; grpc_addr = ":9090" };
  supabase = record { url = "https://x"; anon_key = "k"; database_url = "postgres://x" };
  device_token = record { secret = "s"; ttl = 1 };
}

abbrev pub loader : Loader
loader = record {
  load_env = λ path. some missing;
  read_config = λ source. none;
  decode = λ d source. ok settings;
  home_dir = ok "/root";
  join = λ a b. concat (a ∷ "/" ∷ b ∷ []);
}

abbrev pub filled : Config
filled = record settings { agent = record settings.agent { data_dir = "/root/.deployos" } }

setup-IsReady_example :
    (setup loader (λ url. none) ≡ ok filled) ↔ IsReady loader (λ url. none) filled
setup-IsReady_example = setup-IsReady loader (λ url. none) filled

set_up : setup loader (λ url. none) ≡ ok filled
unfolding setup deploy_os.Config.load deploy_os.Config.validate_config
set_up = refl
