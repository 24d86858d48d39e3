-- ===== src/Examples/Runtime.antt =====
-- The servers' lives at concrete inputs.
use deploy_os.Base.{◌≡◌, refl, true, false, none, some, []}
use deploy_os.Go.Errors.{GoError, sentinel, other, wrap, is}
use deploy_os.Runtime.{Steps, stop, go, returned, finished}
use deploy_os.Runtime.HttpServer
use deploy_os.Runtime.GrpcServer

-- An HTTP server that is canceled, and shut down.
abbrev shut_down : HttpServer.Run
shut_down = record { canceled = true; goroutine = finished; channel = []; point = returned none }

shutting_down : Steps HttpServer.Step 5 (HttpServer.start false) shut_down
unfolding HttpServer.start HttpServer.serve_result is
shutting_down = go (HttpServer.cancels refl refl) (
    go (HttpServer.stops refl refl refl) (
      go (HttpServer.shut_down refl refl) (
        go (HttpServer.serving_ends (sentinel HttpServer.err_server_closed) refl (λ h. tt) refl)
          (go (HttpServer.drains none [] refl refl refl) (stop shut_down)))))

-- One whose address is taken.
abbrev pub taken : GoError
taken = other "listen tcp :8081: bind: address already in use"

abbrev failed_server : HttpServer.Run
failed_server = record {
  canceled = false;
  goroutine = finished;
  channel = [];
  point = returned (some (wrap "http server: " taken ""));
}

pub not_closed : ¬ (is taken HttpServer.err_server_closed ≡ true)
unfolding is
not_closed h = cc

failing : Steps HttpServer.Step 2 (HttpServer.start false) failed_server
unfolding HttpServer.start HttpServer.serve_result is
failing = go (HttpServer.serving_ends taken refl not_closed refl) (
    go (HttpServer.ends (some (wrap "http server: " taken "")) [] refl refl refl)
      (stop failed_server))

-- A gRPC server whose streams stay open past the timeout.
abbrev pub stopped_server : GrpcServer.Run
stopped_server = record {
  canceled = true;
  goroutine = finished;
  channel = [];
  point = returned none;
  stopper = GrpcServer.graceful;
  forced = true;
}

stopping_server : Steps GrpcServer.Step 4 (GrpcServer.start ":9090" none true) stopped_server
unfolding GrpcServer.start
stopping_server = go (GrpcServer.stops refl refl refl refl) (
    go (GrpcServer.times_out refl refl) (
      go (GrpcServer.serving_ends none refl (λ h. tt) refl)
        (go (GrpcServer.drains none [] refl refl refl) (stop stopped_server))))

pub grpc_halted :
    (u : GrpcServer.Run)
    → GrpcServer.Step stopped_server u
    → u ≡ record stopped_server { stopper = GrpcServer.closed }
grpc_halted u (GrpcServer.cancels c e) = cc
grpc_halted u (GrpcServer.serving_ends r g h e) = cc
grpc_halted u (GrpcServer.ends r rest p c e) = cc
grpc_halted u (GrpcServer.stops p c n e) = cc
grpc_halted u (GrpcServer.graceful_ends n e) = e
grpc_halted u (GrpcServer.stopped p n e) = cc
grpc_halted u (GrpcServer.times_out p e) = cc
grpc_halted u (GrpcServer.drains r rest p c e) = cc
