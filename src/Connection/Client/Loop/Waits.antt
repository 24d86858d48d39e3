-- ===== src/Connection/Client/Loop/Waits.antt =====
-- The waits of Client.Run, whatever its attempts give and whenever its context ends.
use deploy_os.Base.{ℕ, ◌*◌, min, List, [], ◌∷◌, ◌++◌}
use deploy_os.Runtime.{Steps, stop, go}
use deploy_os.Connection.Client.{Round, run_from}
use deploy_os.Connection.Client.Loop.{Place, sleeping, Loop, Step, sleeps}

-- The backoff that the next wait starts from, at a place.
abbrev pending : ℕ → ℕ → Place → ℕ
pending max_backoff b sleeping = min (b * 2) max_backoff
pending max_backoff b _ = b

module _ (initial max_backoff : ℕ) where
  -- The round of a step that starts a wait: whether the attempt behind which it starts authenticated, and its draw.
  abbrev rounds_of_step : {s t : Loop} → Step initial max_backoff s t → List Round → List Round
  rounds_of_step (sleeps authenticated draw p c few e) later =
      record { authenticated = authenticated; draw = draw } ∷ later
  rounds_of_step _ later = later

  -- The rounds of a run, one for each wait that it starts, in order.
  abbrev pub rounds_of : {n : ℕ} {s t : Loop} → Steps (Step initial max_backoff) n s t → List Round
  rounds_of (stop s) = []
  rounds_of (go r rest) = rounds_of_step r (rounds_of rest)

  -- What a state has waited and will wait by some rounds.
  waits_with : Loop → List Round → List ℕ
  waits_with s later =
      s.waits ++ run_from initial max_backoff (pending max_backoff s.backoff s.place) later
