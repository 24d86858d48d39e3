-- ===== src/CommandBus/Service/Invariant.antt =====
-- What holds of the service between any two steps of its calls.
use deploy_os.Base.{
  ℕ, ◌≤◌, String, ◌≡◌, refl, Bool, true, false, Option, none, some, List, [], ◌∷◌, arith, eq_iff,
  eq_refl,
}
use deploy_os.Go.Errors.{GoError}
use deploy_os.Proto.{CommandResult}
use deploy_os.Go.Map.{lookup, lookup-insert, lookup-delete}
use deploy_os.CommandBus.Service.{
  Request, Phase, waiting, returned, Call, Service, new_service, begin, set_phase, give_up,
  receive_from, write_channel, take_pending, HasId,
}

-- A call of Send that has not returned.
abbrev pub is_open : Phase → Bool
is_open (returned r) = false
is_open _ = true

-- The call with the id is in progress.
abbrev pub InProgress : String → Option Call → Type 0
InProgress id none = ⊥
InProgress id (some c) = (c.id ≡ id) × (is_open c.phase ≡ true)

-- A channel holds at most one result, which is for the call that owns the channel.
abbrev pub HeldFor : List CommandResult → Option Call → Type 0
HeldFor [] o = Unit
HeldFor (r ∷ rs) none = ⊥
HeldFor (r ∷ rs) (some c) = (r.command_id ≡ c.id) × (rs ≡ [])

pub record Inv (s : Service) : Type 0 where
  pub new_channels : (k : ℕ) → s.next_channel ≤ k → (s.calls k ≡ none) × (s.channels k ≡ [])
  pub unique : (id : String) (j k : ℕ) → HasId id (s.calls j) → HasId id (s.calls k) → j ≡ k
  -- A pending entry leads to the empty channel of a call in progress under that id.
  pub owned :
      (id : String) (k : ℕ)
      → lookup id s.pending ≡ some k
      → InProgress id (s.calls k) × (s.channels k ≡ [])
  pub held : (k : ℕ) → HeldFor (s.channels k) (s.calls k)
  -- A call in progress whose channel is empty is pending.
  pub reachable :
      (k : ℕ) (c : Call)
      → s.calls k ≡ some c
      → is_open c.phase ≡ true
      → s.channels k ≡ []
      → lookup c.id s.pending ≡ some k

pub new_service-Inv : Inv new_service
unfolding new_service lookup
new_service-Inv = record {
  new_channels = λ k le. (refl, refl);
  unique = λ id j k p q. elim p [ ];
  owned = λ id k e. cc;
  held = λ k. tt;
  reachable = λ k c e. cc;
}

pub begin-Inv :
    (id device_id : String) (req : Request) (s : Service)
    → ((k : ℕ) → ¬ HasId id (s.calls k))
    → Inv s
    → Inv (begin id device_id req s)
unfolding begin
begin-Inv id device_id req s fresh v = record {
  new_channels = λ k le. ground (arith, v.new_channels k);
  unique = λ i j k p q. ground (arith, v.unique i j k, fresh j, fresh k);
  owned = λ i k e. ground (
    arith,
    eq_iff id i,
    lookup-insert id i s.next_channel s.pending,
    v.owned i k,
    v.new_channels k,
  );
  held = λ k. ground (arith, v.held k, v.new_channels k);
  reachable = λ k c e o empty. ground (
    arith,
    eq_iff id c.id,
    eq_refl id,
    lookup-insert id c.id s.next_channel s.pending,
    v.reachable k c,
    fresh k,
  );
}

-- A call goes on with another open phase.
pub set_phase-Inv :
    (k : ℕ) (c : Call) (p : Phase) (s : Service)
    → s.calls k ≡ some c
    → is_open c.phase ≡ true
    → is_open p ≡ true
    → Inv s
    → Inv (set_phase k c p s)
unfolding set_phase
set_phase-Inv k c p s e o o' v = record {
  new_channels = λ j le. ground (arith, v.new_channels j);
  unique = λ i j l q r. ground (arith, v.unique i j l);
  owned = λ i j q. ground (arith, v.owned i j);
  held = λ j. ground (arith, v.held j);
  reachable = λ j d q r empty. ground (arith, v.reachable j d, v.reachable k c);
}

pub give_up-Inv :
    (k : ℕ) (c : Call) (er : GoError) (s : Service)
    → s.calls k ≡ some c
    → Inv s
    → Inv (give_up k c er s)
unfolding give_up
give_up-Inv k c er s e v = record {
  new_channels = λ j le. ground (arith, v.new_channels j);
  unique = λ i j l q r. ground (arith, v.unique i j l);
  owned = λ i j q. ground (arith, eq_iff c.id i, lookup-delete c.id i s.pending, v.owned i j);
  held = λ j. ground (arith, v.held j);
  reachable = λ j d q r empty. ground (
    arith,
    eq_iff c.id d.id,
    lookup-delete c.id d.id s.pending,
    v.reachable j d,
    v.unique c.id j k,
  );
}

-- A waiting call takes what its channel holds.
pub receive-Inv :
    (k : ℕ) (result : CommandResult) (rest : List CommandResult) (c : Call) (s : Service)
    → s.calls k ≡ some c
    → s.channels k ≡ result ∷ rest
    → c.phase ≡ waiting
    → Inv s
    → Inv (receive_from k (result ∷ rest) c waiting s)
unfolding receive_from
receive-Inv k result rest c s e full w v = record {
  new_channels = λ j le. ground (arith, v.new_channels j);
  unique = λ i j l q r. ground (arith, v.unique i j l);
  owned = λ i j q. ground (arith, v.owned i j);
  held = λ j. ground (arith, v.held j);
  reachable = λ j d q r empty. ground (arith, v.reachable j d);
}

-- A result reaches the channel of the call that its id leads to.
pub deliver-Inv :
    (k : ℕ) (result : CommandResult) (s : Service)
    → lookup result.command_id s.pending ≡ some k
    → Inv s
    → Inv (take_pending result (some k) s).0
unfolding take_pending write_channel
deliver-Inv k result s e v =
    let empty : s.channels k ≡ [] = (v.owned result.command_id k e).1 in
    rw empty (record {
      new_channels = λ j le. ground (arith, v.new_channels j, v.owned result.command_id k e);
      unique = λ i j l q r. ground (arith, v.unique i j l);
      owned = λ i j q. ground (
        arith,
        eq_iff result.command_id i,
        lookup-delete result.command_id i s.pending,
        v.owned i j,
        v.owned result.command_id k e,
      );
      held = λ j. ground (arith, v.held j, v.owned result.command_id k e);
      reachable = λ j d q r none_held. ground (
        arith,
        eq_iff result.command_id d.id,
        lookup-delete result.command_id d.id s.pending,
        v.reachable j d,
      );
    })
