-- ===== src/Connection/Server/Reconnect.antt =====
-- What the end of a stream does to the device, alone and beside another stream of the same device.
use deploy_os.Base.{
  ℕ, String, ◌≡◌, refl, ◌∙◌, ◌⊎◌, inl, inr, true, false, none, some, List, [], ◌∷◌, arith, eq_refl,
  nat_eq, Bool-cases, Option-cases,
}
use deploy_os.Go.Errors.{sentinel, ok, err}
use deploy_os.Go.Map.{lookup, lookup-delete}
use deploy_os.Connection.Manager.{remove, get, is_connected, is_connected-none, get-remove}
use deploy_os.Connection.Server.{
  Phase, registered, tracked, serving, removed, Connection, Server, new_server, untrack, drop_own,
  close_stream, Event, ends, returns, step, run, end_at, return_at, find_handle,
  err_device_not_connected,
}
use deploy_os.Connection.Server.Invariant.{Serves, is_live, new_server-Inv}
use deploy_os.Connection.Server.Interleaving.{run-Inv}

-- After any interleaving of the handlers' steps on a new server, a device for which every
-- handler has returned is not reported as connected, and a Send to it fails with
-- ErrDeviceNotConnected.
pub gone_device :
    (es : List Event) (d : String)
    → let s = run es new_server in
      ((h : ℕ) → ¬ Serves d (s.connections h))
      → (is_connected d s.manager ≡ false)
        × (find_handle d s ≡ err (sentinel err_device_not_connected))
unfolding find_handle
gone_device es d none_serves =
    let s = run es new_server in
    let v = run-Inv es new_server new_server-Inv in
    (
      elim (Option-cases (get d s.manager)) [
        | inl e ↦ is_connected-none d s.manager e
        | inr (st, e) ↦
            let (h, c, here, _, same, _, _) = v.alive d st e in
            absurd (none_serves h (rw here same))
      ],
      elim (Option-cases (lookup d s.streams)) [
        | inl e ↦ rw (e, find_handle)
        | inr (h, e) ↦ absurd (none_serves h (v.owned d h e))
      ],
    )

live_end :
    (h : ℕ) (c : Connection) (p : Phase) (s : Server)
    → is_live p ≡ true
    → end_at h c p s ≡ untrack h c s
unfolding end_at
live_end h c tracked s l = refl
live_end h c serving s l = refl
live_end h c registered s l = cc
live_end h c removed s l = cc

step_ends :
    (h : ℕ) (c : Connection) (s : Server)
    → s.connections h ≡ some c
    → is_live c.phase ≡ true
    → step (ends h) s ≡ untrack h c s
unfolding step
step_ends h c s e live = rw e (live_end h c c.phase s live)

-- Where two handlers serve one device and a Send finds the newer one, which is in its receive
-- loop, the manager.Remove of the older handler leaves the device reported as not connected,
-- though the newer handler still serves and a Send still finds it.
pub older_end_untracks_newer :
    (s : Server) (d : String) (old new : ℕ) (c c' : Connection)
    → s.connections old ≡ some c
    → is_live c.phase ≡ true
    → c.device_id ≡ d
    → s.connections new ≡ some c'
    → c'.phase ≡ serving
    → c'.device_id ≡ d
    → ¬ (old ≡ new)
    → find_handle d s ≡ ok new
    → let t = step (ends old) s in
      (is_connected d t.manager ≡ false)
      × (find_handle d t ≡ ok new)
      × (t.connections new ≡ some c')
unfolding untrack find_handle
older_end_untracks_newer s d old new c c' e live dev e' serves dev' apart found =
    let gone : get d (remove c.device_id s.manager) ≡ none =
      get-remove c.device_id d s.manager ∙ rw (dev, eq_refl d) in
    rw (step_ends old c s e live)
      (is_connected-none d (remove c.device_id s.manager) gone, found, ground arith)

-- The end of a handler, both deferred calls.
abbrev pub finish : ℕ → List Event
finish h = ends h ∷ returns h ∷ []

step_returns :
    (h : ℕ) (c : Connection) (s : Server)
    → s.connections h ≡ some (record c { phase = removed })
    → step (returns h) s ≡ close_stream h (record c { phase = removed }) s
unfolding step return_at
step_returns h c s e = rw e

finished :
    (h : ℕ) (c : Connection) (s : Server)
    → s.connections h ≡ some c
    → is_live c.phase ≡ true
    → run (finish h) s ≡ close_stream h (record c { phase = removed }) (untrack h c s)
unfolding run
finished h c s e live =
    rw (step_ends h c s e live) (step_returns h c (untrack h c s) (unfold untrack in ground arith))

-- What a Send finds once the handler's own entry is dropped.
lookup-drop_own_self :
    (h : ℕ) (d : String) (streams : List (String × ℕ))
    → ((lookup d streams ≡ some h) × (lookup d (drop_own h d streams) ≡ none))
      ⊎ (¬ (lookup d streams ≡ some h) × (lookup d (drop_own h d streams) ≡ lookup d streams))
unfolding drop_own
lookup-drop_own_self h d streams = elim (Option-cases (lookup d streams)) [
  | inl e ↦ inr (λ q. cc, rw (e, drop_own) e)
  | inr (k, e) ↦ elim (Bool-cases (nat_eq k h)) [
    | inl b ↦ inl (ground arith, ground (arith, lookup-delete d d streams, eq_refl d))
    | inr b ↦ inr (λ q. ground arith, ground arith)
  ]
]

-- When a handler between its manager.Add and its manager.Remove has ended, with both deferred
-- calls, a Send to its device finds the handle that it found before, unless that was the
-- handler's own: then the Send fails with ErrDeviceNotConnected.
pub finish-find_handle :
    (h : ℕ) (c : Connection) (s : Server)
    → s.connections h ≡ some c
    → is_live c.phase ≡ true
    → ((find_handle c.device_id s ≡ ok h)
        × (find_handle c.device_id (run (finish h) s) ≡ err (sentinel err_device_not_connected)))
      ⊎ (¬ (find_handle c.device_id s ≡ ok h)
          × (find_handle c.device_id (run (finish h) s) ≡ find_handle c.device_id s))
unfolding find_handle close_stream untrack
finish-find_handle h c s e live =
    rw (finished h c s e live) (elim (lookup-drop_own_self h c.device_id s.streams) [
      | inl (p, q) ↦ inl (rw p, rw q)
      | inr (p, q) ↦ inr (λ f. p (ground arith), rw q)
    ])
