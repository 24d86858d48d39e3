-- ===== src/Connection/Client/Session/Answers.antt =====
-- What an attempt's session has done when it is over.
use deploy_os.Base.{
  suc, ℕ, ◌+◌, ◌*◌, ◌≤◌, ◌<◌, ◌≡◌, refl, sym, ap, ◌∙◌, subst, ◌⊎◌, inl, inr, Bool, true, false,
  Option, none, some, List, [], ◌∷◌, ◌++◌, map, arith, length, length-append,
}
use deploy_os.Go.Errors.{GoError}
use mathlib.Core.List.{append_assoc, map-append, append-nil, Perm, perm_middle}
use mathlib.Core.List.Perm
use deploy_os.Proto.{Command, CommandResult, Envelope, get_command_request}
use deploy_os.Runtime.{Steps, Steps-measure, Steps-invariant}
use deploy_os.Connection.Client.{take_command, received, loop_error}
use deploy_os.Connection.Client.Session.{
  Place, reading, waiting, left, Session, connected_session, spawn, answer, Step, receives, ends,
  answers, fails, returns,
}

module _ (has_handler : Bool) (handler : Command → CommandResult) (last : GoError) where
  -- What is refused or sent, what the goroutines will send, and what the rest of the stream will make them send.
  due : Session → List Envelope
  due s =
      s.unsent
      ++ (s.sent
          ++ (map (answer handler) s.running
              ++ map (answer handler) (received has_handler s.incoming)))

  -- Behind the loop nothing is left to receive, and behind the wait nothing runs.
  Settled : Place → Session → Type 0
  Settled reading s = s.connected ≡ true
  Settled (waiting r) s = (s.incoming ≡ []) × (r ≡ loop_error last) × (s.connected ≡ true)
  Settled (left r) s =
      (s.incoming ≡ []) × (r ≡ loop_error last) × (s.running ≡ []) × (s.connected ≡ false)

  place_rank : Place → ℕ
  place_rank reading = 2
  place_rank (waiting r) = 1
  place_rank (left r) = 0

  -- The steps that are left at most.
  rank : Session → ℕ
  unfolding place_rank
  rank s = 2 * length s.incoming + length s.running + place_rank s.place

  length-spawn :
      (b : Bool) (o : Option Command) (running : List Command)
      → length (spawn b o running) ≤ suc (length running)
  unfolding spawn
  length-spawn true (some c) running = rw length-append (omega arith)
  length-spawn true none running = omega arith
  length-spawn false (some c) running = omega arith
  length-spawn false none running = omega arith

  Step-rank : (s t : Session) → Step has_handler handler last s t → rank t < rank s
  unfolding rank
  Step-rank s t (receives env rest p i e) =
      let grown = length-spawn has_handler (get_command_request env) s.running in
      rw (e, i) (omega (arith, grown))
  Step-rank s t (ends p i e) = rw (e, p) (omega arith)
  Step-rank s t (answers before later cmd p q e) =
      rw (e, q) (rw (length-append before later, length-append before (cmd ∷ later)) (omega arith))
  Step-rank s t (fails before later cmd q e) =
      rw (e, q) (rw (length-append before later, length-append before (cmd ∷ later)) (omega arith))
  Step-rank s t (returns r p q e) = rw (e, p) (omega arith)

  -- A goroutine that starts takes over what the rest of the stream would have sent.
  spawn-due :
      (b : Bool) (env : Envelope) (rest : List Envelope) (running : List Command)
      → map (answer handler) (spawn b (get_command_request env) running)
          ++ map (answer handler) (received b rest)
        ≡ map (answer handler) running ++ map (answer handler) (received b (env ∷ rest))
  unfolding spawn received
  spawn-due b env rest running = by b (get_command_request env)
    where
      by :
          (b : Bool) (o : Option Command)
          → map (answer handler) (spawn b o running) ++ map (answer handler) (received b rest)
            ≡ map (answer handler) running
              ++ map (answer handler) (take_command b o (received b rest))
      by true (some c) = rw (map-append, append_assoc)
      by true none = refl
      by false (some c) = refl
      by false none = refl

  answer-due :
      (before later : List Command) (cmd : Command) (sent rest : List Envelope)
      → Perm
          (sent ++ (map (answer handler) (before ++ (cmd ∷ later)) ++ rest))
          ((sent ++ (answer handler cmd ∷ [])) ++ (map (answer handler) (before ++ later) ++ rest))
  answer-due before later cmd sent rest =
      let f = answer handler in
      rw (append_assoc sent (f cmd ∷ []) (map f (before ++ later) ++ rest)) (
        Perm.append_left sent (
          rw (map-append f before (cmd ∷ later), map-append f before later)
            (Perm.append_right rest (perm_middle (map f before) (map f later)))))

  refused-due :
      (before later : List Command) (cmd : Command) (unsent sent rest : List Envelope)
      → Perm (unsent ++ (sent ++ (map (answer handler) (before ++ (cmd ∷ later)) ++ rest))) (
          (unsent ++ (answer handler cmd ∷ []))
          ++ (sent ++ (map (answer handler) (before ++ later) ++ rest)))
  refused-due before later cmd unsent sent rest =
      let f = answer handler in
      let others = map f (before ++ later) ++ rest in
      rw (append_assoc unsent (f cmd ∷ []) (sent ++ others)) (
        Perm.append_left unsent (
          Perm.trans (answer-due before later cmd sent rest)
            (rw (append_assoc sent (f cmd ∷ []) others) (perm_middle sent others))))

  Step-due : (s t : Session) → Step has_handler handler last s t → Perm (due s) (due t)
  unfolding due
  Step-due s t (receives env rest p i e) =
      rw (e, i)
        (subst
          (λ l. Perm (s.unsent ++ (s.sent ++ l)) (
            s.unsent
            ++ (s.sent
                ++ (map (answer handler) (spawn has_handler (get_command_request env) s.running)
                    ++ map (answer handler) (received has_handler rest)))))
          (spawn-due has_handler env rest s.running) (Perm.refl _))
  Step-due s t (ends p i e) = rw e (Perm.refl (due s))
  Step-due s t (answers before later cmd p q e) =
      rw (e, q) (Perm.append_left s.unsent (answer-due before later cmd s.sent _))
  Step-due s t (fails before later cmd q e) =
      rw (e, q) (refused-due before later cmd s.unsent s.sent _)
  Step-due s t (returns r p q e) = rw e (Perm.refl (due s))

  occupied :
      (before : List Command) (cmd : Command) (later : List Command)
      → ¬ (before ++ (cmd ∷ later) ≡ [])
  occupied [] cmd later = λ e. cc
  occupied (c ∷ before) cmd later = λ e. cc

  Step-Settled :
      (s t : Session) → Step has_handler handler last s t → Settled s.place s → Settled t.place t
  unfolding Settled
  Step-Settled s t (receives env rest p i e) v = rw (e, p) (rw p at v)
  Step-Settled s t (ends p i e) v = rw e (i, refl, rw p at v)
  Step-Settled s t (answers before later cmd p q e) v = rw (e, p) (rw p at v)
  Step-Settled s t (fails before later cmd q e) v = rw e (by s.place v)
    where
      by :
          (p : Place)
          → Settled p s
          → Settled p (record s {
            running = before ++ later;
            unsent = s.unsent ++ (answer handler cmd ∷ []);
          })
      by reading v = v
      by (waiting r) v = v
      by (left r) (done, same, idle, off) = absurd (occupied before cmd later (sym q ∙ idle))
  Step-Settled s t (returns r p q e) v =
      let (done, same, on) = rw p at v in rw e (done, same, q, refl)

  -- The attempt goes on until it has left.
  progress :
      (s : Session) (p : Place)
      → s.place ≡ p
      → ((r : Option GoError) × (p ≡ left r)) ⊎ ((t : Session) × Step has_handler handler last s t)
  progress s reading e = by s.incoming refl
    where
      by :
          (l : List Envelope)
          → s.incoming ≡ l
          → ((r : Option GoError) × (reading ≡ left r))
            ⊎ ((t : Session) × Step has_handler handler last s t)
      by [] q = inr (_, ends e q refl)
      by (env ∷ rest) q = inr (_, receives env rest e q refl)
  progress s (waiting r) e = by s.running refl
    where
      by :
          (l : List Command)
          → s.running ≡ l
          → ((o : Option GoError) × (waiting r ≡ left o))
            ⊎ ((t : Session) × Step has_handler handler last s t)
      by [] q = inr (_, returns r e q refl)
      by (cmd ∷ rest) q = inr (_, fails [] rest cmd q refl)
  progress s (left r) e = inl (r, refl)

  module _ (incoming : List Envelope) (n : ℕ) (t : Session)
      (steps : Steps (Step has_handler handler last) n (connected_session incoming) t) where
    run-due : Perm (map (answer handler) (received has_handler incoming)) (due t)
    unfolding due connected_session
    run-due =
        Steps-invariant (Step has_handler handler last)
          (λ s. Perm (due (connected_session incoming)) (due s))
          (λ s u r h. Perm.trans h (Step-due s u r)) steps (Perm.refl _)

    run-Settled : Settled t.place t
    unfolding Settled connected_session
    run-Settled =
        Steps-invariant (Step has_handler handler last) (λ s. Settled s.place s) Step-Settled steps
          refl

    -- Behind the wait, what is due has been sent.
    left-due :
        (r : Option GoError)
        → t.place ≡ left r
        → (r ≡ loop_error last)
          × (t.connected ≡ false)
          × Perm (t.unsent ++ t.sent) (map (answer handler) (received has_handler incoming))
    unfolding Settled due received
    left-due r e =
        let (done, same, idle, off) = rw e at run-Settled in
        (
          same,
          off,
          Perm.symm (
              subst (Perm (map (answer handler) (received has_handler incoming)))
                (rw (idle, done) (ap (λ l. t.unsent ++ l) (append-nil t.sent))) run-due),
        )

    -- A session behind a positive answer, where the stream may refuse a result at any time and takes
    -- none behind its end, takes at most two steps for each envelope of the stream and two more, in
    -- whatever order; and at any time it can take a further step, or connectOnce has returned with
    -- the stream's error, or with none for an end of file, Run has cleared the flag of the
    -- connection, and the results that the stream refused and those that it took are together those
    -- of the commands received, each once, in some order.
    pub session_ends :
        (n ≤ 2 * length incoming + 2)
        × (((t.place ≡ left (loop_error last))
              × (t.connected ≡ false)
              × Perm (t.unsent ++ t.sent) (map (answer handler) (received has_handler incoming)))
            ⊎ ((u : Session) × Step has_handler handler last t u))
    unfolding rank connected_session
    session_ends =
        let few = Steps-measure (Step has_handler handler last) rank Step-rank steps in
        (
          omega (arith, few),
          elim (progress t t.place refl) [
            | inr further ↦ inr further
            | inl (r, e) ↦
                let (same, off, all_sent) = left-due r e in
                inl (e ∙ ap (λ o. left o) same, off, all_sent)
          ],
        )

    -- In every run of a session, the flag of the connection is cleared only when the result of every
    -- command received has been given to the stream, which took or refused it; and while connectOnce
    -- waits for the handlers behind the end of the stream, with nothing left to receive, the flag
    -- still says that the client is connected.
    pub session-connected :
        (t.connected ≡ false
          → Perm (t.unsent ++ t.sent) (map (answer handler) (received has_handler incoming)))
        × ((r : Option GoError) → t.place ≡ waiting r → (t.incoming ≡ []) × (t.connected ≡ true))
    unfolding Settled
    session-connected = (
      by t.place refl run-Settled,
      λ r e. let (done, same, on) = rw e at run-Settled in (done, on),
    )
      where
        by :
            (p : Place)
            → t.place ≡ p
            → Settled p t
            → t.connected ≡ false
            → Perm (t.unsent ++ t.sent) (map (answer handler) (received has_handler incoming))
        by reading e v off = cc
        by (waiting r) e (done, same, on) off = cc
        by (left r) e v off = (left-due r e).2
