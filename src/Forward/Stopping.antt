-- ===== src/Forward/Stopping.antt =====
-- The byte that the signal's handler writes ends the loop, and the end closes what is open.
use os_tasks.Prelude.{
  ℕ, ◌≡◌, refl, sym, ap, ◌∙◌, true, false, Option, none, some, List, [], ◌∷◌, ◌++◌, if◌then◌else◌,
  ℤ, take,
}
use os_tasks.Connection.{Events}
use os_tasks.Manager.{Call, close}
use os_tasks.Manager.Live.{IsTable}
use os_tasks.Manager.Rounds.{cm_poll_told}
use os_tasks.Manager.Ends.{still_open, destroy_manager_lem}
use os_tasks.Manager.Poll.{
  Environment, pipe_cause, polled, poll_until, cm_shutdown, is_minus_one, close_cause_none,
  close_cause_user,
}
use os_tasks.Pump.{World}
use os_tasks.Controller.{Control}
use os_tasks.Controller.Updating.{table_of, after_poll, update_caused}
use os_tasks.Controller.Start.{StartCalls, start_controller}
use os_tasks.Controller.Step.{returned, update}
use os_tasks.Forward.{
  buffer_size, Settings, parse_args, termination_signal_handler, Round, controller_stopped,
  main_loop, destroy_controller, end_main, forward_main,
}

-- The rounds of the loop that go on.
pub data Runs : (rounds : List Round) (w w' : World Control) → Type 0 where
  stays : {w : World Control} → Runs [] w w
  goes_on :
      {r : Round} {rounds : List Round} {w w1 w2 : World Control}
      → update r.env r.handler w ≡ some (returned close_cause_none w1)
      → Runs rounds w1 w2
      → Runs (r ∷ rounds) w w2

main_loop-Runs :
    {before : List Round} {w w1 : World Control} (more : List Round)
    → Runs before w w1
    → main_loop (before ++ more) w ≡ main_loop more w1
unfolding main_loop
main_loop-Runs more stays = refl
main_loop-Runs more (goes_on run runs) = rw (main_loop, run) (main_loop-Runs more runs)

-- In this round `poll` gives that the pipe can be read, and the byte in it is what the signal's handler
-- wrote.
pub record IsTold (w : World Control) (env : Environment) : Type 0 where
  pub acceptor : Events
  pub pipe : Events
  pub events : List Events
  pub polls : poll_until env.poll_results ≡ some (polled acceptor pipe events)
  pub ready : pipe.pollin ≡ true
  pub fd : ℤ
  pub byte : ℕ
  pub written : termination_signal_handler (some w) ≡ (fd, byte) ∷ []
  pub waiting : env.pipe_read ≡ some (some byte)

told_cause :
    (w : World Control) (env : Environment) (t : IsTold w env)
    → pipe_cause env t.pipe ≡ some close_cause_user
unfolding pipe_cause termination_signal_handler cm_shutdown
told_cause w env t = rw (t.ready, t.waiting) (same t.fd t.byte t.written)
  where
    same :
        (fd : ℤ) (byte : ℕ)
        → ◌≡◌ {A = List (ℤ × ℕ)} ((w.rest.manager.pipe, close_cause_user) ∷ []) ((fd, byte) ∷ [])
        → some byte ≡ some close_cause_user
    same fd byte e = ap (λ (l : List (ℤ × ℕ)). elim l [ [] ↦ none | (p ∷ ps) ↦ some p.1 ]) (sym e)

-- What the end of the program closes.
abbrev pub closes : World Control → List Call
closes w =
    (if is_minus_one w.rest.manager.acceptor.fd then [] else close w.rest.manager.acceptor.fd ∷ [])
    ++ (close w.rest.manager.pipe_in.fd
        ∷ close w.rest.manager.pipe
        ∷ still_open w.objects (take w.rest.manager.connections_count w.rest.manager.slots))

stops_here :
    (r : Round) (w : World Control) (more : List Round)
    → IsTable (table_of w)
    → IsTold w r.env
    → (w' : World Control) × (main_loop (r ∷ more) w ≡ some (controller_stopped, w'))
      × IsTable (table_of w')
unfolding main_loop
stops_here r w more v told =
    let (t, calls, run, valid) =
      cm_poll_told r.env (table_of w) told.acceptor told.pipe told.events close_cause_user v
        told.polls (told_cause w r.env told) in
    (
      after_poll w t calls,
      rw (main_loop, update_caused r.env r.handler w t calls close_cause_user run refl) refl,
      valid,
    )

end_main_lem :
    (w : World Control)
    → IsTable (table_of w)
    → end_main controller_stopped w ≡ some (0, w.rest.calls ++ closes w)
unfolding end_main destroy_controller
end_main_lem w v = rw (destroy_manager_lem (table_of w) v) refl

forward_main_run :
    (strtol : List ℕ → ℤ) (inet_aton : List ℕ → Option ℕ) (argv : List (List ℕ)) (env : StartCalls)
    (rounds : List Round) (s : Settings) (w0 w : World Control) (started calls : List Call)
    → parse_args strtol inet_aton argv ≡ some s
    → start_controller env buffer_size (if s.is_server then false else true) s.dst_address
      ≡ some (some w0, started)
    → main_loop rounds w0 ≡ some (controller_stopped, w)
    → end_main controller_stopped w ≡ some (0, calls)
    → forward_main strtol inet_aton argv env rounds ≡ some (0, calls)
unfolding forward_main
forward_main_run strtol inet_aton argv env rounds s w0 w started calls parsed start run end =
    rw (forward_main, parsed, start, run) end

-- With arguments that are right and a controller that starts, and after any rounds of the loop that go
-- on and leave a table in which every slot in use has a connection: if `poll` then finds the byte that
-- the signal's handler has written for this controller, the program ends with 0, whatever else
-- the system gives; after the calls so far it closes the acceptor, both ends of the pipe, and
-- exactly the sockets of the connections that are not closed.
pub forward_main_stops :
    (strtol : List ℕ → ℤ) (inet_aton : List ℕ → Option ℕ) (argv : List (List ℕ)) (env : StartCalls)
    (before more : List Round) (r : Round) (s : Settings) (w0 w : World Control)
    (started : List Call)
    → parse_args strtol inet_aton argv ≡ some s
    → start_controller env buffer_size (if s.is_server then false else true) s.dst_address
      ≡ some (some w0, started)
    → Runs before w0 w
    → IsTable (table_of w)
    → IsTold w r.env
    → (w' : World Control) × (main_loop (before ++ (r ∷ more)) w0 ≡ some (controller_stopped, w'))
      × (forward_main strtol inet_aton argv env (before ++ (r ∷ more))
          ≡ some (0, w'.rest.calls ++ closes w'))
forward_main_stops strtol inet_aton argv env before more r s w0 w started parsed start runs v told =
    let (w', stop, v') = stops_here r w more v told in
    let ends = main_loop-Runs (r ∷ more) runs ∙ stop in
    (
      w',
      ends,
      forward_main_run strtol inet_aton argv env (before ++ (r ∷ more)) s w0 w' started
          (w'.rest.calls ++ closes w') parsed start ends (end_main_lem w' v'),
    )
