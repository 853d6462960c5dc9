-- ===== src/Service/Replace.antt =====
-- internal/service/service.go: how a running process is replaced, by Restart and by Deploy.
use anito.Prelude.{
  ℕ, String, false, not, Option, none, some, ◌==◌, ℕ_comparable, text_comparable, if◌then◌else◌,
}
use anito.Assoc.{lookup, delete}
use anito.Registry.Types.{Ports, Service}
use anito.Registry.Calls.{marks_running, sets_crash_state}
use anito.Process.Types.{DetachedProcess, Result, ok, err}
use anito.Process.Types as ProcessTypes
use anito.Process.Manager.{detach, pid_of, activate, mark_draining, tracked}
use anito.Process.Exit.{ProcessState}
use anito.Proxy.Types as ProxyTypes
use anito.Proxy.Routes.{swap_ports}
use anito.Service.World.{
  Daemon, World, tell, ended, stop_candidate, stop_failed_candidate, start_candidate, bind_ports,
}
use anito.Service.Undo.{is_binary, restore_failed_deploy}

-- Why a deployment or a restart fails.
pub data Failure : Type 0 where
  missing_service : String → Failure
  not_started not_activated : ProcessTypes.Error → Failure
  not_healthy not_owner exited_before_activation : String → Failure
  no_listener no_upstream : ProxyTypes.Error → Failure

-- The failure of a candidate that is no longer tracked, and of one that is stopped first.
abbrev pub undone :
    World
    → String
    → Option Service
    → Option DetachedProcess
    → Failure
    → Daemon
    → Daemon × Option Failure
undone w name previous old failure d = (restore_failed_deploy w name previous old d, some failure)

-- The candidate may be gone by itself: then its goroutine has run.
unfoldable pub candidate_gone : World → Option ProcessState → String → Daemon → Daemon
candidate_gone w state name d = elim (tracked name d.manager) [
  | none ↦ d
  | some rp ↦ ended w rp.cmd state d
]

-- The new process is live: the registry, the crash counter, and the mark of the old process, which
-- is drained later.
unfoldable pub mark_old : Option DetachedProcess → Daemon → Daemon
mark_old none d = d
mark_old (some dp) d = record d { manager = mark_draining dp.pid d.manager }

unfoldable pub go_live : World → String → ℕ → ℕ → Option DetachedProcess → Daemon → Daemon
unfolding mark_old
go_live w name pid deployed old d =
    let d' =
      tell w (sets_crash_state name 0 false w.now)
        (tell w (marks_running name pid deployed w.now) d) in
    mark_old old (record d' { attempts = delete name d'.attempts })

unfoldable pub activate_candidate :
    World
    → String
    → Option Service
    → ℕ
    → Option DetachedProcess
    → Daemon
    → ℕ
    → Daemon × Option Failure
unfolding go_live
activate_candidate w name previous deployed old d pid =
    let (m, activated) = activate name d.manager in
    let d' = record d { manager = m } in
    if pid == 0
    then undone w name previous old (exited_before_activation name) d
    else elim activated [
      | ok u ↦ (go_live w name pid deployed old d', none)
      | err e ↦ undone w name previous old (not_activated e) d'
    ]

-- From `SwapPorts` on; `deployed` is the time to record, or 0.
unfoldable pub switch_over :
    World
    → String
    → Option Service
    → ℕ
    → Option DetachedProcess
    → Ports
    → Daemon
    → Daemon × Option Failure
unfolding candidate_gone activate_candidate
switch_over w name previous deployed old internal d =
    let (m, failed) = swap_ports name internal d.proxies in
    let d' = record d { proxies = m } in
    let d'' = candidate_gone w w.gone name d' in
    elim failed [
      | some e ↦ undone w name previous old (no_upstream e) (stop_failed_candidate w name d')
      | none ↦ activate_candidate w name previous deployed old d'' (pid_of name d''.manager)
    ]

-- `restartLocked` from the start of the candidate on.
unfoldable pub restart_started :
    World
    → String
    → Service
    → Option DetachedProcess
    → Daemon
    → Result Ports
    → Daemon × Option Failure
unfolding candidate_gone switch_over
restart_started w name svc old d (err e) = undone w name (some svc) old (not_started e) d
restart_started w name svc old d (ok internal) =
    let d' = candidate_gone w w.early name d in
    if not w.healthy
    then undone w name (some svc) old (not_healthy name) (stop_failed_candidate w name d')
    else if not w.owns_ports
    then undone w name (some svc) old (not_owner name) (stop_failed_candidate w name d')
    else switch_over w name (some svc) 0 old internal d'

unfoldable pub restart_found : World → String → Service → Daemon → Daemon × Option Failure
unfolding restart_started
restart_found w name svc d =
    let (m, old) = detach name d.manager in
    let (d', started) = start_candidate w svc (record d { manager = m }) in
    if is_binary svc.service_type then restart_started w name svc old d' started else (d, none)

unfoldable pub restart_locked : World → String → Daemon → Daemon × Option Failure
unfolding restart_found
restart_locked w name d = elim (lookup name d.registry.services) [
  | none ↦ (d, some (missing_service name))
  | some svc ↦ restart_found w name svc d
]

-- `Deploy` of a binary service from the start of the candidate on: the ports are listened on before
-- the switch, and a candidate that does not own its ports is stopped by `Stop`.
unfoldable pub bind_and_switch :
    World
    → Service
    → Option Service
    → Option DetachedProcess
    → Ports
    → Daemon
    → Daemon × Option Failure
unfolding switch_over
bind_and_switch w svc previous old internal d =
    let (d', failed) = bind_ports w w.binds svc.name svc.stable_ports svc.proxy_bind_address d in
    elim failed [
      | some e ↦
          undone w svc.name previous old (no_listener e) (stop_failed_candidate w svc.name d')
      | none ↦ switch_over w svc.name previous w.now old internal d'
    ]

unfoldable pub deploy_started :
    World
    → Service
    → Option Service
    → Option DetachedProcess
    → Daemon
    → Result Ports
    → Daemon × Option Failure
unfolding candidate_gone bind_and_switch
deploy_started w svc previous old d (err e) = undone w svc.name previous old (not_started e) d
deploy_started w svc previous old d (ok internal) =
    let d' = candidate_gone w w.early svc.name d in
    if not w.healthy
    then undone w svc.name previous old (not_healthy svc.name) (stop_failed_candidate w svc.name d')
    else if not w.owns_ports
    then undone w svc.name previous old (not_owner svc.name) (stop_candidate w svc.name d')
    else bind_and_switch w svc previous old internal d'

unfoldable pub deploy_binary : World → Service → Option Service → Daemon → Daemon × Option Failure
unfolding deploy_started
deploy_binary w svc previous d =
    let (m, old) = detach svc.name d.manager in
    let (d', started) = start_candidate w svc (record d { manager = m }) in
    deploy_started w svc previous old d' started
