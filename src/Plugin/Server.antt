-- ===== src/Plugin/Server.antt =====
-- `serverPluginManager` of plugin.go.
use byterpc.Common.{
  ℕ, List, [], ◌∷◌, none, some, if◌then◌else◌, Text, codes, Dict, Error, unsupported_operation,
  Result, ok, err, panic,
}
use byterpc.Plugin.{
  Plugin, Manager, pre_read_request, post_read_request, pre_write_response, post_write_response,
  handle_conn_close, register_service, server_rw_plugin_type, server_conn_plugin_type,
  service_registration_plugin_type, run_hook, entries, type_map, map_result, report_all,
}

-- A server makes no calls.
unfoldable pub do_pre_write_request : Manager → Result (Unit {0})
do_pre_write_request pm = err unsupported_operation

unfoldable pub do_post_write_request : Manager → Result (Unit {0})
do_post_write_request pm = err unsupported_operation

unfoldable pub do_pre_read_response : Manager → Result (Unit {0})
do_pre_read_response pm = err unsupported_operation

unfoldable pub do_post_read_response : Manager → Result (Unit {0})
do_post_read_response pm = err unsupported_operation

unfoldable pub do_pre_read_request : Manager → Result (Unit {0})
unfolding run_hook
do_pre_read_request =
    run_hook server_rw_plugin_type pre_read_request (codes "pre-read-request error happened: ")

unfoldable pub do_post_read_request : Manager → Result (Unit {0})
unfolding run_hook
do_post_read_request =
    run_hook server_rw_plugin_type post_read_request (codes "post-read-request error happened: ")

unfoldable pub do_pre_write_response : Manager → Result (Unit {0})
unfolding run_hook
do_pre_write_response =
    run_hook server_rw_plugin_type pre_write_response (codes "pre-write-response error happened: ")

unfoldable pub do_post_write_response : Manager → Result (Unit {0})
unfolding run_hook
do_post_write_response =
    run_hook server_rw_plugin_type post_write_response
      (codes "post-write-response error happened: ")

unfoldable pub do_handle_conn_close : Manager → Result (Unit {0})
unfolding run_hook
do_handle_conn_close =
    run_hook server_conn_plugin_type handle_conn_close (codes "handle-conn-close error happened: ")

-- `HandleConnAccept`: each plugin gets the connection that the last successful one returned.
unfoldable pub accept_loop : Dict Text Plugin → ℕ → ℕ × Result (List Error)
accept_loop [] conn = (conn, ok [])
accept_loop ((n, p) ∷ d) conn =
    let answer = p.handle_conn_accept conn in
    let conn' : ℕ = elim answer [ ok c ↦ c | err e ↦ conn | panic ↦ conn ] in
    let (last, es) = accept_loop d conn' in
    if p.implements server_conn_plugin_type
    then elim answer [
      | ok c ↦ (last, es)
      | err e ↦ (last, map_result (λ l. e ∷ l) es)
      | panic ↦ (conn, panic)
    ]
    else (conn, panic)

unfoldable pub do_handle_conn_accept : Manager → ℕ → ℕ × Result (Unit {0})
unfolding accept_loop
do_handle_conn_accept pm conn =
    let (last, es) = accept_loop (entries (type_map pm server_conn_plugin_type)) conn in
    (last, report_all (codes "handle-conn-accept error happened: ") es)

-- `RegisterService` stops at the first error. It returns the names of the plugins called, in order.
unfoldable pub register_loop : Dict Text Plugin → List Text × Result (Unit {0})
register_loop [] = ([], ok tt)
register_loop ((n, p) ∷ d) =
    let (called, r) = register_loop d in
    if p.implements service_registration_plugin_type
    then elim (p.answer register_service) [ none ↦ (n ∷ called, r) | some e ↦ (n ∷ [], err e) ]
    else ([], panic)

unfoldable pub do_register_service : Manager → List Text × Result (Unit {0})
unfolding register_loop
do_register_service pm = register_loop (entries (type_map pm service_registration_plugin_type))
