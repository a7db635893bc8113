-- ===== src/Plugin/Client.antt =====
-- `clientPluginManager` of plugin.go.
use byterpc.Common.{ℕ, codes, unsupported_operation, Result, err}
use byterpc.Plugin.{
  Manager, pre_write_request, post_write_request, pre_read_response, post_read_response,
  client_rw_plugin_type, run_hook,
}

unfoldable pub do_pre_write_request : Manager → Result (Unit {0})
unfolding run_hook
do_pre_write_request =
    run_hook client_rw_plugin_type pre_write_request (codes "pre-write-request error happened: ")

unfoldable pub do_post_write_request : Manager → Result (Unit {0})
unfolding run_hook
do_post_write_request =
    run_hook client_rw_plugin_type post_write_request (codes "post-write-request error happened: ")

unfoldable pub do_pre_read_response : Manager → Result (Unit {0})
unfolding run_hook
do_pre_read_response =
    run_hook client_rw_plugin_type pre_read_response (codes "pre-read-response error happened: ")

unfoldable pub do_post_read_response : Manager → Result (Unit {0})
unfolding run_hook
do_post_read_response =
    run_hook client_rw_plugin_type post_read_response (codes "post-read-response error happened: ")

-- A client serves no requests, accepts no connections and registers nothing.
unfoldable pub do_pre_read_request : Manager → Result (Unit {0})
do_pre_read_request pm = err unsupported_operation

unfoldable pub do_post_read_request : Manager → Result (Unit {0})
do_post_read_request pm = err unsupported_operation

unfoldable pub do_pre_write_response : Manager → Result (Unit {0})
do_pre_write_response pm = err unsupported_operation

unfoldable pub do_post_write_response : Manager → Result (Unit {0})
do_post_write_response pm = err unsupported_operation

unfoldable pub do_handle_conn_close : Manager → Result (Unit {0})
do_handle_conn_close pm = err unsupported_operation

unfoldable pub do_register_service : Manager → Result (Unit {0})
do_register_service pm = err unsupported_operation

unfoldable pub do_handle_conn_accept : Manager → ℕ → ℕ × Result (Unit {0})
do_handle_conn_accept pm conn = (conn, err unsupported_operation)
