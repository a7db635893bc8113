-- ===== src/Plugin/Reports.antt =====
-- What each hook of the two managers reports, and whom `RegisterService` calls.
use byterpc.Common.{
  ℕ, ◌≡◌, refl, ap, List, [], ◌∷◌, Option, none, some, Option-cases, inl, inr, Text, codes, Dict,
  Error, Result, ok, err,
}
use byterpc.Plugin.{
  Plugin, Manager, Hook, pre_write_request, post_write_request, pre_read_response,
  post_read_response, pre_read_request, post_read_request, pre_write_response, post_write_response,
  handle_conn_close, register_service, server_rw_plugin_type, server_conn_plugin_type,
  service_registration_plugin_type, client_rw_plugin_type, entries, type_map,
}
use byterpc.Plugin.Hooks.{outcome, failures, Fit, run_hook-outcome}
use byterpc.Plugin.Client
use byterpc.Plugin.Server.{
  do_pre_read_request, do_post_read_request, do_pre_write_response, do_post_write_response,
  do_handle_conn_close, register_loop, do_register_service,
}

-- The first error of a list.
abbrev pub first : List Error → Result (Unit {0})
first [] = ok tt
first (e ∷ es) = err e

-- The plugins that are called before the registration stops, the one that stops it included.
abbrev stop_at : Text → Option Error → List Text → List Text
stop_at n none names = n ∷ names
stop_at n (some e) names = n ∷ []

abbrev pub called : Dict Text Plugin → List Text
called [] = []
called ((n, p) ∷ d) = stop_at n (p.answer register_service) (called d)

register_loop-first :
    (d : Dict Text Plugin)
    → Fit service_registration_plugin_type d
    → register_loop d ≡ (called d, first (failures register_service d))
unfolding register_loop
register_loop-first [] fit = refl
register_loop-first ((n, p) ∷ d) fit = elim (Option-cases (p.answer register_service)) [
  | inl passes ↦
      rw (fit.0, passes)
        (ap (λ (x : List Text × Result (Unit {0})). (n ∷ x.0, x.1)) (register_loop-first d fit.1))
  | inr (e, stops) ↦ rw (fit.0, stops) refl
]

-- The plugins of a type.
abbrev pub of_type : Manager → ℕ → Dict Text Plugin
of_type pm t = entries (type_map pm t)

-- If the plugins of each type implement its interface: the hooks of the server and of the client,
-- but for those of a new connection and of a registration, report no error exactly when none of the
-- plugins of their type does, and else the texts of all their errors, in the order of the visit,
-- after a prefix of their own. The hook of a registration calls the plugins up to the first that
-- fails, and reports the error of that one as it is.
pub hooks_report :
    (pm : Manager)
    → Fit server_rw_plugin_type (of_type pm server_rw_plugin_type)
    → Fit server_conn_plugin_type (of_type pm server_conn_plugin_type)
    → Fit service_registration_plugin_type (of_type pm service_registration_plugin_type)
    → Fit client_rw_plugin_type (of_type pm client_rw_plugin_type)
    → let rw_failures = λ (h : Hook). failures h (of_type pm server_rw_plugin_type) in
      let client_failures = λ (h : Hook). failures h (of_type pm client_rw_plugin_type) in
      let registering = of_type pm service_registration_plugin_type in
      (do_pre_read_request pm
        ≡ outcome (codes "pre-read-request error happened: ") (rw_failures pre_read_request))
      × (do_post_read_request pm
          ≡ outcome (codes "post-read-request error happened: ") (rw_failures post_read_request))
      × (do_pre_write_response pm
          ≡ outcome (codes "pre-write-response error happened: ") (rw_failures pre_write_response))
      × (do_post_write_response pm
          ≡ outcome
              (codes "post-write-response error happened: ")
              (rw_failures post_write_response))
      × (do_handle_conn_close pm
          ≡ outcome
              (codes "handle-conn-close error happened: ")
              (failures handle_conn_close (of_type pm server_conn_plugin_type)))
      × (Client.do_pre_write_request pm
          ≡ outcome
              (codes "pre-write-request error happened: ")
              (client_failures pre_write_request))
      × (Client.do_post_write_request pm
          ≡ outcome
              (codes "post-write-request error happened: ")
              (client_failures post_write_request))
      × (Client.do_pre_read_response pm
          ≡ outcome
              (codes "pre-read-response error happened: ")
              (client_failures pre_read_response))
      × (Client.do_post_read_response pm
          ≡ outcome
              (codes "post-read-response error happened: ")
              (client_failures post_read_response))
      × (do_register_service pm
          ≡ (called registering, first (failures register_service registering)))
unfolding do_pre_read_request do_post_read_request do_pre_write_response do_post_write_response
    do_handle_conn_close do_register_service Client.do_pre_write_request
    Client.do_post_write_request Client.do_pre_read_response Client.do_post_read_response
hooks_report pm fit_rw fit_conn fit_registering fit_client = (
  run_hook-outcome server_rw_plugin_type pre_read_request
      (codes "pre-read-request error happened: ") pm fit_rw,
  run_hook-outcome server_rw_plugin_type post_read_request
      (codes "post-read-request error happened: ") pm fit_rw,
  run_hook-outcome server_rw_plugin_type pre_write_response
      (codes "pre-write-response error happened: ") pm fit_rw,
  run_hook-outcome server_rw_plugin_type post_write_response
      (codes "post-write-response error happened: ") pm fit_rw,
  run_hook-outcome server_conn_plugin_type handle_conn_close
      (codes "handle-conn-close error happened: ") pm fit_conn,
  run_hook-outcome client_rw_plugin_type pre_write_request
      (codes "pre-write-request error happened: ") pm fit_client,
  run_hook-outcome client_rw_plugin_type post_write_request
      (codes "post-write-request error happened: ") pm fit_client,
  run_hook-outcome client_rw_plugin_type pre_read_response
      (codes "pre-read-response error happened: ") pm fit_client,
  run_hook-outcome client_rw_plugin_type post_read_response
      (codes "post-read-response error happened: ") pm fit_client,
  register_loop-first (of_type pm service_registration_plugin_type) fit_registering,
)
