-- ===== src/Plugin/Tests.antt =====
-- The hooks on small managers, and the theorems at concrete inputs.
use byterpc.Common.{
  ◌≡◌, refl, true, false, [], ◌∷◌, ◌++◌, none, some, codes, Text, Dict, ok, err, message, ◌==◌,
  text_eq, nat_eq,
}
use byterpc.Utils.{error_lines, error_text, wrap_array_errs}
use byterpc.Plugin.{
  Plugin, Manager, Hook, pre_read_request, new_manager, server_rw_plugin_type,
  service_registration_plugin_type, post_read_request, pre_write_response, post_write_response,
}
use byterpc.Plugin.Server.{
  do_pre_read_request, do_handle_conn_accept, do_post_read_request, do_pre_write_response,
  do_post_write_response, do_handle_conn_close, do_register_service,
}
use byterpc.Plugin.Client.{
  do_pre_write_request, do_post_write_request, do_pre_read_response, do_post_read_response,
}
use byterpc.Plugin.Hooks.{outcome, failures}
use byterpc.Plugin.Reports.{of_type, hooks_report}
use byterpc.Plugin.History.{adds, sets_disabled, run, run_new, hooks-run_new}

abbrev picky : Plugin
picky = record {
  name = codes "picky";
  type = server_rw_plugin_type;
  is_disabled = false;
  implements = λ t. t == server_rw_plugin_type;
  answer = λ h. some (message (codes "no"));
  handle_conn_accept = λ c. ok c;
}

abbrev easy : Plugin
easy = record picky { name = codes "easy"; answer = λ h. none }

abbrev loaded : Manager
loaded = record {
  plugins = (server_rw_plugin_type, some ((codes "easy", easy) ∷ (codes "picky", picky) ∷ [])) ∷ [];
}

pre_read_request-loaded :
    do_pre_read_request loaded
    ≡ err (message (codes "pre-read-request error happened: no" ++ (10 ∷ [])))
unfolding do_pre_read_request wrap_array_errs error_lines error_text
pre_read_request-loaded = refl

-- A registration stops at the first of these.
abbrev announcers : Dict Text Plugin
announcers =
    (
      codes "stubborn",
      record picky { type = service_registration_plugin_type; implements = λ t. true },
    )
    ∷ (
      codes "later",
      record easy { type = service_registration_plugin_type; implements = λ t. true },
    )
    ∷ []

abbrev busy : Manager
busy = record { plugins = (service_registration_plugin_type, some announcers) ∷ loaded.plugins }

hooks_report_example :
    let rw_failures = λ (h : Hook). failures h (of_type busy server_rw_plugin_type) in
    (do_pre_read_request busy
      ≡ outcome (codes "pre-read-request error happened: ") (rw_failures pre_read_request))
    × (do_post_read_request busy
        ≡ outcome (codes "post-read-request error happened: ") (rw_failures post_read_request))
    × (do_pre_write_response busy
        ≡ outcome (codes "pre-write-response error happened: ") (rw_failures pre_write_response))
    × (do_post_write_response busy
        ≡ outcome (codes "post-write-response error happened: ") (rw_failures post_write_response))
    × (do_handle_conn_close busy ≡ outcome (codes "handle-conn-close error happened: ") [])
    × (do_pre_write_request busy ≡ outcome (codes "pre-write-request error happened: ") [])
    × (do_post_write_request busy ≡ outcome (codes "post-write-request error happened: ") [])
    × (do_pre_read_response busy ≡ outcome (codes "pre-read-response error happened: ") [])
    × (do_post_read_response busy ≡ outcome (codes "post-read-response error happened: ") [])
    × (do_register_service busy ≡ (codes "stubborn" ∷ [], err (message (codes "no"))))
hooks_report_example = hooks_report busy (refl, (refl, tt)) tt (refl, (refl, tt)) tt

run_new_example : run new_manager (adds picky ∷ sets_disabled true easy ∷ []) ≡ new_manager
run_new_example = run_new (adds picky ∷ sets_disabled true easy ∷ [])

hooks-run_new_example :
    let pm = run new_manager (adds picky ∷ []) in
    (do_pre_read_request pm ≡ ok tt)
    × (do_post_read_request pm ≡ ok tt)
    × (do_pre_write_response pm ≡ ok tt)
    × (do_post_write_response pm ≡ ok tt)
    × (do_handle_conn_accept pm 5 ≡ (5, ok tt))
    × (do_handle_conn_close pm ≡ ok tt)
    × (do_register_service pm ≡ ([], ok tt))
    × (do_pre_write_request pm ≡ ok tt)
    × (do_post_write_request pm ≡ ok tt)
    × (do_pre_read_response pm ≡ ok tt)
    × (do_post_read_response pm ≡ ok tt)
hooks-run_new_example = hooks-run_new (adds picky ∷ []) 5
