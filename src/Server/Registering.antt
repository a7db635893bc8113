-- ===== src/Server/Registering.antt =====
-- What a registration does to the map of services.
use byterpc.Common.{
  beq_ne, invalid_service_name, method_must_be_exported, ◌≡◌, ◌≢◌, ◌∙◌, refl, ap, sym, subst, Bool,
  false, ◌&&◌, not, List, [], none, some, if◌then◌else◌, Text, Dict, lookup, insert, lookup-insert,
  text_eq, same, same_refl, Error, service_already_defined, Result, ok, err, panic, ◌⊎◌, inl, inr,
  Option-cases, Bool-cases,
}
use byterpc.Utils.{trim}
use byterpc.Plugin.Server.{do_register_service}
use byterpc.Service.{Service, Method, ReflectMethod, register_methods}
use byterpc.Service.Screening.{register_methods_lem}
use byterpc.Server.{Server}
use byterpc.Server.Registration.{store_service, with_methods, register}

abbrev pub entered : Server → Text → Dict Text Method → Server
entered s s_name methods = record s {
  service_map = insert s_name (record { name = trim s_name; methods = methods }) s.service_map;
}

-- A registration enters the service under a name that was free, or it changes nothing.
abbrev pub Registers : Server → Text → Server × Result (Unit {0}) → Type 0
Registers s s_name x =
    ((lookup s_name s.service_map ≡ none)
      × ((methods : Dict Text Method) × (x ≡ (entered s s_name methods, ok tt))))
    ⊎ ((e : Error) × (x ≡ (s, err e)))

refusal :
    (s s' : Server) (e : Error) (x : Server × Result (Unit {0}))
    → x ≡ (s, err e)
    → ¬ (x ≡ (s', ok tt))
refusal s s' e x h k =
    cc (
      ap (λ (x : Server × Result (Unit {0})). x.1) h,
      ap (λ (x : Server × Result (Unit {0})). x.1) k,
    )

register_plugins-Registers :
    (s : Server) (s_name : Text) (methods : Dict Text Method) (r : Result (Unit {0}))
    → (do_register_service s.plugin_manager).1 ≡ r
    → r ≢ panic
    → store_service s s_name (record { name = trim s_name; methods = methods }) none
      ≡ (entered s s_name methods, ok tt)
register_plugins-Registers s s_name methods (ok _) e h = rw (e, store_service) refl
register_plugins-Registers s s_name methods (err x) e h = rw (e, store_service) refl
register_plugins-Registers s s_name methods panic e h = elim (h refl) [ ]

with_methods-Registers :
    (s : Server) (s_name : Text) (r : Result (Dict Text Method))
    → r ≢ panic
    → (do_register_service s.plugin_manager).1 ≢ panic
    → Registers s s_name (with_methods s s_name r)
with_methods-Registers s s_name (ok methods) g h =
    elim (Option-cases (lookup s_name s.service_map)) [
      | inl free ↦ inl (
        free,
        (
          methods,
          ap (store_service s s_name (record { name = trim s_name; methods = methods })) free
              ∙ register_plugins-Registers s s_name methods _ refl h,
        ),
      )
      | inr (old, taken) ↦ inr (
        service_already_defined,
        ap (store_service s s_name (record { name = trim s_name; methods = methods })) taken,
      )
    ]
with_methods-Registers s s_name (err e) g h = inr (e, refl)
with_methods-Registers s s_name panic g h = elim (g refl) [ ]

module _ (is_exported : Text → Bool) where
  register_methods_returns :
      (ms : List ReflectMethod) → register_methods is_exported false ms ≢ panic
  register_methods_returns ms h =
      let (t, _, _, outcome) = register_methods_lem is_exported ms in
      elim outcome [ inl (_, good) ↦ cc (h, good) | inr (_, (e, bad)) ↦ cc (h, bad) ]

  register_shown :
      (s : Server) (type_name alias : Text) (ms : List ReflectMethod) (use_alias : Bool)
      → same (if use_alias then alias else type_name) [] ≡ false
      → (not (is_exported (if use_alias then alias else type_name)) && not use_alias) ≡ false
      → register is_exported s type_name ms alias use_alias
        ≡ with_methods s
            (if use_alias then alias else type_name)
            (register_methods is_exported false ms)
  unfolding register
  register_shown s type_name alias ms use_alias named shown = rw (named, shown, register) refl

  -- The names that no registration accepts, and those that one may.
  name_cases :
      (type_name alias : Text) (use_alias : Bool)
      → ((s : Server) (ms : List ReflectMethod)
          → (e : Error) × (register is_exported s type_name ms alias use_alias ≡ (s, err e)))
        ⊎ ((s : Server) (ms : List ReflectMethod)
            → register is_exported s type_name ms alias use_alias
              ≡ with_methods s
                  (if use_alias then alias else type_name)
                  (register_methods is_exported false ms))
  unfolding register
  name_cases type_name alias use_alias =
      elim (Bool-cases (same (if use_alias then alias else type_name) [])) [
        | inl nameless ↦ inl (λ s ms. (invalid_service_name, rw nameless refl))
        | inr named ↦
            elim (Bool-cases
              (not (is_exported (if use_alias then alias else type_name)) && not use_alias)) [
                | inl hidden ↦ inl (λ s ms. (method_must_be_exported, rw (named, hidden) refl))
                | inr shown ↦
                    inr (λ s ms. register_shown s type_name alias ms use_alias named shown)
              ]
      ]

  -- If the plugins that register a service do not panic, a registration enters the service under a
  -- name that was free, or it leaves the server as it was and reports an error.
  pub register-Registers :
      (s : Server) (type_name alias : Text) (ms : List ReflectMethod) (use_alias : Bool)
      → (do_register_service s.plugin_manager).1 ≢ panic
      → Registers s
          (if use_alias then alias else type_name)
          (register is_exported s type_name ms alias use_alias)
  register-Registers s type_name alias ms use_alias h =
      elim (name_cases type_name alias use_alias) [
        | inl refused ↦ inr (refused s ms)
        | inr accepted ↦
            subst (Registers s (if use_alias then alias else type_name)) (sym (accepted s ms)) (
              with_methods-Registers s (if use_alias then alias else type_name) _
                (register_methods_returns ms) h)
      ]

  -- A name that a registration has taken is no empty one.
  register_named :
      (s s' : Server) (type_name alias : Text) (ms : List ReflectMethod) (use_alias : Bool)
      → register is_exported s type_name ms alias use_alias ≡ (s', ok tt)
      → same (if use_alias then alias else type_name) [] ≡ false
  unfolding register
  register_named s s' type_name alias ms use_alias done =
      elim (Bool-cases (same (if use_alias then alias else type_name) [])) [
        | inl nameless ↦ elim (refusal s s' invalid_service_name _ (rw nameless refl) done) [ ]
        | inr named ↦ named
      ]

  -- The error of a registration under a name that is taken.
  abbrev pub taken_error : Text → Bool → Error
  taken_error s_name use_alias =
      if not (is_exported s_name) && not use_alias
      then method_must_be_exported
      else service_already_defined

  register_taken :
      (s : Server) (s_name : Text) (old : Service) (type_name alias : Text)
      (ms : List ReflectMethod) (use_alias : Bool) (more : Dict Text Method)
      → lookup s_name s.service_map ≡ some old
      → same s_name [] ≡ false
      → (if use_alias then alias else type_name) ≡ s_name
      → register_methods is_exported false ms ≡ ok more
      → register is_exported s type_name ms alias use_alias
        ≡ (s, err (taken_error s_name use_alias))
  unfolding register
  register_taken s s_name old type_name alias ms use_alias more taken named here good =
      rw (here, named)
        (elim (Bool-cases (not (is_exported s_name) && not use_alias)) [
          | inl hidden ↦ rw hidden refl
          | inr shown ↦
              let stored : with_methods s s_name (ok more) ≡ (s, err service_already_defined) =
                ap (store_service s s_name (record { name = trim s_name; methods = more })) taken in
              rw (shown, good) stored
        ])

  -- If the plugins that register a service do not panic: after a registration that succeeds the
  -- other services are as before, and a second registration under the same name, with or without an
  -- alias, of whatever type and with whatever good methods, is refused and changes nothing. The
  -- error says that the service is defined, unless the second registration has no alias and the
  -- name is not exported.
  pub register-register :
      (s s' : Server) (type_name alias : Text) (ms : List ReflectMethod) (use_alias : Bool)
      (type_name' alias' : Text) (ms' : List ReflectMethod) (use_alias' : Bool)
      (more : Dict Text Method)
      → (do_register_service s.plugin_manager).1 ≢ panic
      → register is_exported s type_name ms alias use_alias ≡ (s', ok tt)
      → (if use_alias' then alias' else type_name') ≡ (if use_alias then alias else type_name)
      → register_methods is_exported false ms' ≡ ok more
      → let s_name = if use_alias then alias else type_name in
        ((n : Text) → n ≢ s_name → lookup n s'.service_map ≡ lookup n s.service_map)
        × (register is_exported s' type_name' ms' alias' use_alias'
            ≡ (s', err (taken_error s_name use_alias')))
  register-register s s' type_name alias ms use_alias type_name' alias' ms' use_alias' more h done
        same_name good =
      elim (register-Registers s type_name alias ms use_alias h) [
        | inr (e, q) ↦ elim (refusal s s' e _ q done) [ ]
        | inl (free, (methods, q)) ↦
            let s_name = if use_alias then alias else type_name in
            let svc : Service = record { name = trim s_name; methods = methods } in
            let after : s'.service_map ≡ insert s_name svc s.service_map =
              ap (λ (x : Server × Result (Unit {0})). x.0.service_map) (sym done ∙ q) in
            let here : lookup s_name s'.service_map ≡ some svc =
              ap (lookup s_name) after
              ∙ (lookup-insert s_name s_name svc s.service_map ∙ rw (same_refl s_name) refl) in
            (
              λ n other.
                  ap (lookup n) after
                  ∙ (lookup-insert n s_name svc s.service_map ∙ rw (beq_ne n s_name other) refl),
              register_taken s' s_name svc type_name' alias' ms' use_alias' more here
                  (register_named s s' type_name alias ms use_alias done) same_name good,
            )
      ]
