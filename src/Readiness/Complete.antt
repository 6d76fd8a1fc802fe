-- ===== src/Readiness/Complete.antt =====
-- src/store/readiness.rs: a report that misses nothing is ready.
use agent_first_mail.Prelude.{
  String, ◌≡◌, refl, ◌∙◌, sym, Bool, true, false, not, ◌&&◌, ◌||◌, Bool-cases, Option, none, some,
  List, [], ◌∷◌, ◌++◌, is_nil, is_nil-append, any, is_some, arith, if◌then◌else◌, All, inl, inr,
}
use agent_first_mail.References.Scan.{is_nil-id_set}
use agent_first_mail.References.{id_set}
use agent_first_mail.Push.Item.{ActionStep}
use agent_first_mail.Readiness.{
  RouteReadiness, missing_keys, new_route, Features, MailConfig, imap_route, cloudflare_route,
  files_route, smtp_route, sending_route, with_pull_ids, step_route, route_ready, route_missing,
  routes_ready, routes_missing, steps_ready, steps_missing, readiness_of, readiness,
}

-- A route that misses nothing is ready, if it is configured.
abbrev Closes : RouteReadiness → Type 0
Closes route = is_nil route.missing_config ≡ true → route.configured ≡ true → route.ready ≡ true

with_pull_ids-Closes :
    (ids : List String) (route : RouteReadiness) → Closes route → Closes (with_pull_ids ids route)
with_pull_ids-Closes [] route h e c = absurd (
    ground (
      arith,
      sym (is_nil-append route.missing_config ("actions.pull.default_mailbox_ids" ∷ [])) ∙ e,
    ))
with_pull_ids-Closes (id ∷ ids) route h e c = h e c

new_route-Closes :
    (configured feature : Bool) (required : List (String × Bool))
    → feature ≡ true
    → Closes (new_route configured feature required)
new_route-Closes configured feature required f e c = ground (arith, f, e, c)

selected_ready :
    (configured ready : Bool) (missing later : List String)
    → (is_nil missing ≡ true → configured ≡ true → ready ≡ true)
    → is_nil (if configured then missing ++ later else later) ≡ true
    → ((not configured || ready) ≡ true) × (is_nil later ≡ true)
selected_ready true ready missing later h e =
    let both : (is_nil missing && is_nil later) ≡ true = sym (is_nil-append missing later) ∙ e in
    (h (ground (arith, both)) refl, ground (arith, both))
selected_ready false ready missing later h e = (refl, e)

routes_ready_lem :
    (routes : List RouteReadiness)
    → All Closes routes
    → is_nil (routes_missing routes) ≡ true
    → routes_ready routes ≡ true
unfolding routes_ready routes_missing
routes_ready_lem [] h e = refl
routes_ready_lem (route ∷ routes) h e =
    let first =
      selected_ready route.configured route.ready route.missing_config (routes_missing routes) h.0
        e in
    ground (arith, first.0, routes_ready_lem routes h.1 first.1)

steps_ready_lem :
    (route : ActionStep → Option RouteReadiness) (steps : List ActionStep)
    → ((step : ActionStep)
        → is_nil (route_missing (route step)) ≡ true
        → route_ready (route step) ≡ true)
    → is_nil (steps_missing route steps) ≡ true
    → steps_ready route steps ≡ true
unfolding steps_ready steps_missing
steps_ready_lem route [] h e = refl
steps_ready_lem route (step ∷ steps) h e = ground (
  arith,
  is_nil-append (route_missing (route step)) (steps_missing route steps),
  e,
  h step,
  steps_ready_lem route steps h,
)

step_route_lem :
    (imap smtp sending : RouteReadiness) (step : ActionStep)
    → (is_nil imap.missing_config ≡ true → imap.ready ≡ true)
    → (is_nil smtp.missing_config ≡ true → smtp.ready ≡ true)
    → (is_nil sending.missing_config ≡ true → sending.ready ≡ true)
    → is_nil (route_missing (step_route imap smtp sending step)) ≡ true
    → route_ready (step_route imap smtp sending step) ≡ true
step_route_lem imap smtp sending step h g k =
    chosen (is_some step.smtp_send) (is_some step.cloudflare_send) (
      is_some step.append_to_mailbox_id
      || is_some step.move_to_mailbox_id
      || not (is_nil step.add_flags))
  where
    chosen :
        (a b c : Bool)
        → is_nil (
            route_missing
              (if a then some smtp else if b then some sending else if c then some imap else none))
          ≡ true
        → route_ready
            (if a then some smtp else if b then some sending else if c then some imap else none)
          ≡ true
    chosen true b c e = g e
    chosen false true c e = k e
    chosen false false true e = h e
    chosen false false false e = refl

-- The missing parts of the report: sources, sending, and the rest.
no_missing :
    (a b c d : List String)
    → is_nil (id_set (a ++ b ++ c ++ d) []) ≡ true
    → (is_nil a && is_nil b && is_nil c && is_nil d) ≡ true
no_missing a b c d e = ground (
  arith,
  is_nil-id_set (a ++ b ++ c ++ d) [],
  is_nil-append a (b ++ c ++ d),
  is_nil-append b (c ++ d),
  is_nil-append c d,
  e,
)

-- A route for sending that misses nothing is ready.
abbrev Ready : RouteReadiness → Type 0
Ready route = is_nil route.missing_config ≡ true → route.ready ≡ true

of_chosen_left :
    {A : Type 0} (b : Bool) (xs : List A)
    → is_nil (if b then [] else xs) ≡ true
    → b ≡ false
    → is_nil xs ≡ true
of_chosen_left true xs e h = absurd (cc)
of_chosen_left false xs e h = e

of_chosen_right :
    {A : Type 0} (b : Bool) (xs : List A)
    → is_nil (if b then xs else []) ≡ true
    → b ≡ true
    → is_nil xs ≡ true
of_chosen_right true xs e h = e
of_chosen_right false xs e h = absurd (cc)

unchosen : {A : Type 0} (b : Bool) (x : A) → is_nil (if b then x ∷ [] else []) ≡ true → b ≡ false
unchosen true x e = absurd (cc)
unchosen false x e = refl

configured-with_pull_ids :
    (ids : List String) (route : RouteReadiness)
    → (with_pull_ids ids route).configured ≡ route.configured
configured-with_pull_ids [] route = refl
configured-with_pull_ids (id ∷ ids) route = refl

report_ready :
    (imap cloudflare files smtp sending : RouteReadiness) (pull_ids : List String)
    (steps : List ActionStep) (placeholder_identity : Bool)
    → Ready imap
    → (imap.ready ≡ true → imap.configured ≡ true)
    → Closes cloudflare
    → Closes files
    → Ready smtp
    → Ready sending
    → (files.configured ≡ true → files.ready ≡ true)
    → (let r =
          readiness_of imap cloudflare files smtp sending pull_ids steps placeholder_identity in
        is_nil r.missing_config ≡ true → (r.ready_for_pull && r.ready_for_send) ≡ true)
unfolding readiness_of
report_ready imap cloudflare files smtp sending pull_ids steps placeholder_identity i ic c f s t fr
      e =
    let sources : List RouteReadiness = with_pull_ids pull_ids imap ∷ cloudflare ∷ files ∷ [] in
    let selected : Bool = any (λ (route : RouteReadiness). route.configured) sources in
    let email_selected : Bool =
      imap.configured
      || cloudflare.configured
      || smtp.configured
      || sending.configured
      || not files.configured in
    let route : ActionStep → Option RouteReadiness = step_route imap smtp sending in
    let of_sources = routes_missing sources in
    let of_imap : List String = if selected then [] else imap.missing_config in
    let of_steps : List String = if email_selected then steps_missing route steps else [] in
    let of_identity : List String =
      if placeholder_identity then "identities (replace Me <me@example.com>)" ∷ [] else [] in
    let parts = no_missing of_sources of_imap of_steps of_identity e in
    let left : is_nil of_sources ≡ true = ground (arith, parts) in
    let imap_left : is_nil of_imap ≡ true = ground (arith, parts) in
    let steps_left : is_nil of_steps ≡ true = ground (arith, parts) in
    let identity_left : is_nil of_identity ≡ true = ground (arith, parts) in
    let no_placeholder : placeholder_identity ≡ false =
      unchosen placeholder_identity "identities (replace Me <me@example.com>)" identity_left in
    let sources_ready : routes_ready sources ≡ true =
      routes_ready_lem sources (with_pull_ids-Closes pull_ids imap (λ m k. i m), (c, (f, tt)))
        left in
    let same = configured-with_pull_ids pull_ids imap in
    let chosen : selected ≡ true = elim (Bool-cases selected) [
      | inl on ↦ on
      | inr off ↦
          let on : imap.configured ≡ true =
            ic (i (of_chosen_left selected imap.missing_config imap_left off)) in
          absurd (ground (arith, on, same, off))
    ] in
    let sent : (files.ready || (email_selected && (not email_selected || steps_ready route steps)))
        ≡ true =
      elim (Bool-cases email_selected) [
        | inl asked ↦
            let all_ready : steps_ready route steps ≡ true =
              steps_ready_lem route steps (λ step. step_route_lem imap smtp sending step i s t)
                (of_chosen_right email_selected (steps_missing route steps) steps_left asked) in
            ground (arith, asked, all_ready)
        | inr off ↦ let on : files.configured ≡ true = ground (arith, off) in ground (arith, fr on)
      ] in
    ground (arith, chosen, sources_ready, no_placeholder, sent)

imap_Ready : (config : MailConfig) → Ready (imap_route config)
unfolding missing_keys
imap_Ready config m = ground (arith, m)

imap_on :
    (config : MailConfig) → (imap_route config).ready ≡ true → (imap_route config).configured ≡ true
imap_on config r = ground (arith, r)

smtp_Ready :
    (blank : String → Bool) (features : Features) (config : MailConfig)
    → features.smtp ≡ true
    → Ready (smtp_route blank features config)
unfolding missing_keys
smtp_Ready blank features config b m = ground (arith, b, m)

sending_Ready :
    (features : Features) (config : MailConfig)
    → features.cloudflare ≡ true
    → Ready (sending_route features config)
unfolding missing_keys
sending_Ready features config b m = ground (arith, b, m)

files_on :
    (features : Features) (config : MailConfig)
    → features.files ≡ true
    → (files_route features config).configured ≡ true
    → (files_route features config).ready ≡ true
unfolding missing_keys
files_on features config b k = ground (arith, b, k)

-- With every optional feature built in, a report that misses nothing is ready for pulling and for
-- sending.
pub readiness_complete :
    (blank : String → Bool) (features : Features) (config : MailConfig)
    (placeholder_identity : Bool)
    → features.cloudflare ≡ true
    → features.files ≡ true
    → features.smtp ≡ true
    → is_nil (readiness blank features config placeholder_identity).missing_config ≡ true
    → ((readiness blank features config placeholder_identity).ready_for_pull
        && (readiness blank features config placeholder_identity).ready_for_send)
      ≡ true
unfolding readiness
readiness_complete blank features config placeholder_identity cloudflare_built files_built
      smtp_built =
    report_ready (imap_route config) (cloudflare_route blank features config)
      (files_route features config) (smtp_route blank features config)
      (sending_route features config) config.default_pull_ids config.send_steps placeholder_identity
      (imap_Ready config) (λ r. imap_on config r) (λ m k. ground (arith, cloudflare_built, m, k))
      (λ m k. ground (arith, files_built, m, k)) (smtp_Ready blank features config smtp_built)
      (sending_Ready features config cloudflare_built) (files_on features config files_built)
