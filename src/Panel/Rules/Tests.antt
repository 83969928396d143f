-- ===== src/Panel/Rules/Tests.antt =====
-- crates/panel-server/src/routes/rules.rs: requests on a small site.
use emorelay.Base.{◌≤◌, max, ◌≡◌, refl, true, Option, none, some, List, [], ◌∷◌, ◌++◌, All, arith}
use emorelay.Base.Signed.{pos}
use emorelay.Base.Result.{Result, ok, err}
use emorelay.Panel.Dispatcher.{new, subscribe}
use emorelay.Panel.Dispatch.{remove_command, parse_extra_targets}
use emorelay.Panel.Sample.{row}
use emorelay.Panel.Ports.Table.{IsTable}
use emorelay.Panel.Rules.{
  AuthUser, Site, ApiError, bad_request, internal_target, admin_only, node_not_granted, not_found,
  find_by_id, ensure_can_touch,
}
use emorelay.Panel.Rules.Targets.{validate_targets}
use emorelay.Panel.Rules.Create.{
  CreateRuleRequest, rules_of, rules_in_tunnel, create, check_request, check_grant, place_rule,
  check_tunnel_quota, check_profile, new_row, finish, write_settings,
}
use emorelay.Panel.Rules.Update.{
  UpdateRuleRequest, update, check_change, check_profile_change, check_targets, fields_of, in_pool,
  write_changes,
}
use emorelay.Panel.Rules.Handlers.{
  Request, creates, updates, deletes, disables, Reply, delete, handle, serve, serve_all,
}
use emorelay.Base.Text.{trim}
use emorelay.Panel.Db.{find_node, with_fields}
use emorelay.Panel.Util.{is_valid_ip, is_internal_target_ip, is_internal_ip, is_internal_v4}
use emorelay.Panel.Util.Host.{is_valid_target_host}
use emorelay.Panel.Settings.{reserved_ports}
use emorelay.Panel.Grants.{node_granted, tunnel_grant_num}
use emorelay.Panel.Ports.{
  choose_port, ensure_no_protocol_conflict, insert_rule, is_unique, validate_protocol,
}
use emorelay.Panel.Rules.Refine.{IsReached, serve-run, serve_all-IsTable}
use emorelay.Panel.Rules.Owners.{strangers, serve-strangers}
use emorelay.Panel.Rules.Managed.{managed_rules, serve-managed_rules}
use emorelay.Panel.Rules.Public.{IsPublic, serve_all-AllPublic}
use emorelay.Panel.Rules.Quota.{allowed, serve-rules_of, serve-rules_in_tunnel}
use emorelay.Panel.Rules.Grant.{lacks_grant, serve-lacks_grant}
use emorelay.Panel.Rules.Deliver.{Connected, Sent, serve-Sent}
use emorelay.Panel.Rules.Removal.{serve-deletes}
use emorelay.Panel.Rules.Sample.{
  formats, from_str-to_string, site, owner, user, other, admin, db-IsTable,
}

abbrev web : CreateRuleRequest
web = record {
  node_id = 1;
  name = " api ";
  protocol = "tcp";
  listen_ip = "0.0.0.0";
  listen_port = some 20002;
  target_host = "example.org";
  target_port = 443;
  bandwidth_profile_id = none;
  tunnel_id = none;
  user_id = none;
  max_connections = none;
  extra_targets = some (record { host = "b.example.org"; port = 3 } ∷ []);
  lb_strategy = some "round";
  send_proxy_protocol = none;
  remote_af = none;
}

abbrev rename : UpdateRuleRequest
rename = record {
  name = some "new";
  listen_ip = none;
  listen_port = none;
  target_host = none;
  target_port = some 8443;
  bandwidth_profile_id = none;
  max_connections = none;
  extra_targets = none;
  lb_strategy = none;
  send_proxy_protocol = none;
  remote_af = some "v6";
}

abbrev error_of : Result ApiError (Site × Reply) → Option ApiError
error_of (ok done) = none
error_of (err e) = some e

-- The requests are served, and refused for the reasons that they should be.
created : error_of (handle formats site user (creates web)) ≡ none
unfolding handle create check_request validate_targets check_grant place_rule check_tunnel_quota
    check_profile new_row finish write_settings choose_port ensure_no_protocol_conflict insert_rule
    is_unique rules_of reserved_ports trim is_valid_target_host is_internal_target_ip is_internal_ip
    is_internal_v4 is_valid_ip validate_protocol find_node node_granted
created = refl

internal_refused :
    error_of (handle formats site user (creates (record web { target_host = "10.0.0.1" })))
    ≡ some (bad_request internal_target)
unfolding handle create check_request validate_targets check_grant place_rule check_tunnel_quota
    check_profile new_row finish write_settings choose_port ensure_no_protocol_conflict insert_rule
    is_unique rules_of reserved_ports trim is_valid_target_host is_internal_target_ip is_internal_ip
    is_internal_v4 is_valid_ip validate_protocol find_node node_granted
internal_refused = refl

limit_refused :
    error_of (handle formats site user (creates (record web { max_connections = some (pos 5) })))
    ≡ some (bad_request admin_only)
unfolding handle create check_request validate_targets check_grant place_rule check_tunnel_quota
    check_profile new_row finish write_settings choose_port ensure_no_protocol_conflict insert_rule
    is_unique rules_of reserved_ports trim is_valid_target_host is_internal_target_ip is_internal_ip
    is_internal_v4 is_valid_ip validate_protocol find_node node_granted
limit_refused = refl

other_refused :
    error_of (handle formats site other (creates web)) ≡ some (bad_request node_not_granted)
unfolding handle create check_request validate_targets check_grant place_rule check_tunnel_quota
    check_profile new_row finish write_settings choose_port ensure_no_protocol_conflict insert_rule
    is_unique rules_of reserved_ports trim is_valid_target_host is_internal_target_ip is_internal_ip
    is_internal_v4 is_valid_ip validate_protocol find_node node_granted
other_refused = refl

unseen : error_of (handle formats site other (deletes 7)) ≡ some not_found
unfolding handle delete ensure_can_touch
unseen = refl

updated : error_of (handle formats site user (updates 7 rename)) ≡ none
unfolding handle update ensure_can_touch check_change check_profile_change check_targets fields_of
    with_fields in_pool write_changes finish ensure_no_protocol_conflict is_unique reserved_ports
    trim find_node node_granted
updated = refl

serve-run_example : IsReached formats site user (serve formats site user (updates 7 rename)).db
serve-run_example = serve-run formats site user (updates 7 rename)

abbrev day : List (AuthUser × Request)
day =
    (user, creates web)
    ∷ (other, deletes 7)
    ∷ (user, updates 7 rename)
    ∷ (admin, updates 9 (record rename { max_connections = some (pos 8) }))
    ∷ (user, disables 7)
    ∷ []

serve_all-IsTable_example : IsTable (serve_all formats site day).db
serve_all-IsTable_example = serve_all-IsTable formats site day db-IsTable

serve-strangers_example :
    strangers 5 (serve formats site other (deletes 7)).db.rules ≡ strangers 5 site.db.rules
serve-strangers_example = serve-strangers formats site other refl db-IsTable (deletes 7)

serve-managed_rules_example :
    managed_rules (serve formats site user (creates web)).db.rules ≡ managed_rules site.db.rules
serve-managed_rules_example = serve-managed_rules formats site user refl (creates web)

abbrev users_day : List (AuthUser × Request)
users_day = (user, creates web) ∷ (other, deletes 7) ∷ (user, updates 7 rename) ∷ []

before : All (IsPublic formats) site.db.rules
unfolding is_internal_target_ip parse_extra_targets
before = ((refl, tt), ((refl, tt), tt))

serve_all-AllPublic_example : All (IsPublic formats) (serve_all formats site users_day).db.rules
serve_all-AllPublic_example =
    serve_all-AllPublic formats from_str-to_string site users_day (refl, (refl, (refl, tt))) before

serve-rules_of_example :
    rules_of 2 (serve formats site admin (creates (record web { user_id = some 2 }))).db.rules
    ≤ max (allowed (pos 3)) (rules_of 2 site.db.rules)
serve-rules_of_example =
    serve-rules_of formats site admin (creates (record web { user_id = some 2 })) 2 owner (pos 3)
      refl refl

limit_of_three : tunnel_grant_num site.grants 2 3 ≡ some (pos 1)
unfolding tunnel_grant_num
limit_of_three = refl

serve-rules_in_tunnel_example :
    rules_in_tunnel 2 3
      (serve formats site user (creates (record web { tunnel_id = some 3 }))).db.rules
    ≤ max (allowed (pos 1)) (rules_in_tunnel 2 3 site.db.rules)
serve-rules_in_tunnel_example =
    serve-rules_in_tunnel formats site user (creates (record web { tunnel_id = some 3 })) 2 3
      (pos 1) limit_of_three

ungranted : lacks_grant site other (creates web) ≡ true
unfolding node_granted
ungranted = refl

serve-lacks_grant_example : serve formats site other (creates web) ≡ site
serve-lacks_grant_example = serve-lacks_grant formats site other refl (creates web) ungranted

node_connected : Connected site.dispatcher 1 0
unfolding new subscribe
node_connected = record { filed = refl; is_open = refl; room = omega arith }

serve-Sent_example :
    Sent formats site user 1 0 db-IsTable node_connected 10 (serve formats site user (creates web))
serve-Sent_example =
    serve-Sent formats site user 1 0 db-IsTable node_connected (creates web) 10 (refl, refl, refl)

serve-deletes_example :
    (find_by_id (serve formats site user (deletes 7)) 7 ≡ none)
    × (((serve formats site user (deletes 7)).dispatcher.channel 0).waiting
        ≡ (site.dispatcher.channel 0).waiting ++ (remove_command 7 ∷ []))
serve-deletes_example = serve-deletes formats site user 7 0 row refl refl refl node_connected
