-- ===== src/Panel/Ports/Tests.antt =====
-- crates/panel-server/src/routes/rules.rs: ports of a small table.
use emorelay.Base.{◌≡◌, refl, true, some, [], is_some, arith}
use emorelay.Panel.Db.{DbRule}
use emorelay.Panel.Ports.{allocate_port, first_port, create_checked, validate_protocol}
use emorelay.Panel.Ports.Free.{create_checked-allocate_port}
use emorelay.Panel.Sample.{db, node, row}

-- 20000 and 20001 are taken, so the new rule gets 20002.
abbrev fresh_row : DbRule
fresh_row = record row { listen_port = 20002 }

chosen : allocate_port db (node 1) "0.0.0.0" "tcp_udp" [] ≡ some 20002
unfolding allocate_port first_port
chosen = refl

valid : validate_protocol "tcp_udp" ≡ true
unfolding validate_protocol
valid = refl

create_checked-allocate_port_example : is_some (create_checked db fresh_row) ≡ true
create_checked-allocate_port_example =
    create_checked-allocate_port db (node 1) [] fresh_row valid refl chosen (omega arith)
