-- ===== src/Lib.antt =====
-- EMORELAY: the node agent that relays traffic for rules, and the parts of the panel that decide
-- which rules a node runs and tell it so.
--
-- The program. The panel (crates/panel-server) keeps rules, tunnels and nodes in a database. A
-- change of a rule is checked and stored by its handler (routes/rules.rs, models/*), and sent as a
-- command over the node's channel (grpc/dispatcher.rs, grpc/tunnel_dispatch.rs); a rule over a
-- tunnel is split into one part for each hop (grpc/tunnel_split.rs). Users have grants of nodes and
-- tunnels (models/grant.rs), quotas and dates; a sweeper switches the rules off of those who are
-- past them (sweeper/user_quota.rs). A node that connects is replayed all its rules and then the ids
-- that are to stay. The agent (crates/node-agent) handles the commands one by one (agent.rs), starts
-- and stops listeners (manager.rs), keeps its rules on disk (store.rs), tries failed commands again
-- (retry.rs), counts traffic (stats.rs, system.rs), and forwards connections (relay/*, select.rs,
-- sniff.rs, limit/*, tunnel/*). The commands are messages of common/proto/control.proto.
--
-- The files.
--   Base, Base/*       tests on numbers, lists, maps as association lists, machine words, addresses, text,
--                      and results with their guards
--   Proto              the messages of crates/common/proto/control.proto
--   Agent/Manager      crates/node-agent/src/manager.rs: RuleManager::apply, remove, reconcile, restart
--   Agent/Command      crates/node-agent/src/agent.rs: handle_command
--   Agent/Session      crates/node-agent/src/agent.rs: run_agent and run_session, as events
--   Agent/Retry        crates/node-agent/src/retry.rs: RetryQueue
--   Agent/Store        crates/node-agent/src/store.rs: RuleJson, ConfigStore::load and save
--   Agent/Stats        crates/node-agent/src/stats.rs, and report_stats of agent.rs
--   Agent/System       crates/node-agent/src/system.rs, and report_node_stats of agent.rs
--   Agent/Relay        crates/node-agent/src/relay/mod.rs, and the connects of relay/tcp.rs
--   Agent/Udp          crates/node-agent/src/relay/udp.rs: the table of sessions
--   Agent/Dns          crates/node-agent/src/dns.rs: resolve_target and its cache
--   Agent/Sniff        crates/node-agent/src/sniff.rs, and the peeking loop of relay/tcp.rs
--   Agent/Select       crates/node-agent/src/select.rs: target_order
--   Agent/ConnLimit    crates/node-agent/src/limit/conn_limit.rs, and the accept loop of relay/tcp.rs
--   Agent/TokenBucket  crates/node-agent/src/limit/token_bucket.rs
--   Agent/Frame        crates/node-agent/src/tunnel/frame.rs
--   Agent/Creds        crates/node-agent/src/tunnel/creds.rs
--   Agent/Tunnel       crates/node-agent/src/tunnel/task.rs: start (Tunnel), the copying of bytes (Stream),
--                      entry_udp_loop (Entry), the accept loop of a hop (Hop), handle_hop_conn (Exit)
--   Panel/Db           crates/panel-server/src/models/rule.rs, tunnel.rs and node.rs
--   Panel/Split        crates/panel-server/src/grpc/tunnel_split.rs
--   Panel/Dispatch     crates/panel-server/src/grpc/commands.rs and tunnel_dispatch.rs
--   Panel/Dispatcher   crates/panel-server/src/grpc/dispatcher.rs
--   Panel/Sessions     crates/panel-server/src/grpc/session.rs
--   Panel/Ports        crates/panel-server/src/routes/rules.rs: the ports of create and update
--   Panel/Rules        crates/panel-server/src/routes/rules.rs: the handlers create (Create), update
--                      (Update), delete, enable, disable and restart (Handlers), validate_targets (Targets)
--   Panel/Users        crates/panel-server/src/models/user.rs, and routes/users.rs: create, update and
--                      delete (Handlers)
--   Panel/Grants       crates/panel-server/src/models/grant.rs
--   Panel/Settings     crates/panel-server/src/models/settings.rs: reserved_ports
--   Panel/Sweeper      crates/panel-server/src/sweeper/user_quota.rs
--   Panel/Util         crates/panel-server/src/util.rs: is_internal_target_ip, is_valid_target_host
-- The other children of a module hold its theorems; the child Tests of each holds examples at concrete data.
--
-- How the code is modelled. State is passed explicitly. What the operating system, the network or
-- another library answers is an argument: whether a listener starts (Manager.Env), where a save or a
-- write of credentials is cut off (Store.Ending, Creds.Writes), what a name resolves to and which
-- connects succeed, the JSON codec, the clock, and how the database adds up and casts the real numbers of the
-- billed bytes (Sweeper.Clock.cast_sum). A write error may show only at the flush of a save, which the
-- code ignores (Ending.flush_fails); a read may fail; and a report may be committed though its answer
-- is lost (Stats.RpcEnd). A channel to a node takes commands from two senders, the one in the table and
-- the clone of the replay, and discards what waits when its stream is dropped. A task of the runtime is a count of the listeners that
-- run for a rule and a protocol (RuleManager.live). The panel's tables are lists in the order of their
-- ids; a query is a function on them. Counters that wrap are numbers below 2^64; identifiers and
-- ports are numbers. Strings that the code only compares are strings.
--
-- A request to the panel and a tick of a sweeper run alone: the database answers every query, and no other
-- handler comes between their steps. The state of those on rules, Panel.Rules.Site, is the tables, the
-- grants, the settings, the channels of the dispatcher and the audit log; that of those on accounts is
-- Panel.Users.Accounts, with the columns of users that rules do not look at. An error leaves both as they
-- were. A stream through a tunnel is a list of bytes, and the reads of each hop are lists of sizes.
--
-- Fuel. TokenBucket.acquire takes a unit for each round of its loop. A chunk takes a round that fails and
-- sleeps and a round that succeeds, and has a byte at least, whence the fuel of more than two for each
-- byte. Tunnel.Exit.datagrams takes a unit for each frame: a frame has two bytes at least, so that
-- handle_exit gives it the length of the stream. All else is by recursion on lists.
--
-- What is left out. The web frontend and the deployment; TLS, the issue of certificates, passwords and
-- tokens; the routes of nodes, tunnels and profiles, the import of rules, the panel's gRPC service, and of
-- the routes of rules and users those that only read; the sweepers of offline nodes, statistics and
-- credentials, and the notices; on the agent the way back from a tunnel's
-- target to the client, the transports, probes and the upgrade itself; the floating-point readings of
-- the system and the rounding of the token bucket's floats. A relay task that still holds the counter of
-- a removed rule is not modelled either.
pub mod Base
pub mod Proto
pub mod Agent
pub mod Panel
