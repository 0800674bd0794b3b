-- ===== src/Sshd/Policy.antt =====
-- internal/sshd/server.go: the policy that the backend controls.
use nokkud.Base.{get_or, Bool, true, false, Option, none, some}
use nokkud.State.Cache.{DaemonConfig}

-- `Policy`.
pub record Policy : Type 0 where
  pub record_sessions : Bool
  pub allow_forwarding : Bool
  pub allow_agent_forwarding : Bool
  pub gateway_ports : Bool

-- `DefaultPolicy`.
abbrev pub default_policy : Policy
default_policy = record {
  record_sessions = true;
  allow_forwarding = true;
  allow_agent_forwarding = true;
  gateway_ports = false;
}

-- `PolicyFrom`: a field that the backend leaves unset keeps its default.
unfoldable pub policy_from : Option DaemonConfig → Policy
policy_from none = default_policy
policy_from (some cfg) = record {
  record_sessions = get_or cfg.record_sessions default_policy.record_sessions;
  allow_forwarding = get_or cfg.allow_forwarding default_policy.allow_forwarding;
  allow_agent_forwarding = get_or cfg.allow_agent_forwarding default_policy.allow_agent_forwarding;
  gateway_ports = get_or cfg.gateway_ports default_policy.gateway_ports;
}
