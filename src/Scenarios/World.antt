-- ===== src/Scenarios/World.antt =====
-- A small world: a network that knows no address, one RoE and one request.
use aegisbastion.Common.{Bool, true, false, [], ◌∷◌, none, some, Text, codes}
use aegisbastion.Net.{Net}
use aegisbastion.Gatekeeper.Capreg.{RiskClass, Registry, r1, r3}
use aegisbastion.Gatekeeper.Types.{RoeStatus, Roe, AuthorizationRequest, no_roe}
use aegisbastion.Gatekeeper.Policy.{Services, Clock, World, found}

abbrev pub host : Text
host = codes "a.com"

abbrev pub net : Net
net = record {
  parse_url = λ t. none;
  split_host_port = λ t. none;
  parse_addr = λ t. none;
  addr_string = λ a. [];
  parse_prefix = λ t. none;
  prefix_string = λ p. [];
}

abbrev pub roe : Roe
roe = record no_roe {
  roe_id = codes "roe_1";
  version = 2;
  status = RoeStatus.active;
  valid_from = 10;
  valid_until = 20;
  constraints = record (no_roe.constraints) {
    allowed_capabilities = codes "recon.*" ∷ [];
    max_risk_class = RiskClass.r1;
  };
}

abbrev pub registry : Registry
registry = record { exact = (codes "recon.dns", r1) ∷ []; pattern = (codes "redteam", r3) ∷ [] }

abbrev pub services : Bool → Services
services audits = record {
  net = net;
  zone = λ z t. none;
  registry = registry;
  has_permission = λ org p permission. some true;
  revocations = some [];
  load_roe = λ id version. found roe;
  effective_targets = λ id version. some (host ∷ [], codes "b.com" ∷ []);
  find_valid_approval = λ id version capability targets. some none;
  inventory = none;
  persists = true;
  publishes_decisions = true;
  publishes_denials = false;
  audits = audits;
}

abbrev pub clock : Clock
clock = record { start = 11; roe = 12; window = 13; rate = 14; finish = 15 }

abbrev pub request : AuthorizationRequest
request = record {
  request_id = codes "req_1";
  principal =
      some
        (record { kind = codes "service"; id = codes "planner"; spiffe_id = codes "spiffe://p" });
  task = record { task_id = codes "tsk_1"; parent_plan_id = []; commander = [] };
  capability = codes "recon.dns";
  targets = host ∷ [];
  roe_id = codes "roe_1";
  roe_version = 2;
  source_region = [];
  data_classes_touched = [];
  dry_run = false;
}

abbrev pub world : World
world = record {
  buckets = [];
  rows = [];
  audit_log = [];
  published = [];
  next_decision = codes "dec_1";
  next_request = codes "req_2";
}
