-- ===== src/Scenarios/Planner.antt =====
-- A plan of two tasks, of which one is out of scope, and a quota of one.
use aegisbastion.Common.{
  none, true, suc, Bool, true, [], ◌∷◌, Option, none, some, Text, codes, length, Result,
}
use aegisbastion.Gatekeeper.Capreg.{r1, r2}
use aegisbastion.Gatekeeper.Types.{RoeStatus}
use aegisbastion.PlatformCore.Scope.{Scope}
use aegisbastion.PlatformCore.Tasks.{MissionState}
use aegisbastion.PlatformCore.Planner.Types.{
  cai, TaskSpec, PlanRequest, Mission, RoeRecord, Env, State,
}
use aegisbastion.Scenarios.World.{net, host}

abbrev scope : Scope
scope = record { domains = host ∷ []; cidrs = []; excludes = [] }

abbrev mission : Mission
mission = record {
  mission_id = codes "m1";
  owning_commander = codes "cai";
  state = MissionState.active;
  roe_id = codes "roe_1";
}

abbrev roe : RoeRecord
roe = record {
  roe_id = codes "roe_1";
  status = RoeStatus.active;
  max_risk_class = r2;
  allowed_caps = codes "recon.*" ∷ [];
  scope = scope;
  valid_from = some 10;
  valid_until = none;
}

abbrev env : Env
env = record {
  net = net;
  get_mission = λ id. some mission;
  roe = λ id. some roe;
  capability_exists = λ name. some (some r1);
  count_in_flight = λ commander. 3;
  commander_quota = 5;
  new_plan = codes "pln_1";
  new_task = λ k. k ∷ [];
  reason_text = λ r. [];
}

abbrev task_on : Text → Text → TaskSpec
task_on key target = record {
  task_key = key;
  capability = codes "recon.dns";
  risk_class = r1;
  targets = target ∷ [];
  depends_on = [];
  timeout_s = 0;
  max_retries = 1;
}

abbrev plan : PlanRequest
plan = record {
  plan_id = [];
  mission_id = codes "m1";
  submitted_by = cai;
  delegated_by = [];
  idempotency_key = codes "k1";
  tasks = task_on (codes "a") host ∷ task_on (codes "b") (codes "b.com") ∷ [];
}

abbrev start : State
start = record {
  db = record {
    tasks = [];
    moves = [];
    missions = [];
    agents = [];
    kill_switches = [];
    effects = [];
  };
  plans = [];
}
