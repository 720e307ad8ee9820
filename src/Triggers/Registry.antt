-- ===== src/Triggers/Registry.antt =====
-- backend/triggers/registry.py and scheduler.py, and the routes that app.py adds for webhooks. A job or a
-- route is given by its id or path and by the graph and node that it fires. `crontab` is APScheduler's
-- `CronTrigger.from_crontab`, which also gives the text of the schedule; `none` is its ValueError.
use Prim.Native.String.{◌++◌ as str_append}
use agent_graph_studio.Prelude.{
  if◌then◌else◌, ◌==◌, string_eq, any, filter_list, String, ◌⊎◌, inl, inr, Bool, not, Option, none,
  some, List, [], ◌∷◌, ◌++◌, map, nat_eq, pair_eq, option_eq,
}
use agent_graph_studio.Prelude.Dict.{Dict, get, put, pop, values}
use agent_graph_studio.Prelude.Text.{starts_with}
use agent_graph_studio.Schema.Models.{GraphSpec}

pub record TriggerRecord : Type 0 where
  pub node_id : String
  pub type : String
  pub endpoint_or_schedule : String

pub record ActiveGraph : Type 0 where
  pub graph_id : String
  pub graph : GraphSpec
  pub triggers : List TriggerRecord
  pub created_by : Option String

-- A job of the scheduler, or a route: what it is registered as, and what it fires.
pub record Hook : Type 0 where
  pub name : String
  pub graph_id : String
  pub node_id : String

-- The state of one process: the scheduler's jobs, the routes under /webhooks, and `_active`.
pub record Triggers : Type 0 where
  pub jobs : List Hook
  pub routes : List Hook
  pub active : Dict String ActiveGraph

abbrev pub no_triggers : Triggers
no_triggers = record { jobs = []; routes = []; active = [] }

-- `_job_id` and `_webhook_path`, and the prefixes by which they are removed
abbrev pub job_prefix : String → String
job_prefix graph_id = str_append graph_id ":"

abbrev pub job_id : String → String → String
job_id graph_id node_id = str_append graph_id (str_append ":" node_id)

abbrev pub route_prefix : String → String
route_prefix graph_id = str_append "/webhooks/" (str_append graph_id "/")

abbrev pub webhook_path : String → String → String
webhook_path graph_id node_id =
    str_append "/webhooks/" (str_append graph_id (str_append "/" node_id))

unfoldable pub set_active :
    Triggers → String → GraphSpec → List TriggerRecord → Option String → Triggers
set_active s graph_id graph triggers created_by = record s {
  active =
      put s.active graph_id (record {
        graph_id = graph_id;
        graph = graph;
        triggers = triggers;
        created_by = created_by;
      });
}

unfoldable pub get_active : Triggers → String → Option ActiveGraph
get_active s graph_id = get s.active graph_id

unfoldable pub clear_active : Triggers → String → Triggers
clear_active s graph_id = record s { active = pop s.active graph_id }

unfoldable pub list_active : Triggers → List ActiveGraph
list_active s = values s.active

-- How a registration fails: an expression that is refused, or the scheduler's ConflictingIdError.
pub data TriggerError : Type 0 where
  invalid_cron : String → TriggerError
  conflicting_job : String → TriggerError

abbrev is_named : String → Hook → Bool
is_named name h = h.name == name

unfoldable pub add_schedule_job :
    Triggers → String → String → Option String → Triggers ⊎ TriggerError
add_schedule_job s graph_id node_id none = inr (invalid_cron node_id)
add_schedule_job s graph_id node_id (some cron) =
    if any (is_named (job_id graph_id node_id)) s.jobs
    then inr (conflicting_job node_id)
    else inl (record s {
      jobs =
          s.jobs
          ++ (record { name = job_id graph_id node_id; graph_id = graph_id; node_id = node_id })
            ∷ [];
    })

unfoldable pub remove_jobs_for_graph : Triggers → String → Triggers
remove_jobs_for_graph s graph_id = record s {
  jobs = filter_list (λ h. not (starts_with (job_prefix graph_id) h.name)) s.jobs;
}

unfoldable pub get_jobs_for_graph : Triggers → String → List String
get_jobs_for_graph s graph_id =
    map (λ (h : Hook). h.name) (filter_list (λ h. starts_with (job_prefix graph_id) h.name) s.jobs)

-- `app.add_api_route`
unfoldable pub add_route : Triggers → String → String → Triggers
add_route s graph_id node_id = record s {
  routes =
      s.routes
      ++ (record { name = webhook_path graph_id node_id; graph_id = graph_id; node_id = node_id })
        ∷ [];
}

-- The filter of `app.router.routes` in `_deactivate`.
unfoldable pub remove_routes : Triggers → String → Triggers
remove_routes s graph_id = record s {
  routes = filter_list (λ h. not (starts_with (route_prefix graph_id) h.name)) s.routes;
}
