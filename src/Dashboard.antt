-- ===== src/Dashboard.antt =====
-- gateway/api/dashboard.py: the overview of an account and its usage. The column created_at and the
-- logging are left out.
pub mod Agreement
mod Tests
use tao_gateway.Base.{
  ℕ, ◌-◌, String, str, str_append, Bool, ◌&&◌, Option, none, some, List, [], ◌∷◌, map, string_eq,
  nat_eq, if◌then◌else◌,
}
use tao_gateway.Base.Dict.{Dict, lookup, insert}
use tao_gateway.Errors.{authentication_error, Result, ok, err}
use tao_gateway.RateLimit.Limits.{Limits, get_subnet_rate_limits}
use tao_gateway.Routing.Metagraph.{SubnetMetagraphState, Subnets, get_state, is_stale}
use tao_gateway.Registry.{AdapterRegistry, list_all}
use tao_gateway.Adapter.{AdapterConfig}
use tao_gateway.ApiKeys.{ApiKey, Table, is_active_of, active_count}
use tao_gateway.Accounts.{Organization, Organizations, get_org_by_id}
use tao_gateway.Usage.Aggregation.{Store}
use tao_gateway.Usage.Quota.{SubnetQuota, get_quota_status}
use tao_gateway.Usage.Summaries.{SubnetUsage, get_usage_summaries}

abbrev pub subnet_names : Dict ℕ String
subnet_names = (1, "Text Generation") ∷ (19, "Image Generation") ∷ (62, "Code Generation") ∷ []

pub record SubnetOverview : Type 0 where
  pub name : String
  pub netuid : ℕ
  pub status : String
  pub rate_limits : Limits

pub record OverviewResponse : Type 0 where
  pub email : String
  pub tier : String
  pub api_key_count : ℕ
  pub first_api_key_prefix : Option String
  pub subnets : List SubnetOverview

abbrev or_subnet : ℕ → Option String → String
or_subnet netuid none = str_append "Subnet " (str netuid)
or_subnet netuid (some name) = name

-- The oldest active key, the first of the table.
unfoldable pub first_active_prefix : String → Table → Option String
first_active_prefix org_id [] = none
first_active_prefix org_id (k ∷ keys) =
    let rest = first_active_prefix org_id keys in
    if is_active_of org_id k then some k.prefix else rest

module _ (M : Type 0) where
  abbrev known_status : Option M → Bool → String
  known_status none stale = "unavailable"
  known_status (some m) stale = if stale then "degraded" else "healthy"

  abbrev pub status_in : ℕ → Option (SubnetMetagraphState M) → String
  status_in now none = "unavailable"
  status_in now (some state) = known_status state.metagraph (is_stale M now state)

  -- `_get_subnet_status`
  unfoldable pub get_subnet_status : Option (Subnets M) → ℕ → ℕ → String
  get_subnet_status none now netuid = "unavailable"
  get_subnet_status (some subnets) now netuid = status_in now (get_state M netuid subnets)

  abbrev pub subnet_overview : Option (Subnets M) → ℕ → ℕ → SubnetOverview
  subnet_overview manager now netuid = record {
    name = or_subnet netuid (lookup netuid subnet_names);
    netuid = netuid;
    status = get_subnet_status manager now netuid;
    rate_limits = get_subnet_rate_limits netuid;
  }

  module _ (A : Type 0) (get_config : A → AdapterConfig) where
    abbrev pub shown_netuids : Option (AdapterRegistry A get_config) → List ℕ
    shown_netuids none = 1 ∷ 19 ∷ 62 ∷ []
    shown_netuids (some registry) =
        map (λ info. info.config.netuid) (list_all A get_config registry)

    abbrev overview_of :
        Option (AdapterRegistry A get_config)
        → Option (Subnets M)
        → ℕ
        → String
        → Table
        → Option Organization
        → Result OverviewResponse
    overview_of registry manager now org_id keys none =
        err (authentication_error "Organization not found")
    overview_of registry manager now org_id keys (some org) = ok (record {
      email = org.email;
      tier = "free";
      api_key_count = active_count org_id keys;
      first_api_key_prefix = first_active_prefix org_id keys;
      subnets = map (subnet_overview manager now) (shown_netuids registry);
    })

    unfoldable pub get_overview :
        Option (AdapterRegistry A get_config)
        → Option (Subnets M)
        → ℕ
        → String
        → Organizations
        → Table
        → Result OverviewResponse
    get_overview registry manager now org_id orgs keys =
        overview_of registry manager now org_id keys (get_org_by_id org_id orgs)

-- `start_date or …`
abbrev pub or_date : ℕ → Option ℕ → ℕ
or_date d none = d
or_date d (some date) = date

-- `{q.netuid: q for q in quotas}`, from what is there.
abbrev pub quota_map : List SubnetQuota → Dict ℕ SubnetQuota → Dict ℕ SubnetQuota
quota_map [] found = found
quota_map (q ∷ quotas) found = quota_map quotas (insert q.netuid q found)

pub record DashboardUsageResponse : Type 0 where
  pub start_date : ℕ
  pub end_date : ℕ
  pub granularity : String
  pub subnets : List (SubnetUsage × Option SubnetQuota)

abbrev with_quota : Dict ℕ SubnetQuota → SubnetUsage → SubnetUsage × Option SubnetQuota
with_quota quotas u = (u, lookup u.netuid quotas)

module _ (isoformat : ℕ → String) (percentile : ℕ → List ℕ → ℕ) (month_start : ℕ → ℕ) where
  unfoldable pub get_dashboard_usage :
      ℕ → ℕ → Option String → Option ℕ → Option ℕ → String → Store → DashboardUsageResponse
  get_dashboard_usage org_id today subnet start_date end_date granularity s =
      let effective_start = or_date (today - 30) start_date in
      let effective_end = or_date today end_date in
      let subnets =
        get_usage_summaries isoformat percentile org_id effective_start effective_end today
          granularity subnet s in
      let quotas = quota_map (get_quota_status month_start org_id today s) [] in
      record {
        start_date = effective_start;
        end_date = effective_end;
        granularity = granularity;
        subnets = map (with_quota quotas) subnets;
      }
