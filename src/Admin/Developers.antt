-- ===== src/Admin/Developers.antt =====
-- `get_developer_metrics` of gateway/services/admin_service.py, over the rows of the organizations
-- (their id, email and creation) and of the usage. `isoformat` is that of a time. Where the database
-- may choose the order of equal rows, it is that of the table.
use tao_gateway.Base.{
  ℕ, ◌-◌, ◌*◌, String, Bool, Option, none, some, List, [], ◌∷◌, map, length, keep, any, take, drop,
  leb, nat_beq, nat_eq, string_eq, pair_eq, if◌then◌else◌,
}
use tao_gateway.Base.Dict.{Dict, lookup, insert}
use tao_gateway.Base.Sorting.{sorted}
use tao_gateway.Base.Grouping.{group_by, map_values}
use tao_gateway.Usage.{UsageRecord}
use tao_gateway.Usage.Aggregation.{day_us, date_of}

pub record Developer : Type 0 where
  pub id : ℕ
  pub email : String
  pub created_at : ℕ

pub record DeveloperSummary : Type 0 where
  pub org_id : ℕ
  pub email : String
  pub signup_date : String
  pub last_active : Option String
  pub total_requests : ℕ
  pub requests_by_subnet : Dict String ℕ

pub record DeveloperMetrics : Type 0 where
  pub total_developers : ℕ
  pub new_signups_today : ℕ
  pub new_signups_this_week : ℕ
  pub weekly_active_developers : ℕ
  pub developers : List DeveloperSummary

abbrev pub signups_since : ℕ → List Developer → ℕ
signups_since start orgs = length (keep (λ (o : Developer). leb start o.created_at) orgs)

-- `count(distinct(org_id))` of the records from a time on.
abbrev pub active_since : ℕ → List UsageRecord → ℕ
active_since start records = length (
    group_by (λ (r : UsageRecord). r.org_id)
      (keep (λ (r : UsageRecord). leb start r.created_at) records))

abbrev newer : Developer → Developer → Bool
newer a b = leb b.created_at a.created_at

abbrev pub page_of : ℕ → ℕ → List Developer → List Developer
page_of limit offset orgs = take limit (drop offset (sorted newer orgs))

abbrev pub of_page : List Developer → UsageRecord → Bool
of_page page r = any (λ (o : Developer). nat_beq o.id r.org_id) page

abbrev later : ℕ → ℕ → ℕ
later a b = if leb a b then b else a

abbrev pub last_activity : List UsageRecord → ℕ
last_activity [] = 0
last_activity (r ∷ l) = later r.created_at (last_activity l)

-- The rows of the first batch: the last activity and the number of the requests.
abbrev pub usage_agg : List Developer → List UsageRecord → Dict ℕ (ℕ × ℕ)
usage_agg page records =
    map_values (λ g. (last_activity g.1, length g.1))
      (group_by (λ (r : UsageRecord). r.org_id) (keep (of_page page) records))

abbrev or_no_counts : Option (Dict String ℕ) → Dict String ℕ
or_no_counts none = []
or_no_counts (some d) = d

-- `subnet_agg.setdefault(row.org_id, {})[row.subnet_name] = row.req_count`
unfoldable pub set_counts :
    List ((ℕ × String) × List UsageRecord) → Dict ℕ (Dict String ℕ) → Dict ℕ (Dict String ℕ)
set_counts [] agg = agg
set_counts (((org_id, subnet_name), l) ∷ rows) agg =
    set_counts rows
      (insert org_id (insert subnet_name (length l) (or_no_counts (lookup org_id agg))) agg)

abbrev pub subnet_agg : List Developer → List UsageRecord → Dict ℕ (Dict String ℕ)
subnet_agg page records =
    set_counts
      (group_by (λ (r : UsageRecord). let k : ℕ × String = (r.org_id, r.subnet_name) in k)
        (keep (of_page page) records))
      []

module _ (isoformat : ℕ → String) where
  abbrev active_text : Option (ℕ × ℕ) → Option String
  active_text none = none
  active_text (some (t, n)) = some (isoformat t)

  abbrev request_count : Option (ℕ × ℕ) → ℕ
  request_count none = 0
  request_count (some (t, n)) = n

  abbrev pub developer_summary :
      Dict ℕ (ℕ × ℕ) → Dict ℕ (Dict String ℕ) → Developer → DeveloperSummary
  developer_summary usage subnets org = record {
    org_id = org.id;
    email = org.email;
    signup_date = isoformat org.created_at;
    last_active = active_text (lookup org.id usage);
    total_requests = request_count (lookup org.id usage);
    requests_by_subnet = or_no_counts (lookup org.id subnets);
  }

  unfoldable pub get_developer_metrics :
      ℕ → ℕ → ℕ → List Developer → List UsageRecord → DeveloperMetrics
  get_developer_metrics now limit offset orgs records =
      let today_start = date_of now * day_us in
      let week_ago = today_start - 7 * day_us in
      let page = page_of limit offset orgs in
      record {
        total_developers = length orgs;
        new_signups_today = signups_since today_start orgs;
        new_signups_this_week = signups_since week_ago orgs;
        weekly_active_developers = active_since week_ago records;
        developers =
            map (developer_summary (usage_agg page records) (subnet_agg page records)) page;
      }
