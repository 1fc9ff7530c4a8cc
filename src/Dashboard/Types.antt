-- ===== src/Dashboard/Types.antt =====
-- dashboard/src/types/index.ts: the shapes that the management API exchanges. An optional field
-- `x?` is an `Option`; `none` is `undefined`. Integers that the server counts are ℕ, a port is ℤ
-- (the form's `parseInt` may give a negative one), and a number with a fraction has the type `Float`
-- that the record takes as its parameter. `unknown` is a type parameter too.
use go_php.Prelude.{ℕ, String, List, Option, Bool}
use go_php.Prelude.Int.{ℤ}

-- 'active' | 'stopped' | 'error'
pub data SiteStatus : Type 0 where
  active stopped error : SiteStatus

pub record Site : Type 0 where
  pub id : String
  pub name : String
  pub port : ℤ
  pub webroot : String
  pub domain : String
  pub php_version : String
  pub status : SiteStatus
  pub routes : ℕ
  pub ssl : Bool
  pub created_at : String
  pub updated_at : String
  pub extensions : Option (List String)
  pub profile : Option String

pub record SiteCreateRequest : Type 0 where
  pub name : String
  pub port : ℤ
  pub webroot : String
  pub php_version : String

pub record ExtensionInfo : Type 0 where
  pub name : String
  pub type : String
  pub description : String
  pub version : String

pub record ExtensionProfile : Type 0 where
  pub name : String
  pub description : String
  pub extensions : List String

pub record SiteExtensions : Type 0 where
  pub site_id : String
  pub extensions : List String
  pub profile : String

pub record Runtime : Type 0 where
  pub version : String
  pub binary : String
  pub status : String
  pub active : Bool
  pub managed : Bool

pub record GatewayStatus : Type 0 where
  pub status : String
  pub uptime : String
  pub uptime_seconds : ℕ
  pub version : String
  pub pid : ℕ
  pub addr : String
  pub doc_root : String
  pub framework : String
  pub goroutines : ℕ
  pub active_requests : ℕ
  pub total_requests : ℕ
  pub total_errors : ℕ
  pub sites_count : ℕ
  pub runtimes : List String

pub record SystemInfo (Float : Type 0) : Type 0 where
  pub hostname : String
  pub os : String
  pub arch : String
  pub go_version : String
  pub goroutines : ℕ
  pub mem_alloc_mb : Float
  pub mem_sys_mb : Float
  pub num_cpu : ℕ
  pub pid : ℕ

pub record LogEntry (Unknown : Type 0) : Type 0 where
  pub timestamp : String
  pub level : String
  pub message : String
  pub extra : Option Unknown

pub record ServerSection : Type 0 where
  pub addr : String
  pub read_timeout : String
  pub write_timeout : String

pub record PhpSection : Type 0 where
  pub binary : String
  pub socket_path : String
  pub max_children : ℤ
  pub request_timeout : String

pub record LoggingSection : Type 0 where
  pub format : String
  pub level : String

pub record SecuritySection : Type 0 where
  pub symlink_mode : String
  pub max_body_size : String
  pub protected_patterns : List String

pub record ConfigRoute : Type 0 where
  pub host : Option String
  pub path : Option String
  pub path_prefix : Option String
  pub target : Option String
  pub type : Option String

pub record GatewayConfig : Type 0 where
  pub schema : String
  pub server : ServerSection
  pub php : PhpSection
  pub logging : LoggingSection
  pub security : SecuritySection
  pub routes : Option (List ConfigRoute)
  pub sites : List Site

-- 'created' | 'active' | 'draining' | 'stopped' | 'failed'
pub data ReleaseState : Type 0 where
  created active draining stopped failed : ReleaseState

pub record Release : Type 0 where
  pub id : String
  pub version : String
  pub runtime_id : String
  pub state : ReleaseState
  pub created_at : String
  pub activated_at : Option String
  pub deactivated_at : Option String
  pub dir : String
  pub metadata : Option (List (String × String))

-- 'ok' | 'warn' | 'fail'
pub data CheckStatus : Type 0 where
  ok warn fail : CheckStatus

pub record CheckResult : Type 0 where
  pub name : String
  pub status : CheckStatus
  pub message : String

pub record DoctorReport : Type 0 where
  pub checks : List CheckResult
  pub os : String
  pub arch : String
  pub go_version : String
  pub hostname : String

-- 'error' | 'warning' | 'info'
pub data Severity : Type 0 where
  error warning info : Severity

pub record CompatIssue : Type 0 where
  pub category : String
  pub severity : Severity
  pub file : Option String
  pub message : String
  pub suggestion : Option String

pub record CompatReport : Type 0 where
  pub root : String
  pub scanned_at : String
  pub framework : Option String
  pub php_version : Option String
  pub issues : Option (List CompatIssue)
  pub warnings : Option (List CompatIssue)
  pub info : Option (List String)
  pub score : ℕ

pub record RequestTrace : Type 0 where
  pub method : String
  pub host : String
  pub path : String
  pub query : String
  pub headers : List (String × String)
  pub tls : Bool
  pub remote : String

pub record PathNormalization : Type 0 where
  pub raw : String
  pub decoded : String
  pub normalized : String
  pub valid : Bool

pub record PolicyCheck : Type 0 where
  pub decision : String
  pub matched_rules : Option (List String)

pub record RouteMatch : Type 0 where
  pub matched : Bool
  pub target : Option String

pub record FileCheck : Type 0 where
  pub found : Bool
  pub is_php : Bool
  pub protected : Bool
  pub error : Option String

pub record ScriptCheck : Type 0 where
  pub found : Bool
  pub script_name : String
  pub script_path : String

pub record Explanation : Type 0 where
  pub request : RequestTrace
  pub path_normalization : PathNormalization
  pub policy_check : PolicyCheck
  pub route_match : RouteMatch
  pub file_check : FileCheck
  pub script_check : ScriptCheck
  pub summary : String
  pub duration : String

pub record MetricPoint (Float : Type 0) : Type 0 where
  pub timestamp : String
  pub requests : ℕ
  pub errors : ℕ
  pub latency_ms : Float
