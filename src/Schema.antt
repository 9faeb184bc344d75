-- ===== src/Schema.antt =====
-- app/db_schema.py: the tables, one record for a row of each, with the classes of app/models.py that
-- a row is read into. A time is a number of microseconds: the program stores UTC texts of
-- one format, whose order as texts is the order in time. A flag that is stored as 0 or 1 is a Bool.
use automated_workflow.Prelude.{ℕ, Bool, String, Option, List}
use automated_workflow.Prelude.Json.{Fields}
use automated_workflow.Protocol.{MessageType, MessageEnvelope}
use automated_workflow.Models.{
  TaskStatus, JobStatus, Stage, PermissionStatus, ProjectRole, GitProvider,
}

pub record UserRow : Type 0 where
  pub id : String
  pub email : String
  pub display_name : String
  pub password_hash : String
  pub is_admin : Bool
  pub disabled : Bool
  pub created_at : ℕ

pub record ProjectRow : Type 0 where
  pub id : String
  pub name : String
  pub slug : String
  pub created_by : String
  pub created_at : ℕ

pub record TaskRow : Type 0 where
  pub id : String
  pub title : String
  pub requirement : String
  pub repository : String
  pub project_id : String
  pub runner_id : Option String
  pub branch : String
  pub model : String
  pub build_command : Option String
  pub test_command : Option String
  pub include_local_changes : Bool
  pub sync_to_source : Bool
  pub auto_apply : Bool
  pub auto_commit : Bool
  pub status : TaskStatus
  pub stage : Option Stage
  pub progress : ℕ
  pub error : Option String
  pub cancel_requested : Bool
  pub created_at : ℕ
  pub updated_at : ℕ

pub record EventRow : Type 0 where
  pub id : ℕ
  pub task_id : String
  pub stage : Option Stage
  pub level : String
  pub message : String
  pub payload : Fields
  pub created_at : ℕ

pub record ArtifactRow : Type 0 where
  pub id : ℕ
  pub task_id : String
  pub kind : String
  pub content : String
  pub created_at : ℕ

pub record RunnerRow : Type 0 where
  pub id : String
  pub project_id : String
  pub name : String
  pub platform : String
  pub version : String
  pub roots : List String
  pub capabilities : List String
  pub status : String
  pub metrics : Fields
  pub last_seen : ℕ
  pub created_at : ℕ

pub record MemberRow : Type 0 where
  pub project_id : String
  pub user_id : String
  pub role : ProjectRole
  pub created_at : ℕ

pub record SessionRow : Type 0 where
  pub token_hash : String
  pub user_id : String
  pub expires_at : ℕ
  pub created_at : ℕ
  pub revoked_at : Option ℕ

pub record ChallengeRow : Type 0 where
  pub id : String
  pub email : String
  pub request_ip : String
  pub code_hash : String
  pub attempts : ℕ
  pub max_attempts : ℕ
  pub expires_at : ℕ
  pub created_at : ℕ
  pub consumed_at : Option ℕ

pub record RunnerTokenRow : Type 0 where
  pub runner_id : String
  pub project_id : String
  pub label : String
  pub token_hash : String
  pub created_by : String
  pub created_at : ℕ
  pub revoked_at : Option ℕ

pub record JobRow : Type 0 where
  pub id : String
  pub task_id : String
  pub target : String
  pub status : JobStatus
  pub attempts : ℕ
  pub max_attempts : ℕ
  pub available_at : ℕ
  pub lease_owner : Option String
  pub lease_expires_at : Option ℕ
  pub checkpoint : Option Stage
  pub last_error : Option String
  pub created_at : ℕ
  pub updated_at : ℕ

pub record PermissionRow : Type 0 where
  pub id : String
  pub task_id : String
  pub runner_id : String
  pub operation : String
  pub reason : String
  pub status : PermissionStatus
  pub requested_at : ℕ
  pub resolved_by : Option String
  pub resolved_at : Option ℕ
  pub result_reason : Option String
  pub result_sent_at : Option ℕ

pub record GitIntegrationRow : Type 0 where
  pub project_id : String
  pub provider : GitProvider
  pub base_url : String
  pub repository : String
  pub encrypted_token : String
  pub created_by : String
  pub created_at : ℕ
  pub updated_at : ℕ

pub data Direction : Type 0 where
  runner server : Direction

pub record MessageRow : Type 0 where
  pub runner_id : String
  pub task_id : Option String
  pub direction : Direction
  pub seq : ℕ
  pub type : MessageType
  pub envelope : MessageEnvelope
  pub created_at : ℕ

-- The database: a list of rows for each table.
pub record Db : Type 0 where
  pub users : List UserRow
  pub projects : List ProjectRow
  pub tasks : List TaskRow
  pub events : List EventRow
  pub artifacts : List ArtifactRow
  pub runners : List RunnerRow
  pub runner_messages : List MessageRow
  pub project_members : List MemberRow
  pub sessions : List SessionRow
  pub email_challenges : List ChallengeRow
  pub runner_tokens : List RunnerTokenRow
  pub jobs : List JobRow
  pub permission_requests : List PermissionRow
  pub git_integrations : List GitIntegrationRow
