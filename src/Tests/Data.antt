-- ===== src/Tests/Data.antt =====
-- Rows for the tests.
use automated_workflow.Prelude.{ℕ, String, false, true, none, some, []}
use automated_workflow.Models.{TaskStatus, JobStatus}
use automated_workflow.Schema.{Db, TaskRow, JobRow, UserRow}
use automated_workflow.Config.{Settings}

abbrev pub empty_db : Db
empty_db = record {
  users = [];
  projects = [];
  tasks = [];
  events = [];
  artifacts = [];
  runners = [];
  runner_messages = [];
  project_members = [];
  sessions = [];
  email_challenges = [];
  runner_tokens = [];
  jobs = [];
  permission_requests = [];
  git_integrations = [];
}

abbrev pub task_of : String → TaskStatus → TaskRow
task_of task_id status = record {
  id = task_id;
  title = "title";
  requirement = "requirement";
  repository = "/repository";
  project_id = "default";
  runner_id = none;
  branch = "";
  model = "model";
  build_command = none;
  test_command = none;
  include_local_changes = false;
  sync_to_source = false;
  auto_apply = true;
  auto_commit = false;
  status = status;
  stage = none;
  progress = 0;
  error = none;
  cancel_requested = false;
  created_at = 1;
  updated_at = 1;
}

abbrev pub job_of : String → String → ℕ → JobRow
job_of job_id task_id created_at = record {
  id = job_id;
  task_id = task_id;
  target = "server";
  status = JobStatus.pending;
  attempts = 0;
  max_attempts = 3;
  available_at = created_at;
  lease_owner = none;
  lease_expires_at = none;
  checkpoint = none;
  last_error = none;
  created_at = created_at;
  updated_at = created_at;
}

abbrev pub user : UserRow
user = record {
  id = "u1";
  email = "a@b.c";
  display_name = "a";
  password_hash = "";
  is_admin = false;
  disabled = false;
  created_at = 1;
}

abbrev pub settings : Settings
settings = record {
  product_quality_threshold = 85;
  job_lease_seconds = 60;
  job_max_attempts = 3;
  job_retry_base_seconds = 5;
  runner_offline_seconds = 30;
  runner_min_version = "1.1.0";
  runner_recommended_version = "1.1.0";
  runner_release_manifest_url = none;
  runner_release_public_key = none;
  runner_token = some "global";
  auth_enabled = true;
  auth_session_hours = 24;
  mock_llm = true;
  registration_enabled = true;
  email_code_secret = some "secret";
  email_code_ttl_seconds = 600;
  email_code_cooldown_seconds = 60;
  email_code_max_attempts = 5;
  email_code_ip_window_seconds = 600;
  email_code_ip_max_requests = 20;
  route_errors = [];
}

-- A hash of a token, for the tests.
abbrev pub hash : String → String
hash token = token
