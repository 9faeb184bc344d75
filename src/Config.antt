-- ===== src/Config.antt =====
-- app/config.py: the settings that the modelled handlers read. An optional text that is
-- empty counts as absent wherever it is read.
use automated_workflow.Prelude.{ℕ, Bool, String, Option, List}

pub record Settings : Type 0 where
  pub product_quality_threshold : ℕ
  pub job_lease_seconds : ℕ
  pub job_max_attempts : ℕ
  pub job_retry_base_seconds : ℕ
  pub runner_offline_seconds : ℕ
  pub runner_min_version : String
  pub runner_recommended_version : String
  pub runner_release_manifest_url : Option String
  pub runner_release_public_key : Option String
  pub runner_token : Option String
  pub auth_enabled : Bool
  pub auth_session_hours : ℕ
  pub mock_llm : Bool
  pub registration_enabled : Bool
  pub email_code_secret : Option String
  pub email_code_ttl_seconds : ℕ
  pub email_code_cooldown_seconds : ℕ
  pub email_code_max_attempts : ℕ
  pub email_code_ip_window_seconds : ℕ
  pub email_code_ip_max_requests : ℕ
  -- The result of `route_errors()`.
  pub route_errors : List String
