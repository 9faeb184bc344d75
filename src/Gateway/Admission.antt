-- ===== src/Gateway/Admission.antt =====
-- Who may start a session.
use automated_workflow.Prelude.{
  ℕ, String, Bool, true, false, not, Option, none, some, ◌≡◌, refl, ap, inl, inr, ◌⊎◌, arith,
  str_eq,
}
use automated_workflow.Prelude.Tests.{Bool-cases, if◌then◌else◌, given_text, str_eq→eq}
use automated_workflow.Prelude.Outcome.{Outcome, returned, pure, asks, ◌>>=◌}
use automated_workflow.Prelude.Steps.{Ensures, Ensures-bind, Ensures-choice, returned_both}
use automated_workflow.Prelude.Json.{get}
use automated_workflow.Protocol.{
  MessageType, MessageEnvelope, register, reconnect, register_ack, heartbeat, heartbeat_ack,
  capability, task_assign, task_accepted, task_progress, task_log, terminal_output, ai_chunk,
  file_changed, permission_request, permission_result, cancel_task, task_completed, task_failed,
  task_cancelled, ack, artifact,
}
use automated_workflow.Schema.{runner}
use automated_workflow.Storage.Messages.{record_runner_message}
use automated_workflow.Gateway.{
  Server, Gateway, GatewaySession, within, close, with_text, version_supported, text_or, send,
}
use automated_workflow.Gateway.Connect.{
  claimed, named, rejection, reject, accept, register_as, register_runner, resume_session,
  reconnect_as, reconnect_runner, first_message,
}

module _ (env : Server) (e : MessageEnvelope) where
  -- The version that the message names.
  abbrev pub version_of : String
  version_of = text_or env e.payload "version" "0.0.0"

  abbrev IsSupported : Unit {0} → Type 0
  IsSupported u = version_supported env version_of ≡ true

  closed-Ensures :
      (Q : Unit {0} → Type 0) (code : ℕ) (reason : String)
      → Ensures Q (close {A = Unit {0}} code reason)
  closed-Ensures Q code reason s s1 a x = absurd (ground (arith, x))

  rejected-Ensures :
      (Q : Unit {0} → Type 0) (version : String) → Ensures Q (reject env version e.seq)
  unfolding reject
  rejected-Ensures Q version =
      Ensures-bind Q (send env register_ack none (rejection env version e.seq))
        (λ m. close 1008 "Runner update required")
        (λ m. closed-Ensures Q 1008 "Runner update required")

  register_as-IsSupported : (r : String) → Ensures IsSupported (register_as env e r)
  unfolding register_as
  register_as-IsSupported r s s1 a x =
      let go : Gateway (Unit {0}) = do
        project_id ← asks (λ t. t.project_id)
        if version_supported env version_of
            then accept env e project_id r version_of
            else reject env version_of e.seq
      in let log =
          record_runner_message env.py_str (record e { runner_id = some r }) runner env.now in
        Ensures-bind IsSupported (within log) (λ b. go)
          (λ b.
            Ensures-bind IsSupported (asks (λ t. t.project_id))
              (λ project_id.
                if version_supported env version_of
                then accept env e project_id r version_of
                else reject env version_of e.seq)
              (λ project_id.
                Ensures-choice IsSupported (version_supported env version_of)
                  (accept env e project_id r version_of) (reject env version_of e.seq)
                  (λ v t t1 u y. v) (rejected-Ensures IsSupported version_of)))
          (named r s) s1 a x

  reconnect_as-IsSupported : (r : String) → Ensures IsSupported (reconnect_as env e r)
  unfolding reconnect_as
  reconnect_as-IsSupported r s s1 a x =
      Ensures-choice IsSupported (version_supported env version_of)
        (resume_session env e r version_of) (reject env version_of e.seq) (λ v t t1 u y. v)
        (rejected-Ensures IsSupported version_of) (named r s) s1 a x

  -- The identifier that the message claims, of which its type decides.
  abbrev pub claims : MessageType → Option String
  claims register = claimed (get e.payload "runnerId") e.runner_id
  claims _ = given_text e.runner_id

  admitted :
      (id : Option String) (m : String → Gateway (Unit {0})) (s s1 : GatewaySession)
      → ((r : String) → Ensures IsSupported (m r))
      → with_text id
          (close 1003 "runnerId is required")
          (λ r. if not (str_eq r s.expected_runner_id) then close 1008 "runnerId mismatch" else m r)
          s
        ≡ (returned tt, s1)
      → (id ≡ some s.expected_runner_id) × (version_supported env version_of ≡ true)
  admitted none m s s1 h x = absurd (ground (arith, x))
  admitted (some r) m s s1 h x = elim (Bool-cases (str_eq r s.expected_runner_id)) [
    | inl y ↦ (ap some (str_eq→eq r s.expected_runner_id y), h r s s1 tt (rw y at x))
    | inr n ↦ absurd (ground (arith, rw n at x))
  ]

  register_admitted :
      (s s1 : GatewaySession)
      → register_runner env e s ≡ (returned tt, s1)
      → (claims register ≡ some s.expected_runner_id) × (version_supported env version_of ≡ true)
  unfolding register_runner
  register_admitted s s1 x =
      admitted (claims register) (register_as env e) s s1 register_as-IsSupported x

  reconnect_admitted :
      (s s1 : GatewaySession)
      → reconnect_runner env e s ≡ (returned tt, s1)
      → (claims reconnect ≡ some s.expected_runner_id) × (version_supported env version_of ≡ true)
  unfolding reconnect_runner
  reconnect_admitted s s1 x =
      admitted (given_text e.runner_id) (reconnect_as env e) s s1 reconnect_as-IsSupported x

  refused :
      {A : Type 0} (s s1 s2 : GatewaySession)
      → ◌≡◌ {A = Outcome Bool × GatewaySession} (returned false, s) (returned true, s1)
      → A
  refused s s1 s2 x = absurd (ground (arith, x))

  abbrev IsAdmitted : MessageType → GatewaySession → Type 0
  IsAdmitted t s =
      ((t ≡ register) ⊎ (t ≡ reconnect))
      × (claims t ≡ some s.expected_runner_id)
      × (version_supported env version_of ≡ true)

  type-IsAdmitted :
      (t : MessageType) (s s1 : GatewaySession)
      → first_message env t e s ≡ (returned true, s1)
      → IsAdmitted t s
  type-IsAdmitted register s s1 x =
      let (u, s2, r, k) = returned_both (register_runner env e) (λ u. pure true) s s1 true x in
      let (i, v) = register_admitted s s2 r in (inl refl, i, v)
  type-IsAdmitted reconnect s s1 x =
      let (u, s2, r, k) = returned_both (reconnect_runner env e) (λ u. pure true) s s1 true x in
      let (i, v) = reconnect_admitted s s2 r in (inr refl, i, v)
  type-IsAdmitted register_ack s s1 x = refused _ s1 s x
  type-IsAdmitted heartbeat s s1 x = refused _ s1 s x
  type-IsAdmitted heartbeat_ack s s1 x = refused _ s1 s x
  type-IsAdmitted capability s s1 x = refused _ s1 s x
  type-IsAdmitted task_assign s s1 x = refused _ s1 s x
  type-IsAdmitted task_accepted s s1 x = refused _ s1 s x
  type-IsAdmitted task_progress s s1 x = refused _ s1 s x
  type-IsAdmitted task_log s s1 x = refused _ s1 s x
  type-IsAdmitted terminal_output s s1 x = refused _ s1 s x
  type-IsAdmitted ai_chunk s s1 x = refused _ s1 s x
  type-IsAdmitted file_changed s s1 x = refused _ s1 s x
  type-IsAdmitted permission_request s s1 x = refused _ s1 s x
  type-IsAdmitted permission_result s s1 x = refused _ s1 s x
  type-IsAdmitted cancel_task s s1 x = refused _ s1 s x
  type-IsAdmitted task_completed s s1 x = refused _ s1 s x
  type-IsAdmitted task_failed s s1 x = refused _ s1 s x
  type-IsAdmitted task_cancelled s s1 x = refused _ s1 s x
  type-IsAdmitted ack s s1 x = refused _ s1 s x
  type-IsAdmitted artifact s s1 x = refused _ s1 s x

  -- A session goes on to its loop only if its first message is a Register or a Reconnect, claims
  -- the identifier that the token of the connection was checked for, and names a version that is
  -- not older than the least one that the settings allow.
  pub first_admitted :
      (s s1 : GatewaySession)
      → first_message env e.type e s ≡ (returned true, s1)
      → ((e.type ≡ register) ⊎ (e.type ≡ reconnect))
        × (claims e.type ≡ some s.expected_runner_id)
        × (version_supported env version_of ≡ true)
  first_admitted s s1 x = type-IsAdmitted e.type s s1 x
