-- ===== src/Agent/Interceptors.antt =====
-- The interceptors of cmd/mandau-agent/main.go and their order in `Serve`. A handler takes the
-- identity in its context and the state of the world, and returns, fails with a status, or panics.
-- `log` is the effect of an audit plugin on the world.
use mandau.Base.{
  ℕ, String, Option, none, some, List, [], ◌∷◌, if◌then◌else◌, Result, ok, err, ◌>>=◌, ◌<>◌,
}
use mandau.Plugin.{Identity, Resource, AuthRequest, PolicyRequest, PolicyDecision, AuditEntry}
use mandau.Plugin.Registry.{Registry, audit_all}

pub record Certificate : Type 0 where
  pub common_name : String
  pub raw : List ℕ

-- What the context tells of the caller: the verified chains of its certificate, if it is over TLS.
pub data Peer : Type 0 where
  no_peer no_tls : Peer
  over_tls : List (List Certificate) → Peer

pub data Code : Type 0 where
  unauthenticated permission_denied internal not_found unknown : Code

pub data Outcome (R : Type 0) : Type 0 where
  returns : R → Outcome R
  fails : Code → String → Outcome R
  panics : Outcome R

-- What `Evaluate` gives: a decision, or an error with or without a decision beside it.
pub data Answer : Type 0 where
  decides : PolicyDecision → Answer
  errs : Option PolicyDecision → String → Answer

abbrev pub identity_of : Certificate → Identity
identity_of cert = record {
  user_id = cert.common_name;
  device_id = cert.common_name;
  roles = [];
  attributes = [];
  certificate = cert.raw;
}

unfoldable pub extract_identity : Peer → Result Identity
extract_identity no_peer = err "no peer info"
extract_identity no_tls = err "no TLS info"
extract_identity (over_tls []) = err "no verified certificate"
extract_identity (over_tls ([] ∷ chains)) = err "no verified certificate"
extract_identity (over_tls ((cert ∷ chain) ∷ chains)) = ok (identity_of cert)

abbrev pub auth_request : Identity → String → AuthRequest
auth_request identity method = record { identity = identity; method = method; token = "" }

abbrev unknown_resource : Resource
unknown_resource = record { resource_type = "unknown"; identifier = ""; labels = [] }

abbrev pub policy_request : Identity → String → PolicyRequest
policy_request identity method = record {
  identity = identity;
  action = record { method = method; action = ""; resource = "" };
  resource = unknown_resource;
  context = [];
}

-- The first authentication plugin, and the first policy plugin, if there is one; the method of the
-- call, when it comes in and how long it takes.
pub record Setting : Type 0 where
  pub auth : Option (AuthRequest → Result Identity)
  pub policy : Option (PolicyRequest → Answer)
  pub agent_id : String
  pub method : String
  pub start : ℕ
  pub duration : ℕ

abbrev pub audit_entry : Setting → Option Identity → String → AuditEntry
audit_entry s identity result = record {
  timestamp = s.start;
  agent_id = s.agent_id;
  identity = identity;
  action = s.method;
  resource = "";
  result = result;
  duration = s.duration;
  metadata = [];
  transcript_hash = "";
}

-- The caller's identity after the certificate and the authentication plugin.
abbrev pub checked_by :
    Option (AuthRequest → Result Identity) → Setting → Identity → Result Identity
checked_by none s identity = ok identity
checked_by (some authenticate) s identity = authenticate (auth_request identity s.method)

unfoldable pub identify : Setting → Peer → Result Identity
unfolding extract_identity
identify s peer = extract_identity peer >>= checked_by s.auth s

abbrev pub denied : {R : Type 0} → String → Outcome R
denied reason = fails permission_denied ("access denied: " <> reason)

abbrev pub Handler : Type 0 → Type 0 → Type 0
Handler W R = Identity → W → W × Outcome R

module _ {W R : Type 0} where
  abbrev pub recovered : W × Outcome R → W × Outcome R
  recovered (w, panics) = (w, fails internal "internal error")
  recovered (w, returns r) = (w, returns r)
  recovered (w, fails c e) = (w, fails c e)

  unfoldable pub recovery : Handler W R → Handler W R
  recovery handler identity w = recovered (handler identity w)

  -- With an error and no decision, `decision.Reason` is read through a nil pointer.
  abbrev pub answered : Answer → Handler W R → Handler W R
  answered (decides d) handler identity w =
      if d.allowed then handler identity w else (w, denied d.reason)
  answered (errs none e) handler identity w = (w, panics)
  answered (errs (some d) e) handler identity w = (w, denied d.reason)

  abbrev pub under_policy : Option (PolicyRequest → Answer) → Setting → Handler W R → Handler W R
  under_policy none s handler identity w = handler identity w
  under_policy (some evaluate) s handler identity w =
      answered (evaluate (policy_request identity s.method)) handler identity w

  abbrev authenticated : Result Identity → Handler W R → W → W × Outcome R
  authenticated (err e) handler w = (w, fails unauthenticated "authentication failed")
  authenticated (ok identity) handler w = handler identity w

module _ {P W R : Type 0} (log : P → AuditEntry → W → W) (registry : Registry P) where
  -- A panic passes through it: the entry is not logged then.
  abbrev pub logged : Setting → Identity → W × Outcome R → W × Outcome R
  logged s identity (w, returns r) =
      (audit_all log registry (audit_entry s (some identity) "success") w, returns r)
  logged s identity (w, fails c e) =
      (audit_all log registry (audit_entry s (some identity) "error") w, fails c e)
  logged s identity (w, panics) = (w, panics)

  unfoldable pub audited : Setting → Handler W R → Handler W R
  audited s handler identity w = logged s identity (handler identity w)

  -- The chain for unary calls: authentication, audit, policy, recovery, handler.
  unfoldable pub unary : Setting → Peer → Handler W R → W → W × Outcome R
  unfolding identify recovery audited
  unary s peer handler w =
      authenticated (identify s peer) (audited s (under_policy s.policy s (recovery handler))) w

  -- The chain for streams: authentication, audit, recovery, handler.
  unfoldable pub streaming : Setting → Peer → Handler W R → W → W × Outcome R
  unfolding identify recovery audited
  streaming s peer handler w = authenticated (identify s peer) (audited s (recovery handler)) w
