-- ===== src/System/Session.antt =====
-- accounts/models/user.go, client/scheduler/controllers.go and scheduler/server/auth.go together: the
-- tokens that the accounts service makes, in the requests of the client, at the scheduler.
pub mod Refresh
use Prim.Native.String.{String, ◌++◌}
use scalemate.Prelude.{
  ℕ, ◌+◌, ◌≤◌, ◌<◌, ◌≡◌, ◌≢◌, ◌∙◌, ap, ◌⊎◌, refl, Bool, true, false, List, [], ◌∷◌, Option, none,
  some, arith, inl, inr,
}
use scalemate.Proto.{AuthTokens}
use scalemate.World.{Env, History, Err, Result, Result-cases, ok, err, now, new_uuid}
use scalemate.Shared.Credentials.{get_request_metadata}
use scalemate.Shared.Auth.{
  Jwt, Claims, access, refresh, has_claims, no_claims, signed_string, inject_claims,
  new_claims_from_string_verified, ContextClaims,
}
use scalemate.Accounts.Users.{generate_auth_tokens, new_claims}
use scalemate.Accounts.Sessions.{generate_auth_tokens-sign}
use scalemate.World.{UserRow}
use scalemate.Client.Requests.{
  SchedulerCall, ask_create_job, ask_get_job, ask_cancel_job, ask_get_task, ask_cancel_task,
  ask_get_node, ask_list_jobs, ask_list_tasks, ask_iterate_tasks, ask_list_nodes,
  ask_list_cpu_models, ask_list_gpu_models, ask_list_disk_models, ask_list_memory_models, Sent,
  SchedulerClient,
}
use scalemate.Client.Requests.Own.{
  SchedulerCommand, run_command, run_command-Sends, Sends, sends_nothing, sends_one, as_user,
  as_nobody, IsOwn, is_public, user_of, NamesOwner,
}
use scalemate.Scheduler.Handlers.{in_list}
use scalemate.Scheduler.Requests.{auth_func_override}

-- The method of a call, with the name that gRPC gives it.
abbrev pub method_of : SchedulerCall → String
method_of (ask_create_job _) = "/scheduler.scheduler_proto.Scheduler/CreateJob"
method_of (ask_get_job _) = "/scheduler.scheduler_proto.Scheduler/GetJob"
method_of (ask_cancel_job _) = "/scheduler.scheduler_proto.Scheduler/CancelJob"
method_of (ask_get_task _) = "/scheduler.scheduler_proto.Scheduler/GetTask"
method_of (ask_cancel_task _) = "/scheduler.scheduler_proto.Scheduler/CancelTask"
method_of (ask_get_node _) = "/scheduler.scheduler_proto.Scheduler/GetNode"
method_of (ask_list_jobs _) = "/scheduler.scheduler_proto.Scheduler/ListJobs"
method_of (ask_list_tasks _) = "/scheduler.scheduler_proto.Scheduler/ListTasks"
method_of (ask_iterate_tasks _ _) = "/scheduler.scheduler_proto.Scheduler/IterateTasks"
method_of (ask_list_nodes _) = "/scheduler.scheduler_proto.Scheduler/ListNodes"
method_of (ask_list_cpu_models _) = "/scheduler.scheduler_proto.Scheduler/ListCpuModels"
method_of (ask_list_gpu_models _) = "/scheduler.scheduler_proto.Scheduler/ListGpuModels"
method_of (ask_list_disk_models _) = "/scheduler.scheduler_proto.Scheduler/ListDiskModels"
method_of ask_list_memory_models = "/scheduler.scheduler_proto.Scheduler/ListMemoryModels"

-- The override injects claims for the calls that are not public.
auth_func_override-private :
    (call : SchedulerCall) (c : ContextClaims)
    → is_public call ≡ false
    → auth_func_override no_claims (ok c) (method_of call) ≡ ok c
unfolding auth_func_override in_list
auth_func_override-private (ask_create_job j) c p = refl
auth_func_override-private (ask_get_job id) c p = refl
auth_func_override-private (ask_cancel_job id) c p = refl
auth_func_override-private (ask_get_task id) c p = refl
auth_func_override-private (ask_cancel_task id) c p = refl
auth_func_override-private (ask_list_jobs q) c p = refl
auth_func_override-private (ask_list_tasks q) c p = refl
auth_func_override-private (ask_iterate_tasks id b) c p = refl
auth_func_override-private _ c p = absurd cc

auth_func_override-public :
    (call : SchedulerCall) (r : Result ContextClaims)
    → is_public call ≡ true
    → auth_func_override no_claims r (method_of call) ≡ ok no_claims
unfolding auth_func_override in_list
auth_func_override-public (ask_get_node id) r p = refl
auth_func_override-public (ask_list_nodes q) r p = refl
auth_func_override-public (ask_list_cpu_models k) r p = refl
auth_func_override-public (ask_list_gpu_models k) r p = refl
auth_func_override-public (ask_list_disk_models k) r p = refl
auth_func_override-public ask_list_memory_models r p = refl
auth_func_override-public _ r p = absurd cc

-- What jwt-go and the middleware are documented to do: a signed token is read with no key to the claims
-- that were signed, claims are valid until they expire, and a bearer token is what follows the scheme.
pub record ReadsTokens (jwt : Jwt) (from_header : String → Result String) : Type 0 where
  pub reads :
      (c : Claims) (key : List ℕ) (token : String)
      → jwt.sign c key ≡ ok token
      → jwt.parse_unverified token ≡ ok c
  pub is_valid :
      (c : Claims) (time : ℕ) → c.issued_at ≤ time → time < c.expires_at → jwt.valid c time ≡ true
  pub bearer : (token : String) → from_header ("Bearer " ++ token) ≡ ok token

module _ (env : Env) (jwt : Jwt) (key : List ℕ) (time : ℕ) where
  verified_claims :
      (token : String) (c : Claims)
      → jwt.parse token key time ≡ ok c
      → inject_claims jwt env.error_text key time (ok token) ≡ ok (has_claims c)
  unfolding inject_claims new_claims_from_string_verified
  verified_claims token c parsed = ground (arith, parsed)

module _ (env : Env) (jwt : Jwt) (from_header : String → Result String) (key : List ℕ) (time : ℕ)
    (token_auth_answer : String → Result AuthTokens) (save_answer : AuthTokens → Option Err) where
  -- The client with these tokens in its file.
  abbrev pub client_with : {A : Type 0} → AuthTokens → (Sent → Result A) → SchedulerClient A
  client_with tokens service = record {
    on_load = ok tokens;
    parse_token = jwt.parse_unverified;
    service = service;
  }

  -- The header of a call with credentials.
  abbrev header_of : AuthTokens → Result String
  header_of t = (get_request_metadata jwt time token_auth_answer save_answer t).answer

  -- A call whose credentials fail is not sent.
  abbrev context_with : Result String → String → Result ContextClaims
  context_with (err e) method = err e
  context_with (ok header) method =
      auth_func_override no_claims (inject_claims jwt env.error_text key time (from_header header))
        method

  -- The context in which the scheduler handles a call: with the header of its credentials, or none.
  abbrev pub context_of : Err → Option AuthTokens → String → Result ContextClaims
  context_of missing none method =
      auth_func_override no_claims (inject_claims jwt env.error_text key time (err missing)) method
  context_of missing (some t) method = context_with (header_of t) method

  -- The user whom a call names, if any, is the one of the claims.
  abbrev pub NamesUser : String → Option String → Type 0
  NamesUser username none = Unit
  NamesUser username (some named) = named ≡ username

  -- The scheduler handles the call with the claims of the user, or with none if it is public.
  pub data Arrives (missing : Err) (username : String) (s : Sent) : Type 0 where
    with_claims :
        (c : Claims)
        → context_of missing s.tokens (method_of s.call) ≡ ok (has_claims c)
        → c.username ≡ username
        → NamesUser username (user_of s.call)
        → Arrives missing username s
    public_call :
        is_public s.call ≡ true
        → context_of missing s.tokens (method_of s.call) ≡ ok no_claims
        → Arrives missing username s

  valid_header :
      (t : AuthTokens) (c : Claims)
      → jwt.parse_unverified t.access_token ≡ ok c
      → jwt.valid c time ≡ true
      → header_of t ≡ ok ("Bearer " ++ t.access_token)
  unfolding get_request_metadata
  valid_header t c read valid = ground (arith, read, valid)

  -- With an access token of the claims that is valid, a call is handled with these claims.
  signed_context :
      (missing : Err) (t : AuthTokens) (c : Claims) (call : SchedulerCall)
      → ReadsTokens jwt from_header
      → jwt.sign c key ≡ ok t.access_token
      → c.issued_at ≤ time
      → time < c.expires_at
      → is_public call ≡ false
      → context_of missing (some t) (method_of call) ≡ ok (has_claims c)
  signed_context missing t c call go signed from_then before private =
      let read = go.reads c key t.access_token signed in
      let valid = go.is_valid c time from_then before in
      let parsed = jwt.parse-sign c key time signed from_then before in
      let header = valid_header t c read valid in
      rw
        (header, go.bearer t.access_token, verified_claims env jwt key time t.access_token c parsed)
        (auth_func_override-private call (has_claims c) private)

  NamesOwner-NamesUser :
      {A : Type 0} (client : SchedulerClient A) (t : AuthTokens) (c : Claims)
      (named : Option String)
      → client.parse_token t.access_token ≡ ok c
      → NamesOwner client t named
      → NamesUser c.username named
  NamesOwner-NamesUser client t c none read names = tt
  NamesOwner-NamesUser client t c (some name) read (claims, parsed, e) =
      ground (arith, read, parsed, e)

  module _ {A : Type 0} (tokens : AuthTokens) (service : Sent → Result A) (missing : Err)
      (c : Claims) (go : ReadsTokens jwt from_header)
      (signed : jwt.sign c key ≡ ok tokens.access_token) (from_then : c.issued_at ≤ time)
      (before : time < c.expires_at) where
    IsOwn-Arrives : (s : Sent) → IsOwn (client_with tokens service) s → Arrives missing c.username s
    IsOwn-Arrives s (as_user t is load private names) =
        let mine : t ≡ tokens = ground (arith, load) in
        let held : s.tokens ≡ some tokens = is ∙ ap some mine in
        with_claims c
          (rw held (signed_context missing tokens c s.call go signed from_then before private)) refl
          (NamesOwner-NamesUser (client_with tokens service) tokens c (user_of s.call)
            (go.reads c key tokens.access_token signed) (rw mine at names))
    IsOwn-Arrives s (as_nobody is public nobody) =
        public_call public (rw is (auth_func_override-public s.call _ public))

    Sends-Arrives :
        (run : Result A × List Sent) (answer : Result A) (s : Sent)
        → Sends (client_with tokens service) run
        → run ≡ (answer, s ∷ [])
        → Arrives missing c.username s
    Sends-Arrives run answer s (sends_nothing e eq) sent = absurd (ground (arith, eq, sent))
    Sends-Arrives run answer s (sends_one s' eq own) sent =
        let same : s' ≡ s = ground (arith, eq, sent) in rw same at (IsOwn-Arrives s' own)

  -- Each call of the client arrives with the identity of its user. Let the accounts service have made
  -- tokens for a user, and the client have saved them; as long as the access token has not expired, each
  -- call that a command sends is handled by the scheduler with the claims of this user, and names no
  -- other user, or is one that everybody may make. The tokens are read and sent as documented.
  pub run_command-Arrives :
      {A : Type 0} (u : UserRow) (ttl_access ttl_refresh : ℕ) (node_name : String) (h h' : History)
      (tokens : AuthTokens) (service : Sent → Result A) (missing : Err) (command : SchedulerCommand)
      (answer : Result A) (s : Sent)
      → ReadsTokens jwt from_header
      → generate_auth_tokens env jwt u ttl_access ttl_refresh key node_name h ≡ (ok tokens, h')
      → env.time h ≤ time
      → time < env.time h + ttl_access
      → run_command (client_with tokens service) command ≡ (answer, s ∷ [])
      → Arrives missing u.user.username s
  run_command-Arrives u ttl_access ttl_refresh node_name h h' tokens service missing command answer
        s go made from_then before sent =
      let c =
        new_claims (env.time h) ttl_access (env.uuid (now ∷ h)) u.user.username node_name access in
      Sends-Arrives tokens service missing c go
        (generate_auth_tokens-sign env jwt u ttl_access ttl_refresh key node_name h h' tokens made)
        from_then before (run_command (client_with tokens service) command) answer s
        (run_command-Sends (client_with tokens service) command) sent
