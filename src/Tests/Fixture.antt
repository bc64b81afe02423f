-- ===== src/Tests/Fixture.antt =====
-- The outside world of the tests: a database with one user, one node and one container, a broker and
-- a clock that never fail, and a library for tokens that knows two.
use Prim.Native.String.{String}
use scalemate.Prelude.{
  ℕ, suc, ◌+◌, ◌≡◌, refl, sym, ap, subst, ◌∙◌, Bool, true, false, ◌&&◌, List, [], ◌∷◌, none,
  if◌then◌else◌, ◌==◌, arith, same_text, same_bytes, same_text→eq, same_bytes→eq,
}
use scalemate.Proto.{
  Container, ContainerStatus, new, declined, pending, cancelled, scheduled, running, stopped,
  failed,
}
use scalemate.World.{
  fundamental, foreign, Result, ok, err, UserRow, AccountNode, Query, update_container,
  list_containers, number, Env, insert_account_node,
}
use scalemate.Shared.Auth.{Claims, TokenType, access, refresh, Jwt}
use scalemate.Accounts.Users.{Bcrypt}
use scalemate.Scheduler.Nodes.{NodeMasks, zero_node}
use scalemate.Scheduler.Container.{Masks, zero_container}

abbrev pub status_of : ℕ → ContainerStatus
status_of n =
    if n == 0
    then new
    else if n == 1
    then declined
    else if n == 2
    then pending
    else if n == 3
    then cancelled
    else if n == 4
    then scheduled
    else if n == 5
    then running
    else if n == 6
    then stopped
    else failed

-- An UPDATE of the status answers with the row that it stores, any other query with a container.
abbrev pub answer_container : Query → Container
answer_container (update_container ((column, number n) ∷ []) id) = record zero_container {
  id = id;
  status = status_of n;
}
answer_container _ = record zero_container { id = 7; status = pending }

-- A list of containers has one, unless none are wanted.
abbrev pub answer_containers : Query → List Container
answer_containers (list_containers filter (suc limit) offset order) =
    record zero_container { id = 7; status = pending } ∷ []
answer_containers _ = []

abbrev pub ann : UserRow
ann = record {
  user = record {
    id = 1;
    username = "ann";
    email = "ann@example.com";
    banned = false;
    created_at = 0;
    updated_at = none;
    password_changed_at = none;
  };
  password_hash = 1 ∷ [];
}

abbrev pub ann_node : AccountNode
ann_node = record { id = 3; username = "ann"; name = "box"; fingerprint = 5 ∷ [] }

abbrev pub answer_node : Query → Result AccountNode
answer_node (insert_account_node n) = err (foreign "duplicate key")
answer_node _ = ok ann_node

abbrev pub test_env : Env
test_env = record {
  on_begin = λ h. none;
  on_commit = λ h. none;
  on_rollback = λ h. none;
  on_send = λ es h. none;
  exec = λ q h. none;
  get_user = λ q h. ok ann;
  get_account_node = λ q h. answer_node q;
  get_container = λ q h. ok (answer_container q);
  get_node = λ q h. ok (record zero_node { id = 4 });
  get_labels = λ q h. ok [];
  get_count = λ q h. ok 1;
  get_containers = λ q h. ok (answer_containers q);
  error_text = λ e. "duplicate";
  uuid = λ h. 9 ∷ [];
  time = λ h. 100;
}

abbrev pub masks : Masks
masks = record { mask_from_paths = λ paths. none; struct_to_struct = λ paths c d. ok d }

-- Every hash is the same, and every password compares with it.
abbrev pub bcrypt : Bcrypt
bcrypt = record {
  default_cost = 10;
  generate = λ password cost. ok (1 ∷ []);
  compare = λ hash password. none;
  compare-generate = λ password cost hash eq. refl;
}

abbrev pub claims_of : ℕ → TokenType → Claims
claims_of ttl token_type = record {
  expires_at = 100 + ttl;
  id = 9 ∷ [];
  issued_at = 100;
  username = "ann";
  node_name = "";
  token_type = token_type;
}

abbrev same_type : TokenType → TokenType → Bool
same_type access access = true
same_type refresh refresh = true
same_type _ _ = false

same_type→eq : (s t : TokenType) → same_type s t ≡ true → s ≡ t
same_type→eq access access h = refl
same_type→eq refresh refresh h = refl
same_type→eq access refresh h = absurd cc
same_type→eq refresh access h = absurd cc

abbrev same_claims : Claims → Claims → Bool
same_claims c d =
    c.expires_at == d.expires_at
    && same_bytes c.id d.id
    && c.issued_at == d.issued_at
    && same_text c.username d.username
    && same_text c.node_name d.node_name
    && same_type c.token_type d.token_type

same_claims→eq : (c d : Claims) → same_claims c d ≡ true → c ≡ d
same_claims→eq c d h = ground (
  arith,
  h,
  same_bytes→eq c.id d.id,
  same_text→eq c.username d.username,
  same_text→eq c.node_name d.node_name,
  same_type→eq c.token_type d.token_type,
)

abbrev sign_known : Claims → Result String
sign_known c =
    if same_claims c (claims_of 10 access)
    then ok "access"
    else if same_claims c (claims_of 20 refresh)
    then ok "refresh"
    else err (fundamental "unknown claims")

abbrev parse_known : String → Result Claims
parse_known token =
    if same_text token "access"
    then ok (claims_of 10 access)
    else if same_text token "refresh"
    then ok (claims_of 20 refresh)
    else err (fundamental "unknown token")

ok-injective : {s t : String} → Path (Result String) (ok s) (ok t) → s ≡ t
ok-injective eq = cc

parse-sign_found :
    (c d : Claims) {known token : String}
    → same_claims c d ≡ true
    → Path (Result String) (ok known) (ok token)
    → parse_known known ≡ ok d
    → parse_known token ≡ ok c
parse-sign_found c d same eq parsed =
    subst (λ t. parse_known t ≡ ok c) (ok-injective eq)
      (parsed ∙ ap (λ (x : Claims). ok x) (sym (same_claims→eq c d same)))

pub parse-sign_known :
    (c : Claims) {token : String} → sign_known c ≡ ok token → parse_known token ≡ ok c
parse-sign_known c {token} eq =
    go (same_claims c (claims_of 10 access)) (same_claims c (claims_of 20 refresh)) refl refl eq
  where
    go :
        (a r : Bool)
        → same_claims c (claims_of 10 access) ≡ a
        → same_claims c (claims_of 20 refresh) ≡ r
        → (if a
            then ok "access"
            else if r
            then ok "refresh"
            else err (fundamental "unknown claims"))
          ≡ ok token
        → parse_known token ≡ ok c
    go true r p q signed = parse-sign_found c (claims_of 10 access) p signed refl
    go false true p q signed = parse-sign_found c (claims_of 20 refresh) q signed refl
    go false false p q signed = absurd cc

abbrev pub jwt : Jwt
jwt = record {
  sign = λ c key. sign_known c;
  parse = λ token key time. parse_known token;
  parse_unverified = parse_known;
  valid = λ c time. false;
  parse-sign = λ c key time eq issued unexpired. parse-sign_known c eq;
}

abbrev pub node_masks : NodeMasks
node_masks = record { mask_from_paths = λ paths. none; struct_to_struct = λ paths n d. ok d }
