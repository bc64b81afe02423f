-- ===== src/World.antt =====
-- What a service runs in: Go's error values, the calls that it makes to the database, to the
-- message broker, to the clock and to the generator of UUIDs, and code that makes such calls.
-- The systems behind the calls are no code of the repository: an `Env` answers each call, as it
-- likes, knowing all the calls made before. The queries are data that hold what the source puts
-- into their text and arguments.
use Prim.Native.String.{String}
use scalemate.Prelude.{
  false, ℕ, suc, Bool, List, [], ◌∷◌, Option, none, some, ◌≡◌, refl, ◌⊎◌, inl, inr,
}
use scalemate.Proto.{User, UserLookupRequest, Container, Node, Event}

-- The codes of google.golang.org/grpc/codes.
pub data Code : Type 0 where
  ok_code canceled unknown_code invalid_argument deadline_exceeded not_found already_exists : Code
  permission_denied resource_exhausted failed_precondition aborted out_of_range unimplemented : Code
  internal unavailable data_loss unauthenticated : Code

-- An error, by the calls that made it: `status.Error`, `errors.New` or `errors.Errorf`,
-- `errors.Wrap`, `errors.WithStack`. `no_rows` is `sql.ErrNoRows`; `foreign` is any other error of
-- a library, with its text.
pub data Err : Type 0 where
  status : Code → String → Err
  fundamental : String → Err
  wrap : Err → String → Err
  with_stack : Err → Err
  no_rows : Err
  foreign : String → Err

-- A value or an error: the two results of a Go function of which one is nil.
pub data Result {ℓ} (A : Type ℓ) : Type ℓ where
  ok : A → Result A
  err : Err → Result A

pub Result-cases {ℓ} :
    {A : Type ℓ} (r : Result A) → ((e : Err) × (r ≡ err e)) ⊎ ((a : A) × (r ≡ ok a))
Result-cases (ok a) = inr (a, refl)
Result-cases (err e) = inl (e, refl)

-- A value in an SQL statement.
pub data Value : Type 0 where
  text : String → Value
  number : ℕ → Value
  bytes : List ℕ → Value

-- The users of the accounts database, with the columns that are no fields of the message.
pub record UserRow : Type 0 where
  pub user : User
  pub password_hash : List ℕ

-- The nodes of the accounts database.
pub record AccountNode : Type 0 where
  pub id : ℕ
  pub username : String
  pub name : String
  pub fingerprint : List ℕ

-- What `ListContainers` filters by.
pub record Filter : Type 0 where
  pub username : String
  pub statuses : List ℕ

pub data Query : Type 0 where
  select_user : UserLookupRequest → Query
  insert_user : List (String × Value) → Query
  update_password : List ℕ → ℕ → Query
  select_account_node : String → String → Query
  insert_account_node : AccountNode → Query
  select_container : ℕ → Bool → Query
  insert_container : List (String × Value) → Query
  update_container : List (String × Value) → ℕ → Query
  select_container_labels : ℕ → Query
  insert_container_label : ℕ → String → Query
  count_containers : Filter → Query
  list_containers : Filter → ℕ → ℕ → String → Query
  select_node : ℕ → Bool → Query
  insert_node : List (String × Value) → Query
  select_node_labels : ℕ → Query
  insert_node_label : ℕ → String → Query
  insert_processed_event : String → List ℕ → Query
  count_processed_events : String → List ℕ → Query

pub data Call : Type 0 where
  begin commit rollback : Call
  query : Query → Call
  send : List Event → Call
  new_uuid now : Call

-- The calls made so far, the last one first.
abbrev pub History : Type 0
History = List Call

pub record Env : Type 0 where
  pub on_begin : History → Option Err
  pub on_commit : History → Option Err
  pub on_rollback : History → Option Err
  pub on_send : List Event → History → Option Err
  pub exec : Query → History → Option Err
  pub get_user : Query → History → Result UserRow
  pub get_account_node : Query → History → Result AccountNode
  pub get_container : Query → History → Result Container
  pub get_node : Query → History → Result Node
  pub get_labels : Query → History → Result (List (Result String))  -- each row as it is scanned
  pub get_count : Query → History → Result ℕ
  pub get_containers : Query → History → Result (List Container)
  pub error_text : Err → String  -- `err.Error()`
  pub uuid : History → List ℕ
  pub time : History → ℕ

-- Code that makes calls: from the history before to its result and the history after.
abbrev pub Io {ℓ} : Type ℓ → Type ℓ
Io A = History → A × History

abbrev pub Action {ℓ} : Type ℓ → Type ℓ
Action A = Io (Result A)

abbrev pub next {ℓ κ} :
    {A : Type ℓ} {B : Type κ} → Result A × History → (A → Action B) → Result B × History
next (ok a, h) f = f a h
next (err e, h) f = (err e, h)

infixl 5 ◌>>=◌ ◌>>◌
-- Go on with the value; an error is returned.
abbrev pub ◌>>=◌ {ℓ κ} : {A : Type ℓ} {B : Type κ} → Action A → (A → Action B) → Action B
◌>>=◌ m f h = next (m h) f

abbrev pub ◌>>◌ {ℓ κ} : {A : Type ℓ} {B : Type κ} → Action A → Action B → Action B
m >> k = m >>= λ _. k

abbrev pub return {ℓ} : {A : Type ℓ} → A → Action A
return a h = (ok a, h)

abbrev pub fail {ℓ} : {A : Type ℓ} → Err → Action A
fail e h = (err e, h)

abbrev pub lift {ℓ} : {A : Type ℓ} → Result A → Action A
lift r h = (r, h)

-- A call whose only result is an error.
abbrev pub of_option : Option Err → Result (Unit {0})
of_option none = ok tt
of_option (some e) = err e

-- `if e != nil { return nil, e }`, for an error that a function without calls returns.
abbrev pub guard : Option Err → Action (Unit {0})
guard e = lift (of_option e)

-- To split on the run of an action and keep the equation.
pub run-cases {ℓ} :
    {A : Type ℓ} (m : Result A × History)
    → ((e : Err) × (h : History) × (m ≡ (err e, h))) ⊎ ((a : A) × (h : History) × (m ≡ (ok a, h)))
run-cases (ok a, h) = inr (a, h, refl)
run-cases (err e, h) = inl (e, h, refl)

-- One call: its answer depends on the calls before it.
abbrev pub perform {ℓ} : {A : Type ℓ} → Call → (History → Result A) → Action A
perform call answer h = (answer h, call ∷ h)

abbrev pub perform_plain {ℓ} : {A : Type ℓ} → Call → (History → A) → Action A
perform_plain call answer h = (ok (answer h), call ∷ h)

abbrev pub attempt : Call → (History → Option Err) → Action (Unit {0})
attempt call answer h = (of_option (answer h), call ∷ h)

abbrev pub recover {ℓ} : {A : Type ℓ} → Result A × History → (Err → Action A) → Result A × History
recover (ok a, h) f = (ok a, h)
recover (err e, h) f = f e h

-- `if err := m; err != nil { … }`, where the branch returns.
infixl 6 ◌catch◌
abbrev pub ◌catch◌ {ℓ} : {A : Type ℓ} → Action A → (Err → Action A) → Action A
◌catch◌ m f h = recover (m h) f

-- `errors.Wrap(err, message)` of the error of a call.
infixl 6 ◌wrapped◌
abbrev pub ◌wrapped◌ {ℓ} : {A : Type ℓ} → Action A → String → Action A
m wrapped message = m catch λ e. fail (wrap e message)

-- The transactions that are begun and those that are ended, by a commit or a rollback.
abbrev pub begun : History → ℕ
begun [] = 0
begun (begin ∷ h) = suc (begun h)
begun (_ ∷ h) = begun h

abbrev pub ended : History → ℕ
ended [] = 0
ended (commit ∷ h) = suc (ended h)
ended (rollback ∷ h) = suc (ended h)
ended (_ ∷ h) = ended h

-- `errors.Cause` of github.com/pkg/errors and `status.FromError` of grpc, of which the source needs
-- that a wrapped error keeps its cause and that a status keeps its code.
pub record ErrorLib : Type 0 where
  pub cause : Err → Err
  pub code_of : Err → Option Code
  pub cause-wrap : (e : Err) (message : String) → cause (wrap e message) ≡ cause e
  pub cause-with_stack : (e : Err) → cause (with_stack e) ≡ cause e
  pub cause-status : (c : Code) (message : String) → cause (status c message) ≡ status c message
  pub code_of-status : (c : Code) (message : String) → code_of (status c message) ≡ some c

-- The code is there and has the property.
abbrev pub has_code : (Code → Bool) → Option Code → Bool
has_code p none = false
has_code p (some c) = p c
