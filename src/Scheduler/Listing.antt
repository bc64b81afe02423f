-- ===== src/Scheduler/Listing.antt =====
-- scheduler/models/container.go: the lists of containers that a request filters.
use Prim.Native.String.{String}
use scalemate.Prelude.{
  ℕ, ◌≤◌, ◌≡◌, List, [], map, leb, ◌==◌, if◌then◌else◌, arith, length, inl, inr, ◌+◌, ◌∷◌, ◌≢◌, ◌⊎◌,
  refl,
}
use scalemate.Proto.{Container, ContainerStatus}
use scalemate.World.{
  Env, Action, History, Filter, ok, query, perform, return, ◌>>=◌, count_containers, Result-cases,
  list_containers as list_query,
}
use scalemate.Shared.Utils.{handled}
use scalemate.Scheduler.Container.{status_number}

-- `ListContainersRequest.Ordering`
pub data Ordering : Type 0 where
  created_at_desc created_at_asc updated_at_desc updated_at_asc : Ordering

-- `ListContainersRequest`; the limit and the offset are uint32.
pub record ListContainersRequest : Type 0 where
  pub username : String
  pub status : List ContainerStatus
  pub ordering : Ordering
  pub limit : ℕ
  pub offset : ℕ

-- `ListContainersMaxLimit`
abbrev pub list_containers_max_limit : ℕ
list_containers_max_limit = 300

abbrev pub order_by : Ordering → String
order_by created_at_asc = "created_at"
order_by updated_at_asc = "updated_at"
order_by updated_at_desc = "updated_at DESC"
order_by created_at_desc = "created_at DESC"

-- The two WHERE clauses; no status is no second clause.
abbrev pub filter_of : ListContainersRequest → Filter
filter_of r = record { username = r.username; statuses = map status_number r.status }

abbrev pub page_limit : ℕ → ℕ
page_limit limit = if leb limit list_containers_max_limit then limit else list_containers_max_limit

-- `ListContainers`: the containers of the page and the number of all that pass the filter.
unfoldable pub list_containers : Env → ListContainersRequest → Action (List Container × ℕ)
list_containers env r = do
  let counting = count_containers (filter_of r)
  count ← handled env (perform (query counting) (env.get_count counting))
  let listing = list_query (filter_of r) (page_limit r.limit) r.offset (order_by r.ordering)
  let select = do
    containers ← handled env (perform (query listing) (env.get_containers listing))
    return (containers, count)
  if count == 0 then return ([], 0) else select

-- What PostgreSQL does with a LIMIT: it returns no more rows.
abbrev pub HonoursLimit : Env → Type 0
HonoursLimit env =
    (f : Filter) (limit offset : ℕ) (order : String) (h : History) (rows : List Container)
    → env.get_containers (list_query f limit offset order) h ≡ ok rows
    → length rows ≤ limit

no_room : (rows : List Container) (n : ℕ) → length rows ≤ n → (n ≢ 0) ⊎ (rows ≡ [])
no_room [] n h = inr refl
no_room (row ∷ rows) n h = inl (λ e. ground (arith, h, e))

module _ (env : Env) where
  -- If the database honours a LIMIT, a page that is returned has at most 300 containers and at
  -- most as many as requested, so that it is empty for the limit 0, for which the comment on the field
  -- in scheduler.proto says that a limit of 50 is used; and it takes one query when the count is zero,
  -- else two.
  pub list_containers-bounds :
      HonoursLimit env
      → (r : ListContainersRequest) (h h' : History) (page : List Container) (count : ℕ)
      → list_containers env r h ≡ (ok (page, count), h')
      → (length page ≤ 300)
        × (length page ≤ r.limit)
        × ((r.limit ≢ 0) ⊎ (page ≡ []))
        × (env.get_count (count_containers (filter_of r)) h ≡ ok count)
        × (length h' ≡ (if count == 0 then 1 else 2) + length h)
  unfolding list_containers
  list_containers-bounds honours r h h' page count eq =
      elim (Result-cases (env.get_count (count_containers (filter_of r)) h)) [
        | inl (x, uncounted) ↦ absurd (ground (arith, eq, uncounted))
        | inr (n, counted) ↦
            elim (Result-cases (
              env.get_containers
                (list_query (filter_of r) (page_limit r.limit) r.offset (order_by r.ordering))
                (query (count_containers (filter_of r)) ∷ h))) [
                  | inl (x, unlisted) ↦ ground (arith, eq, counted, unlisted, no_room page r.limit)
                  | inr (rows, listed) ↦
                      let bound =
                        honours (filter_of r) (page_limit r.limit) r.offset (order_by r.ordering) _
                          rows listed in
                      ground (arith, eq, counted, listed, bound, no_room page r.limit)
                ]
      ]
