-- ===== src/Scheduler/LimitMessage.antt =====
-- scheduler/models/limit.go: a limit and its message. The masks are the work of fieldmask_utils.
use Prim.Native.String.{String}
use scalemate.Prelude.{
  ℕ, ◌≡◌, refl, List, [], ◌∷◌, Option, none, some, arith, inl, inr, Option-cases,
}
use scalemate.Proto.{Limit, LimitStatus}
use scalemate.World.{Err, wrap, Result, Result-cases, ok, err}

-- `MaskFromPaths`, and `StructToStruct` with the mask of these paths into a limit.
pub record LimitMasks : Type 0 where
  pub mask_from_paths : List String → Option Err
  pub struct_to_struct : List String → Limit → Limit → Result Limit

-- `NewLimitFromProto`
unfoldable pub new_limit_from_proto : Limit → Limit
new_limit_from_proto p = p

-- The message with the identifier only.
abbrev limit_with_id : ℕ → Limit
limit_with_id id = record {
  id = id;
  container_id = 0;
  cpu = 0;
  memory = 0;
  disk = 0;
  gpu = 0;
  status = LimitStatus.requested;
  status_message = "";
  created_at = 0;
  updated_at = none;
  confirmed_at = none;
}

abbrev filtered : Result Limit → Result Limit
filtered (ok l) = ok l
filtered (err e) = err (wrap e "fieldmask_utils.StructToStruct failed")

abbrev with_mask : LimitMasks → Limit → List String → Option Err → Result Limit
with_mask masks l paths (some e) = err (wrap e "fieldmask_utils.MaskFromProtoFieldMask failed")
with_mask masks l paths none = filtered (masks.struct_to_struct paths l (limit_with_id l.id))

-- `Limit.ToProto`; a nil mask is no paths.
unfoldable pub limit_to_proto : LimitMasks → Limit → List String → Result Limit
limit_to_proto masks l [] = ok l
limit_to_proto masks l (path ∷ paths) =
    with_mask masks l (path ∷ paths) (masks.mask_from_paths (path ∷ paths))

-- The message of a limit has its identifier, whatever the mask, if `StructToStruct` writes no other
-- identifier than the one of the struct that it reads.
limit_to_proto-id :
    (masks : LimitMasks) (l out : Limit) (paths : List String)
    → ((ps : List String) (to u : Limit)
        → to.id ≡ l.id
        → masks.struct_to_struct ps l to ≡ ok u
        → u.id ≡ l.id)
    → limit_to_proto masks l paths ≡ ok out
    → out.id ≡ l.id
unfolding limit_to_proto
limit_to_proto-id masks l out [] keeps e = ground (arith, e)
limit_to_proto-id masks l out (path ∷ paths) keeps e =
    elim (Option-cases (masks.mask_from_paths (path ∷ paths))) [
      | inr (x, p) ↦ absurd (ground (arith, e, p))
      | inl p ↦ elim (Result-cases (masks.struct_to_struct (path ∷ paths) l (limit_with_id l.id))) [
        | inl (x, q) ↦ absurd (ground (arith, e, p, q))
        | inr (u, q) ↦
            let same : out ≡ u = ground (arith, e, p, q) in
            rw same (keeps (path ∷ paths) (limit_with_id l.id) u refl q)
      ]
    ]
