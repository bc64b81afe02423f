-- ===== src/System/Fingerprints.antt =====
-- accounts/handlers/scheduler_node_created.go and accounts/server/password_auth.go together: the
-- fingerprint that a node authenticates with.

use scalemate.Prelude.{
  ℕ, ◌≡◌, ◌≢◌, ◌↔◌, ◌∙◌, refl, sym, true, List, [], ◌∷◌, arith, inl, inr, Bool-cases, same_text,
  same_text→eq, same_bytes, same_bytes→eq,
}
use scalemate.World.{AccountNode, History, Env, ok, select_account_node}
use scalemate.Accounts.Users.{node_look_up}
use scalemate.Accounts.Server.{
  PasswordAuthRequest, username_of, node_name_of, fingerprint_of, check_node,
}
use scalemate.System.Nodes.{IsStored, KeepsNodes}

same_bytes_refl : (bs : List ℕ) → same_bytes bs bs ≡ true
same_bytes_refl [] = refl
same_bytes_refl (b ∷ bs) = ground (arith, same_bytes_refl bs)

-- A node that was stored passes the check of its name and fingerprint with the fingerprint that was
-- stored, and with no other one; if it has a name and the database keeps the nodes that were stored.
pub check_node-stored :
    (env : Env) (a : AccountNode) (r : PasswordAuthRequest) (h : History)
    → KeepsNodes env
    → IsStored env a h
    → username_of r ≡ a.username
    → node_name_of r ≡ a.name
    → a.name ≢ ""
    → ((check_node env r h).0 ≡ ok tt) ↔ (fingerprint_of r ≡ a.fingerprint)
unfolding check_node node_look_up
check_node-stored env a r h keeps is user name named =
    let found : env.get_account_node (select_account_node (username_of r) (node_name_of r)) h
        ≡ ok a =
      rw (user, name) (keeps a h is) in
    elim (Bool-cases (same_text (node_name_of r) "")) [
      | inl p ↦ absurd (named (sym name ∙ same_text→eq (node_name_of r) "" p))
      | inr p ↦ elim (Bool-cases (same_bytes a.fingerprint (fingerprint_of r))) [
        | inl q ↦ (
          (λ e. sym (same_bytes→eq a.fingerprint (fingerprint_of r) q)),
          λ e. ground (arith, found, p, q),
        )
        | inr q ↦ (
          (λ e. absurd (ground (arith, e, found, p, q))),
          λ e.
              let same : same_bytes a.fingerprint (fingerprint_of r) ≡ true =
                rw e (same_bytes_refl a.fingerprint) in
              absurd (ground (arith, same, q)),
        )
      ]
    ]
