-- ===== src/Client/Ports.antt =====
-- Which flags for ports are accepted.
use Prim.Native.String.{String}
use scalemate.Prelude.{ℕ, ◌≡◌, refl, ◌↔◌, List, [], ◌∷◌, some, Option-cases, inl, inr, arith, u32}
use scalemate.World.{ok, Result-cases}
use scalemate.Client.Numerals.{
  IsNumeral, IsPair, atoi_positive-IsNumeral, IsNumeral-atoi_positive, split-IsPair, IsPair-split,
}
use scalemate.Client.Flags.{split, two_parts, atoi_positive, parse_port, parse_ports, set_number}

-- Two texts with a colon between them and no other colon, each a decimal number, perhaps with a plus
-- sign, that is positive and below 2 ^ 63.
pub record IsPort (port_def : String) : Type 0 where
  pub local_text : String
  pub remote_text : String
  pub pair : IsPair port_def local_text remote_text
  pub local : ℕ
  pub remote : ℕ
  pub local_number : IsNumeral local_text local
  pub remote_number : IsNumeral remote_text remote

-- All the definitions are such.
abbrev pub ArePorts : List String → Type 0
ArePorts [] = Unit
ArePorts (port_def ∷ ports) = IsPort port_def × ArePorts ports

two_parts-some :
    (parts : List String) {a b : String} → two_parts parts ≡ some (a, b) → parts ≡ a ∷ b ∷ []
two_parts-some parts eq = ground (arith, eq)

parse_port-IsPort :
    (port_def : String) {l r : ℕ} → parse_port port_def ≡ ok (l, r) → IsPort port_def
unfolding parse_port
parse_port-IsPort port_def eq = elim (Option-cases (two_parts (split 58 port_def))) [
  | inl p ↦ absurd (ground (arith, eq, p))
  | inr ((a, b), p) ↦ elim (Option-cases (atoi_positive a)) [
    | inl q ↦ absurd (ground (arith, eq, p, q))
    | inr (local, q) ↦ elim (Option-cases (atoi_positive b)) [
      | inl s ↦ absurd (ground (arith, eq, p, q, s))
      | inr (remote, s) ↦ record {
        local_text = a;
        remote_text = b;
        pair = split-IsPair port_def a b (two_parts-some (split 58 port_def) p);
        local = local;
        remote = remote;
        local_number = atoi_positive-IsNumeral a local q;
        remote_number = atoi_positive-IsNumeral b remote s;
      }
    ]
  ]
]

IsPort-parse_port :
    (port_def : String) (p : IsPort port_def) → parse_port port_def ≡ ok (u32 p.local, u32 p.remote)
unfolding parse_port
IsPort-parse_port port_def p =
    let (colon, is, joined, none_before, none_after) = p.pair in
    let parts : split 58 port_def ≡ p.local_text ∷ p.remote_text ∷ [] =
      rw joined (IsPair-split colon p.local_text p.remote_text is none_before none_after) in
    let local_number = IsNumeral-atoi_positive p.local_text p.local p.local_number in
    let remote_number = IsNumeral-atoi_positive p.remote_text p.remote p.remote_number in
    ground (arith, parts, local_number, remote_number)

parse_ports-total :
    (to : List (ℕ × ℕ)) (ports : List String)
    → ArePorts ports
    → (m : List (ℕ × ℕ)) × (parse_ports to ports ≡ ok m)
unfolding parse_ports
parse_ports-total to [] all = (to, refl)
parse_ports-total to (port_def ∷ ports) all =
    let rest = parse_ports-total (set_number (u32 all.0.local) (u32 all.0.remote) to) ports all.1 in
    (rest.0, ground (arith, IsPort-parse_port port_def all.0, rest.1))

parse_ports-only :
    (to m : List (ℕ × ℕ)) (ports : List String) → parse_ports to ports ≡ ok m → ArePorts ports
unfolding parse_ports
parse_ports-only to m [] eq = tt
parse_ports-only to m (port_def ∷ ports) eq = elim (Result-cases (parse_port port_def)) [
  | inl (e, p) ↦ absurd (ground (arith, eq, p))
  | inr ((local, remote), p) ↦ (
    parse_port-IsPort port_def p,
    parse_ports-only (set_number local remote to) m ports (ground (arith, eq, p)),
  )
]

-- The flag for ports is accepted exactly when each of its definitions is two texts with a colon between
-- them and no other colon, each of them a decimal number, perhaps with a plus sign before it, that is
-- positive and below 2 ^ 63.
pub parse_ports-ArePorts :
    (ports : List String) → ((m : List (ℕ × ℕ)) × (parse_ports [] ports ≡ ok m)) ↔ ArePorts ports
parse_ports-ArePorts ports =
    ((λ (m, eq). parse_ports-only [] m ports eq), parse_ports-total [] ports)
