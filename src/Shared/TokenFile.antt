-- ===== src/Shared/TokenFile.antt =====
-- shared/auth/tokens.go: the file with the tokens of the client. The file system is a state that the
-- operations change; protobuf's serialisation is an argument.
use Prim.Native.String.{String, ◌++◌}
use scalemate.Prelude.{
  ℕ, ◌≡◌, refl, List, Option, none, some, if◌then◌else◌, same_text, eq→same_text, arith,
  Option-cases, inl, inr,
}
use scalemate.Proto.{AuthTokens}
use scalemate.World.{Err, wrap, foreign, Result, Result-cases, ok, err}

-- Protobuf: what is serialised is parsed again.
pub record Serial : Type 0 where
  pub marshal : AuthTokens → Result (List ℕ)
  pub unmarshal : List ℕ → Result AuthTokens
  pub unmarshal-marshal : (t : AuthTokens) (bs : List ℕ) → marshal t ≡ ok bs → unmarshal bs ≡ ok t

-- A directory that is looked for: it is there, it is not, or there is an error.
pub data Found : Type 0 where
  exists missing : Found
  fails : Err → Found

-- The file system of the process: `os.UserCacheDir`, `os.TempDir`, `path.Join`, the answers on
-- directories, and the files by their paths. A write or a removal may be refused.
pub record Files : Type 0 where
  pub user_cache_dir : Result String
  pub temp_dir : String
  pub join : String → String → String
  pub stat : String → Found
  pub make_all : String → Option Err
  pub refuses_write : String → Option Err
  pub refuses_remove : String → Option Err
  pub contents : String → Option (List ℕ)

-- `getTokensDir`
unfoldable pub get_tokens_dir : Files → String
get_tokens_dir fs = elim fs.user_cache_dir [
  | ok dir ↦ fs.join dir "scalemate"
  | err e ↦ fs.join fs.temp_dir "scalemate"
]

-- `getTokensFilePath`
unfoldable pub get_tokens_file_path : Files → String → String
get_tokens_file_path fs dir = fs.join dir "auth_tokens"

abbrev pub made : String → Option Err → Result String
made dir none = ok dir
made dir (some e) = err (wrap e ("failed to create a directory " ++ dir))

abbrev pub made_if_missing : Files → String → Found → Result String
made_if_missing fs dir exists = ok dir
made_if_missing fs dir missing = made dir (fs.make_all dir)
made_if_missing fs dir (fails e) = err e

-- `getOrCreateTokensDir`
unfoldable pub get_or_create_tokens_dir : Files → Result String
get_or_create_tokens_dir fs = made_if_missing fs (get_tokens_dir fs) (fs.stat (get_tokens_dir fs))

-- `ioutil.WriteFile`
abbrev pub write_file : Files → String → List ℕ → Option Err → Option Err × Files
write_file fs path bs (some e) = (some e, fs)
write_file fs path bs none =
    (none, record fs { contents = λ p. if same_text p path then some bs else fs.contents p })

abbrev pub save_in : Files → List ℕ → Result String → Option Err × Files
save_in fs bs (err e) = (some e, fs)
save_in fs bs (ok dir) =
    write_file fs (get_tokens_file_path fs dir) bs (fs.refuses_write (get_tokens_file_path fs dir))

abbrev pub save_serialised : Files → Result (List ℕ) → Option Err × Files
save_serialised fs (err e) = (some e, fs)
save_serialised fs (ok bs) = save_in fs bs (get_or_create_tokens_dir fs)

-- `SaveTokens`
unfoldable pub save_tokens_file : Serial → Files → AuthTokens → Option Err × Files
save_tokens_file serial fs t = save_serialised fs (serial.marshal t)

abbrev pub parse_file : Serial → Option (List ℕ) → Result AuthTokens
parse_file serial none = err (foreign "no such file or directory")
parse_file serial (some bs) = serial.unmarshal bs

-- `LoadTokens`
unfoldable pub load_tokens : Serial → Files → Result AuthTokens
load_tokens serial fs =
    parse_file serial (fs.contents (get_tokens_file_path fs (get_tokens_dir fs)))

-- `os.Remove`
abbrev pub remove_file : Files → String → Option Err → Option Err × Files
remove_file fs path (some e) = (some e, fs)
remove_file fs path none =
    (none, record fs { contents = λ p. if same_text p path then none else fs.contents p })

-- `DeleteTokens`
unfoldable pub delete_tokens : Files → Option Err × Files
delete_tokens fs =
    let path = get_tokens_file_path fs (get_tokens_dir fs) in
    remove_file fs path (fs.refuses_remove path)

made_if_missing_lem :
    (fs : Files) (dir dir' : String) (f : Found) → made_if_missing fs dir f ≡ ok dir' → dir' ≡ dir
made_if_missing_lem fs dir dir' exists e = cc
made_if_missing_lem fs dir dir' missing e = ground (arith, e)
made_if_missing_lem fs dir dir' (fails x) e = absurd (cc e)

dir_lem :
    (fs : Files) (dir : String) → get_or_create_tokens_dir fs ≡ ok dir → dir ≡ get_tokens_dir fs
unfolding get_or_create_tokens_dir
dir_lem fs dir e = made_if_missing_lem fs (get_tokens_dir fs) dir (fs.stat (get_tokens_dir fs)) e

-- The file system after the bytes were written to the file of the tokens.
abbrev with_tokens : Files → List ℕ → Files
with_tokens fs bs =
    let path = get_tokens_file_path fs (get_tokens_dir fs) in
    record fs { contents = λ p. if same_text p path then some bs else fs.contents p }

with_tokens_lem :
    (serial : Serial) (fs fs' : Files) (t : AuthTokens)
    → save_tokens_file serial fs t ≡ (none, fs')
    → (bs : List ℕ) × (serial.marshal t ≡ ok bs) × (fs' ≡ with_tokens fs bs)
unfolding save_tokens_file
with_tokens_lem serial fs fs' t saved = elim (Result-cases (serial.marshal t)) [
  | inl (x, p) ↦ absurd (ground (arith, saved, p))
  | inr (bs, p) ↦ elim (Result-cases (get_or_create_tokens_dir fs)) [
    | inl (x, q) ↦ absurd (ground (arith, saved, p, q))
    | inr (dir, q) ↦
        let same : dir ≡ get_tokens_dir fs = dir_lem fs dir q in
        elim (Option-cases (fs.refuses_write (get_tokens_file_path fs dir))) [
          | inr (x, r) ↦ absurd (ground (arith, saved, p, q, r))
          | inl r ↦ (bs, p, ground (arith, saved, p, q, r, same))
        ]
  ]
]

-- Tokens that were saved without an error are the ones that are loaded next.
load_tokens-save_tokens_file :
    (serial : Serial) (fs fs' : Files) (t : AuthTokens)
    → save_tokens_file serial fs t ≡ (none, fs')
    → load_tokens serial fs' ≡ ok t
unfolding load_tokens get_tokens_dir get_tokens_file_path
load_tokens-save_tokens_file serial fs fs' t saved =
    let (bs, p, after) = with_tokens_lem serial fs fs' t saved in
    let path = get_tokens_file_path fs (get_tokens_dir fs) in
    rw (after, eq→same_text path path refl) (serial.unmarshal-marshal t bs p)
