-- ===== src/Policy/Change.antt =====
-- The methods of policy/policy.go that read or rewrite the policy file. What the file system answers
-- and the parser of the file (go-flags) are parameters. The global mutex lets one method in at a time.
use peerswap.Prelude.{
  ℕ, Bool, true, false, not, List, [], ◌∷◌, ◌++◌, Option, none, some, if◌then◌else◌,
}
use peerswap.Prelude.Equality.{◌==◌, string_eq}
use peerswap.Prelude.Text.{String, codes, concat}
use peerswap.Swap.Error.{Error, Result, ok, err}
use peerswap.Policy.{Policy, contains, default_policy}
use peerswap.Policy.Text.{add_line, remove_line, matches_pubkey}

-- A failing write leaves some text.
abbrev pub Writing : Type 0
Writing = List ℕ → Option (Error × List ℕ)

-- What the file system answers in one call, and the parser, which changes a policy.
pub record Os : Type 0 where
  pub open_lines : String → Option Error
  pub scan : List ℕ → Option Error
  pub rewrite : String → Writing
  pub append : String → Writing
  pub open_policy : String → Option Error
  pub reopen : String → Option Error
  pub absolute : String → Result String
  pub make_directory : String → Option Error
  pub parse : Policy → List ℕ → Result Policy

-- The policy in memory, and the text of the file at its path.
pub record Store : Type 0 where
  pub policy : Policy
  pub file : List ℕ

pub data Outcome : Type 0 where
  done : Store → Outcome
  failed : Error → Store → Outcome

abbrev pub Change : Type 0
Change = Store → Outcome

infixl 5 ◌>>◌
abbrev pub and_then : Outcome → Change → Outcome
and_then (done s) next = next s
and_then (failed e s) next = failed e s

abbrev pub ◌>>◌ : Change → Change → Change
(first >> second) s = and_then (first s) second

abbrev pub must : Option Error → Change
must none s = done s
must (some e) s = failed e s

abbrev pub need : Bool → Error → Change
need b e = if b then done else failed e

-- What a write leaves: the new text, or what a failure left.
abbrev pub written : Option (Error × List ℕ) → List ℕ → Change
written none text s = done (record s { file = text })
written (some (e, left)) text s = failed e (record s { file = left })

pub no_policy_file : Error
no_policy_file = Error.message "no policy file given"

unfoldable pub add_line_to_file : Os → List ℕ → Change
unfolding add_line
add_line_to_file os line s =
    written (os.append s.policy.path (line ++ b'\n' ∷ [])) (add_line line s.file) s

unfoldable pub remove_line_from_file : Os → List ℕ → Change
unfolding remove_line
remove_line_from_file os line s =
    (must (os.open_lines s.policy.path)
        >> must (os.scan s.file)
        >> written (os.rewrite s.policy.path (remove_line line s.file)) (remove_line line s.file))
      s

abbrev pub loaded : Result Policy → Change
loaded (err e) s = failed e s
loaded (ok p) s = done (record s { policy = p })

-- `reload`: the policy is replaced by what the parser makes of the default one.
unfoldable pub reload : Os → Change
reload os s = loaded (os.parse default_policy s.file) s

abbrev pub set_path : String → Change
set_path path s = done (record s { policy = record (s.policy) { path = path } })

-- `ReloadFile`: the new policy has no path until the end.
unfoldable pub reload_file : Os → Change
unfolding reload no_policy_file
reload_file os s =
    let path = s.policy.path in
    (need (not (path == "")) no_policy_file
        >> must (os.open_policy path)
        >> reload os
        >> must (os.reopen path)
        >> set_path path)
      s

unfoldable pub is_valid_pubkey : String → Change
unfolding matches_pubkey
is_valid_pubkey pubkey =
    need (matches_pubkey (codes pubkey))
      (Error.message (concat (pubkey ∷ " is not a valid public key" ∷ [])))

abbrev pub allowlisted : String → List ℕ
allowlisted pubkey = codes "allowlisted_peers=" ++ codes pubkey

abbrev pub suspicious : String → List ℕ
suspicious pubkey = codes "suspicious_peers=" ++ codes pubkey

abbrev pub allow_line : Bool → List ℕ
allow_line true = codes "allow_new_swaps=true"
allow_line false = codes "allow_new_swaps=false"

unfoldable pub disable_swaps : Os → Change
unfolding remove_line_from_file add_line_to_file reload_file
disable_swaps os s =
    if not s.policy.allow_new_swaps
    then done s
    else (remove_line_from_file os (allow_line true)
          >> add_line_to_file os (allow_line false)
          >> reload_file os)
        s

unfoldable pub enable_swaps : Os → Change
unfolding remove_line_from_file add_line_to_file reload_file
enable_swaps os s =
    if s.policy.allow_new_swaps
    then done s
    else (remove_line_from_file os (allow_line false)
          >> add_line_to_file os (allow_line true)
          >> reload_file os)
        s

unfoldable pub add_to_allowlist : Os → String → Change
unfolding add_line_to_file reload_file is_valid_pubkey no_policy_file contains
add_to_allowlist os pubkey s =
    (need (not (contains s.policy.peer_allowlist pubkey))
          (Error.message "peer is already whitelisted")
        >> need (not (s.policy.path == "")) no_policy_file
        >> is_valid_pubkey pubkey
        >> add_line_to_file os (allowlisted pubkey)
        >> reload_file os)
      s

unfoldable pub add_to_suspicious_peer_list : Os → String → Change
unfolding add_line_to_file reload_file is_valid_pubkey no_policy_file contains
add_to_suspicious_peer_list os pubkey s =
    (need (not (contains s.policy.suspicious_peer_list pubkey))
          (Error.message "peer is already marked as suspicious")
        >> need (not (s.policy.path == "")) no_policy_file
        >> is_valid_pubkey pubkey
        >> add_line_to_file os (suspicious pubkey)
        >> reload_file os)
      s

unfoldable pub remove_from_allowlist : Os → String → Change
unfolding remove_line_from_file reload_file is_valid_pubkey no_policy_file contains
remove_from_allowlist os pubkey s =
    (is_valid_pubkey pubkey
        >> need (contains s.policy.peer_allowlist pubkey)
            (Error.message (concat ("peer " ∷ pubkey ∷ " is not in allowlist" ∷ [])))
        >> need (not (s.policy.path == "")) no_policy_file
        >> remove_line_from_file os (allowlisted pubkey)
        >> reload_file os)
      s

unfoldable pub remove_from_suspicious_peer_list : Os → String → Change
unfolding remove_line_from_file reload_file is_valid_pubkey no_policy_file contains
remove_from_suspicious_peer_list os pubkey s =
    (is_valid_pubkey pubkey
        >> need (contains s.policy.suspicious_peer_list pubkey)
            (Error.message (concat ("peer " ∷ pubkey ∷ " is not in suspicious peer list" ∷ [])))
        >> need (not (s.policy.path == "")) no_policy_file
        >> remove_line_from_file os (suspicious pubkey)
        >> reload_file os)
      s

-- `CreateFromFile`: the file is the text at the path, empty if there was none.
abbrev from_file : Os → String → Change
from_file os path =
    must (os.make_directory path)
    >> must (os.open_policy path)
    >> reload os
    >> must (os.reopen path)
    >> set_path path

unfoldable pub create_from_file : Os → String → List ℕ → Outcome
unfolding reload
create_from_file os path text =
    let start : Store = record { policy = default_policy; file = text } in
    if path == "" then done start else elim (os.absolute path) [
      | err e ↦ failed e start
      | ok absolute_path ↦ from_file os absolute_path start
    ]
