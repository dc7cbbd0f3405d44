-- ===== src/Tests/Policies.antt =====
-- The theorems on the policy file, on concrete files.
use peerswap.Prelude.{
  ℕ, ◌≡◌, ◌⊎◌, refl, sym, ap, arith, arith, Bool, true, false, List, [], ◌∷◌, ◌++◌, none, some,
  if◌then◌else◌,
}
use peerswap.Prelude.Equality.{◌==◌, list_eq}
use peerswap.Prelude.Text.{String, codes}
use peerswap.Swap.Error.{Error, Result, ok, err}
use peerswap.Policy.{Policy, default_policy, contains}
use peerswap.Policy.Text.{drop_cr, split, scan_lines, add_line, remove_line}
use peerswap.Policy.Text.Lines.{Omits, scan_lines-remove_line}
use peerswap.Policy.Change.{Os, Store, add_to_allowlist, disable_swaps, allowlisted}
use peerswap.Policy.Current.{disable, run, IsCurrent, LosesPath, run-IsCurrent, run-failed}
use peerswap.Policy.Allowed.{add_to_allowlist-appends}

abbrev key : String
key = "02aaaaaaaaaaaaaaaaaaaaaaaaaaaaaaaaaaaaaaaaaaaaaaaaaaaaaaaaaaaaaaaa"

abbrev has_line : List ℕ → List (List ℕ) → Bool
has_line line [] = false
has_line line (l ∷ ls) = let rest = has_line line ls in if l == line then true else rest

-- A parser that knows two lines: one peer, and the switch for new swaps.
abbrev parse_two : Policy → List ℕ → Policy
parse_two p text =
    let lines = scan_lines text in
    record p {
      peer_allowlist =
          if has_line (allowlisted key) lines then key ∷ p.peer_allowlist else p.peer_allowlist;
      allow_new_swaps =
          if has_line (codes "allow_new_swaps=false") lines then false else p.allow_new_swaps;
    }

abbrev os : Os
os = record {
  open_lines = λ p. none;
  scan = λ text. none;
  rewrite = λ p text. none;
  append = λ p text. none;
  open_policy = λ p. none;
  reopen = λ p. none;
  absolute = λ p. ok p;
  make_directory = λ p. none;
  parse = λ p text. ok (parse_two p text);
}

-- The same, where the file cannot be opened a second time.
abbrev closed_os : Os
closed_os = record os { reopen = λ p. some (Error.message "too many open files") }

abbrev stored : Store
stored = record {
  policy = record default_policy { path = "policy.conf" };
  file = codes "accept_all_peers=false\n";
}

-- A file whose last line has no end takes the new line into that one.
glued : scan_lines (add_line (codes "b=2") (codes "a=1")) ≡ codes "a=1b=2" ∷ []
unfolding scan_lines add_line drop_cr
glued = refl

scan_lines-remove_line_example :
    Omits
      (codes "b")
      (scan_lines (codes "a\nb\nc\n"))
      (scan_lines (remove_line (codes "b") (codes "a\nb\nc\n")))
scan_lines-remove_line_example =
    scan_lines-remove_line (codes "b") (codes "a\nb\nc\n") (ground arith)

abbrev disabled : Store
disabled = record {
  policy = record (stored.policy) { allow_new_swaps = false };
  file = codes "accept_all_peers=false\nallow_new_swaps=false\n";
}

run-IsCurrent_example : (disabled ≡ stored) ⊎ IsCurrent os stored disabled
unfolding run disable_swaps drop_cr
run-IsCurrent_example = run-IsCurrent disable os stored disabled refl

abbrev lost : Store
lost = record disabled { policy = record (disabled.policy) { path = "" } }

abbrev path_of : Result Policy → String
path_of (ok p) = p.path
path_of (err e) = ""

run-failed_example :
    (lost.policy ≡ stored.policy)
    ⊎ (LosesPath closed_os (Error.message "too many open files") stored lost
        × (lost.policy.path ≡ ""))
unfolding run disable_swaps drop_cr
run-failed_example =
    run-failed disable closed_os stored lost (Error.message "too many open files")
      (λ text p h. sym (ap path_of h)) refl

abbrev allowed : Store
allowed = record {
  policy = record (stored.policy) { peer_allowlist = key ∷ [] };
  file = codes "accept_all_peers=false\n" ++ (allowlisted key ++ codes "\n");
}

add_to_allowlist-appends_example :
    (scan_lines allowed.file ≡ scan_lines stored.file ++ allowlisted key ∷ [])
    × IsCurrent os stored allowed
unfolding add_to_allowlist split drop_cr scan_lines contains
add_to_allowlist-appends_example = add_to_allowlist-appends os key stored allowed refl refl
