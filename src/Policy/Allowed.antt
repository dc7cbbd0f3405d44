-- ===== src/Policy/Allowed.antt =====
-- What `AddToAllowlist` of policy/policy.go brings about.
use peerswap.Prelude.{
  ℕ, ◌≡◌, ◌≢◌, refl, sym, ap, subst, ◌∙◌, Bool, true, false, not, ◌&&◌, List, [], ◌∷◌, ◌++◌, Option,
  none, some, inl, inr, arith, All, all, both_right, length, length-append,
}
use peerswap.Prelude.Text.{String, codes}
use peerswap.Prelude.Equality.{◌==◌, nat_eq, string_eq}
use peerswap.Swap.Error.{Error, Result, ok, err}
use peerswap.Policy.{Policy, default_policy, contains}
use peerswap.Policy.Text.{add_line, split, scan_lines, matches_pubkey, is_lower_hex}
use peerswap.Policy.Text.Lines.{IsPlain, scan_lines-add_line}
use peerswap.Policy.Change.{
  Os, Store, Outcome, done, failed, Change, and_then, must, need, written, loaded, no_policy_file,
  add_line_to_file, reload, reload_file, is_valid_pubkey, add_to_allowlist, allowlisted,
}
use peerswap.Policy.Current.{allow, run, IsCurrent, run-IsCurrent}

-- What holds if a step is done.
abbrev AtEnd : (Store → Type 0) → Outcome → Type 0
AtEnd P (done t) = P t
AtEnd P (failed e t) = Unit

record Always (P : Store → Type 0) (o : Outcome) : Type 0 where
  holds : AtEnd P o

and_then-Always :
    (P Q : Store → Type 0) (o : Outcome) (next : Change)
    → Always P o
    → ((t : Store) → P t → Always Q (next t))
    → Always Q (and_then o next)
and_then-Always P Q (done t) next h g = g t h.holds
and_then-Always P Q (failed e t) next h g = record { holds = tt }

map-Always :
    (P Q : Store → Type 0) (o : Outcome) → ((t : Store) → P t → Q t) → Always P o → Always Q o
map-Always P Q (done t) f h = record { holds = f t h.holds }
map-Always P Q (failed e t) f h = record { holds = tt }

need-Always :
    (P : Store → Type 0) (b : Bool) (e : Error) (t : Store)
    → (b ≡ true → P t)
    → Always P (need b e t)
need-Always P true e t h = record { holds = h refl }
need-Always P false e t h = record { holds = tt }

must-Always : (P : Store → Type 0) (o : Option Error) (t : Store) → P t → Always P (must o t)
must-Always P none t h = record { holds = h }
must-Always P (some e) t h = record { holds = tt }

written-Always :
    (P : Store → Type 0) (o : Option (Error × List ℕ)) (text : List ℕ) (t : Store)
    → P (record t { file = text })
    → Always P (written o text t)
written-Always P none text t h = record { holds = h }
written-Always P (some (e, left)) text t h = record { holds = tt }

loaded-Always :
    (text : List ℕ) (r : Result Policy) (t : Store)
    → t.file ≡ text
    → Always (λ u. u.file ≡ text) (loaded r t)
loaded-Always text (ok p) t h = record { holds = h }
loaded-Always text (err e) t h = record { holds = tt }

-- Reading the file does not change it.
reload_file-Always :
    (os : Os) (text : List ℕ) (s : Store)
    → s.file ≡ text
    → Always (λ u. u.file ≡ text) (reload_file os s)
unfolding reload_file reload
reload_file-Always os text s h =
    let same : Store → Type 0 = λ u. u.file ≡ text in
    and_then-Always same same _ _
      (and_then-Always same same _ _
        (and_then-Always same same _ _
          (and_then-Always same same _ _ (need-Always same _ _ s (λ _. h))
            (λ u g. must-Always same (os.open_policy s.policy.path) u g))
          (λ u g. loaded-Always text (os.parse default_policy u.file) u g))
        (λ u g. must-Always same (os.reopen s.policy.path) u g))
      (λ u g. record { holds = g })

-- A key that is added is a key, and its line stands at the end of the file.
record IsAdded (pubkey : String) (s t : Store) : Type 0 where
  valid : matches_pubkey (codes pubkey) ≡ true
  file_is : t.file ≡ add_line (allowlisted pubkey) s.file

add_to_allowlist-Always :
    (os : Os) (pubkey : String) (s : Store)
    → Always (IsAdded pubkey s) (add_to_allowlist os pubkey s)
unfolding add_to_allowlist is_valid_pubkey add_line_to_file
add_to_allowlist-Always os pubkey s =
    let same : Store → Type 0 = λ u. u ≡ s in
    let valid : Store → Type 0 = λ u. (u ≡ s) × (matches_pubkey (codes pubkey) ≡ true) in
    let has_path = not (s.policy.path == "") in
    and_then-Always (IsAdded pubkey s) (IsAdded pubkey s) _ _
      (and_then-Always valid (IsAdded pubkey s) _ _
        (and_then-Always same valid _ (is_valid_pubkey pubkey)
          (and_then-Always same same _ (need has_path no_policy_file)
            (need-Always same (not (contains s.policy.peer_allowlist pubkey)) _ s (λ _. refl))
            (λ u g. need-Always same has_path _ u (λ _. g)))
          (λ u g. need-Always valid (matches_pubkey (codes pubkey)) _ u (λ v. (g, v))))
        (λ u g.
          written-Always (IsAdded pubkey s)
            (os.append u.policy.path (allowlisted pubkey ++ b'\n' ∷ [])) _ u
            (record {
              valid = g.1;
              file_is = ap (λ (x : Store). add_line (allowlisted pubkey) x.file) g.0;
            })))
      (λ u g.
        map-Always (λ x. x.file ≡ add_line (allowlisted pubkey) s.file) (IsAdded pubkey s) _
          (λ x is. record { valid = g.valid; file_is = is })
          (reload_file-Always os (add_line (allowlisted pubkey) s.file) u g.file_is))

-- No digit of a key ends a line.
hex-IsPlain : (text : List ℕ) → is_lower_hex text ≡ true → All IsPlain text
hex-IsPlain [] h = tt
hex-IsPlain (c ∷ cs) h = ((ground arith, ground arith), hex-IsPlain cs (ground arith))

plain : ℕ → Bool
plain c = not (c == b'\n') && not (c == b'\r')

plain-IsPlain : (text : List ℕ) → all plain text ≡ true → All IsPlain text
unfolding plain
plain-IsPlain [] h = tt
plain-IsPlain (c ∷ cs) h = ((ground arith, ground arith), plain-IsPlain cs (ground arith))

append-IsPlain :
    (text more : List ℕ) → All IsPlain text → All IsPlain more → All IsPlain (text ++ more)
append-IsPlain [] more h g = g
append-IsPlain (c ∷ cs) more (p, h) g = (p, append-IsPlain cs more h g)

allowlisted-IsPlain :
    (pubkey : String) → matches_pubkey (codes pubkey) ≡ true → All IsPlain (allowlisted pubkey)
unfolding matches_pubkey plain
allowlisted-IsPlain pubkey h =
    append-IsPlain (codes "allowlisted_peers=") (codes pubkey)
      (plain-IsPlain (codes "allowlisted_peers=") refl)
      (hex-IsPlain (codes pubkey) (both_right _ _ h))

longer : (line text : List ℕ) → text ≢ add_line line text
unfolding add_line
longer line text h =
    let more = length-append text (line ++ b'\n' ∷ []) in
    let one = length-append line (b'\n' ∷ []) in let same = ap length h in omega arith

-- When a peer was added to the allowlist without an error, the lines of the file are the ones of before
-- and after them the line of the peer, if the file was empty or ended with a line end; and the policy in
-- memory is what the parser makes of the new file, with the path of before.
pub add_to_allowlist-appends :
    (os : Os) (pubkey : String) (s t : Store)
    → (split s.file).1 ≡ []
    → add_to_allowlist os pubkey s ≡ done t
    → (scan_lines t.file ≡ scan_lines s.file ++ allowlisted pubkey ∷ []) × IsCurrent os s t
unfolding run
add_to_allowlist-appends os pubkey s t ends h =
    let added : IsAdded pubkey s t =
      subst (AtEnd (IsAdded pubkey s)) h (add_to_allowlist-Always os pubkey s).holds in
    let last : scan_lines t.file ≡ scan_lines s.file ++ allowlisted pubkey ∷ [] =
      ap scan_lines added.file_is
      ∙ scan_lines-add_line (allowlisted pubkey) s.file (allowlisted-IsPlain pubkey added.valid)
          ends in
    elim (run-IsCurrent (allow pubkey) os s t h) [
      | inl same ↦
          elim (longer (allowlisted pubkey) s.file
            (ap (λ (x : Store). x.file) (sym same) ∙ added.file_is)) [ ]
      | inr current ↦ (last, current)
    ]
