-- ===== src/Policy/Current.antt =====
-- The policy in memory after each method of policy/policy.go that changes its file.
use peerswap.Prelude.{
  ℕ, ◌≡◌, refl, sym, ap, subst, Bool, true, false, not, List, Option, none, some, ◌⊎◌, inl, inr,
  ◌++◌, ◌∷◌, [], if_rule,
}
use peerswap.Prelude.Text.{String}
use peerswap.Prelude.Equality.{◌==◌, string_eq}
use peerswap.Swap.Error.{Error, Result, ok, err}
use peerswap.Policy.{Policy, default_policy}
use peerswap.Policy.Change.{
  Os, Store, Outcome, done, failed, Change, and_then, must, need, written, add_line_to_file,
  remove_line_from_file, reload, reload_file, is_valid_pubkey, ◌>>◌, set_path, loaded, allow_line,
  disable_swaps, enable_swaps, add_to_allowlist, add_to_suspicious_peer_list, remove_from_allowlist,
  remove_from_suspicious_peer_list,
}
use peerswap.Policy.Text.{add_line}

-- The methods that change the policy.
pub data Method : Type 0 where
  disable enable reload_now : Method
  allow suspect disallow trust : String → Method

unfoldable pub run : Method → Os → Change
unfolding disable_swaps enable_swaps add_to_allowlist add_to_suspicious_peer_list
    remove_from_allowlist remove_from_suspicious_peer_list reload_file
run disable os = disable_swaps os
run enable os = enable_swaps os
run reload_now os = reload_file os
run (allow pubkey) os = add_to_allowlist os pubkey
run (suspect pubkey) os = add_to_suspicious_peer_list os pubkey
run (disallow pubkey) os = remove_from_allowlist os pubkey
run (trust pubkey) os = remove_from_suspicious_peer_list os pubkey

-- The policy in memory is what the parser makes of the file as it is now, with the path of before.
pub record IsCurrent (os : Os) (s t : Store) : Type 0 where
  pub parsed : Policy
  pub parsed_is : os.parse default_policy t.file ≡ ok parsed
  pub policy_is : t.policy ≡ record parsed { path = s.policy.path }

-- The policy is the new one, and its file could not be opened again.
pub record LosesPath (os : Os) (e : Error) (s t : Store) : Type 0 where
  pub not_reopened : os.reopen s.policy.path ≡ some e
  pub parsed_is : os.parse default_policy t.file ≡ ok t.policy

-- What a method leaves in memory.
abbrev Leaves : Os → Store → Outcome → Type 0
Leaves os s (done t) = (t ≡ s) ⊎ IsCurrent os s t
Leaves os s (failed e t) = (t.policy ≡ s.policy) ⊎ LosesPath os e s t

-- A step that does not touch the policy in memory.
abbrev Keeps : Store → Outcome → Type 0
Keeps s (done t) = t.policy ≡ s.policy
Keeps s (failed e t) = t.policy ≡ s.policy

module _ (os : Os) (s : Store) where
  then-Leaves :
      (o : Outcome) (next : Change)
      → Keeps s o
      → ((t : Store) → t.policy ≡ s.policy → Leaves os s (next t))
      → Leaves os s (and_then o next)
  then-Leaves (done t) next h g = g t h
  then-Leaves (failed e t) next h g = inl h

  -- The steps before the policy is read again.
  record Kept (o : Outcome) : Type 0 where
    keeps : Keeps s o

  need-Kept : (b : Bool) (e : Error) (t : Store) → t.policy ≡ s.policy → Kept (need b e t)
  need-Kept true e t h = record { keeps = h }
  need-Kept false e t h = record { keeps = h }

  must-Kept : (o : Option Error) (t : Store) → t.policy ≡ s.policy → Kept (must o t)
  must-Kept none t h = record { keeps = h }
  must-Kept (some e) t h = record { keeps = h }

  written-Kept :
      (o : Option (Error × List ℕ)) (text : List ℕ) (t : Store)
      → t.policy ≡ s.policy
      → Kept (written o text t)
  written-Kept none text t h = record { keeps = h }
  written-Kept (some (e, left)) text t h = record { keeps = h }

  then-Kept :
      (o : Outcome) (next : Change)
      → Kept o
      → ((t : Store) → t.policy ≡ s.policy → Kept (next t))
      → Kept (and_then o next)
  then-Kept (done t) next h g = g t h.keeps
  then-Kept (failed e t) next h g = record { keeps = h.keeps }

  add_line_to_file-Kept :
      (line : List ℕ) (t : Store) → t.policy ≡ s.policy → Kept (add_line_to_file os line t)
  unfolding add_line_to_file
  add_line_to_file-Kept line t h =
      written-Kept (os.append t.policy.path (line ++ b'\n' ∷ [])) (add_line line t.file) t h

  remove_line_from_file-Kept :
      (line : List ℕ) (t : Store) → t.policy ≡ s.policy → Kept (remove_line_from_file os line t)
  unfolding remove_line_from_file
  remove_line_from_file-Kept line t h = search (must-Kept, written-Kept, then-Kept)

  parsed-Leaves :
      (r : Result Policy) (o : Option Error) (t : Store)
      → os.parse default_policy t.file ≡ r
      → os.reopen s.policy.path ≡ o
      → t.policy ≡ s.policy
      → Leaves os s (and_then (and_then (loaded r t) (must o)) (set_path t.policy.path))
  parsed-Leaves (err e) o t r_is o_is h = inl h
  parsed-Leaves (ok p) none t r_is o_is h = inr (record {
    parsed = p;
    parsed_is = r_is;
    policy_is = ap (λ (q : Policy). record p { path = q.path }) h;
  })
  parsed-Leaves (ok p) (some e) t r_is o_is h =
      inr (record { not_reopened = o_is; parsed_is = r_is })

  opened-Leaves :
      (b : Bool) (o : Option Error) (e : Error) (t : Store)
      → t.policy ≡ s.policy
      → Leaves os s (
          (need b e
              >> must o
              >> reload os
              >> must (os.reopen t.policy.path)
              >> set_path t.policy.path)
            t)
  unfolding reload
  opened-Leaves false o e t h = inl h
  opened-Leaves true (some x) e t h = inl h
  opened-Leaves true none e t h =
      parsed-Leaves (os.parse default_policy t.file) (os.reopen t.policy.path) t refl
        (ap (λ (q : Policy). os.reopen q.path) (sym h)) h

  reloaded-Leaves : (t : Store) → t.policy ≡ s.policy → Leaves os s (reload_file os t)
  unfolding reload_file
  reloaded-Leaves t h =
      opened-Leaves (not (t.policy.path == "")) (os.open_policy t.policy.path) _ t h

  -- A method that ends by reading the policy again.
  rewritten : (o : Outcome) → Kept o → Leaves os s (and_then o (reload_file os))
  rewritten o h = then-Leaves o (reload_file os) h.keeps reloaded-Leaves

ruleset kept_rules = (need-Kept, add_line_to_file-Kept, remove_line_from_file-Kept, then-Kept, refl)

run-Leaves : (os : Os) (s : Store) (m : Method) → Leaves os s (run m os s)
unfolding run disable_swaps enable_swaps add_to_allowlist add_to_suspicious_peer_list
    remove_from_allowlist remove_from_suspicious_peer_list is_valid_pubkey
run-Leaves os s disable =
    if_rule (Leaves os s) (not s.policy.allow_new_swaps) _ _ (λ _. inl refl)
      (λ _.
        rewritten os s
          ((remove_line_from_file os (allow_line true) >> add_line_to_file os (allow_line false)) s)
          (search kept_rules))
run-Leaves os s enable =
    if_rule (Leaves os s) s.policy.allow_new_swaps _ _ (λ _. inl refl)
      (λ _.
        rewritten os s
          ((remove_line_from_file os (allow_line false) >> add_line_to_file os (allow_line true)) s)
          (search kept_rules))
run-Leaves os s reload_now = reloaded-Leaves os s s refl
run-Leaves os s (allow pubkey) = (search (kept_rules, rewritten))
run-Leaves os s (suspect pubkey) = (search (kept_rules, rewritten))
run-Leaves os s (disallow pubkey) = (search (kept_rules, rewritten))
run-Leaves os s (trust pubkey) = (search (kept_rules, rewritten))

-- When a method that changes the policy returns without an error, nothing has changed, or the policy
-- in memory is what the parser makes of the file as it is then, with the path of before.
pub run-IsCurrent :
    (m : Method) (os : Os) (s t : Store) → run m os s ≡ done t → (t ≡ s) ⊎ IsCurrent os s t
run-IsCurrent m os s t h = subst (Leaves os s) h (run-Leaves os s m)

-- When a method that changes the policy returns an error, the policy in memory is the one of before,
-- or it is what the parser makes of the file as it is then, that file could not be opened again, and the
-- policy has no path: if the parser leaves the path of the policy that it is given alone.
pub run-failed :
    (m : Method) (os : Os) (s t : Store) (e : Error)
    → ((text : List ℕ) (p : Policy) → os.parse default_policy text ≡ ok p → p.path ≡ "")
    → run m os s ≡ failed e t
    → (t.policy ≡ s.policy) ⊎ (LosesPath os e s t × (t.policy.path ≡ ""))
run-failed m os s t e keeps h = elim (subst (Leaves os s) h (run-Leaves os s m)) [
  | inl same ↦ inl same
  | inr lost ↦ inr (lost, keeps t.file t.policy lost.parsed_is)
]
