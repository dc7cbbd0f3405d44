-- ===== src/Version/Upgrade.antt =====
-- When the version of the database changes.
use peerswap.Prelude.{
  ℕ, ◌≡◌, refl, sym, ap, ◌∙◌, Bool, true, false, not, List, [], ◌∷◌, Option, none, some, ◌⊎◌, inl,
  inr, arith, if◌then◌else◌,
}
use peerswap.Prelude.Equality.{◌==◌, list_eq}
use peerswap.Swap.Error.{Result, ok, err}
use peerswap.Swap.Machine.{SwapStateMachine, is_finished}
use peerswap.Swap.Service.Recovery.{unfinished_swaps, any_unfinished, has_active_swaps}
use peerswap.Bolt.{
  Bolt, IsBolt, Transactions, does_not_exist, already_exists, data_not_available, active_swaps,
  store_error, Answer, gives, fails, opened, of_result, gave, of_result-gives, same_answer,
}
use peerswap.Version.{
  version, version_key, found, get_version, set_version, upgrade, upgrade_from, safe_upgrade,
}

skipped :
    {A : Type 0} (over rest : Bool) (x : A) (xs : List A)
    → (if not over then true else rest) ≡ false
    → (rest ≡ false → xs ≡ [])
    → (if over then xs else x ∷ xs) ≡ []
skipped true rest x xs h k = k h
skipped false rest x xs h k = ground arith

none_unfinished :
    (swaps : List SwapStateMachine) → any_unfinished swaps ≡ false → unfinished_swaps swaps ≡ []
unfolding any_unfinished unfinished_swaps
none_unfinished [] h = refl
none_unfinished (m ∷ swaps) h =
    skipped (is_finished m) (any_unfinished swaps) m (unfinished_swaps swaps) h
      (none_unfinished swaps)

none_active :
    (r : Result (List SwapStateMachine))
    → has_active_swaps r ≡ ok false
    → (swaps : List SwapStateMachine) × (r ≡ ok swaps) × (unfinished_swaps swaps ≡ [])
unfolding has_active_swaps
none_active (ok swaps) h = (swaps, refl, none_unfinished swaps (ground arith))
none_active (err e) h = ground arith

stays_or :
    {A : Type 0} (x : Bool) (s : A) (o : Answer A) (t : A)
    → (if x then gives s else o) ≡ gives t
    → ((x ≡ true) × (t ≡ s)) ⊎ (o ≡ gives t)
stays_or true s o t h = inl (refl, sym (same_answer s t h))
stays_or false s o t h = inr h

found_is :
    (b : Bolt) (tx : Transactions) (o : Option (List ℕ)) (v : List ℕ)
    → found b tx o ≡ gives v
    → o ≡ some v
found_is b tx none v h = ground arith
found_is b tx (some bytes) v h = ap some (same_answer bytes v h)

stored_is :
    (b : Bolt) (tx : Transactions) (s : b.St) (v : List ℕ)
    → get_version b tx s ≡ gives v
    → b.get version_key s ≡ some v
unfolding get_version
stored_is b tx s v h =
    let (u, began, h1) = gave (opened (tx.begin 0)) _ v h in
    found_is b tx (b.get version_key s) v h1

module _ (b : Bolt) (laws : IsBolt b) (tx : Transactions) (r : Result (List SwapStateMachine))
    (s : b.St) where
  -- The version is the one of this program; it was before, or no stored swap goes on.
  pub record IsSafe (t : b.St) : Type 0 where
    pub version_is : b.get version_key t ≡ some version
    pub was_or_idle :
        (t ≡ s) ⊎ ((swaps : List SwapStateMachine) × (r ≡ ok swaps) × (unfinished_swaps swaps ≡ []))

  set_version-IsSafe :
      (t : b.St) → has_active_swaps r ≡ ok false → set_version b tx version s ≡ gives t → IsSafe t
  unfolding set_version
  set_version-IsSafe t idle h =
      let (u, began, h1) = gave (opened (tx.begin 1)) _ t h in
      let (t', stored, h2) = gave (of_result (b.put version_key version s)) _ t h1 in
      let (c, committed, h3) = gave (opened (tx.commit 1)) _ t h2 in
      record {
        version_is =
            laws.get-put version_key version s t
              (of_result-gives _ _ stored ∙ ap ok (same_answer t' t h3));
        was_or_idle = inr (none_active r idle);
      }

  upgrade-IsSafe :
      (has : Result Bool) (current : List ℕ) (t : b.St)
      → has_active_swaps r ≡ has
      → upgrade b tx has current s ≡ gives t
      → IsSafe t
  upgrade-IsSafe (err e) current t is h = ground arith
  upgrade-IsSafe (ok true) current t is h = ground arith
  upgrade-IsSafe (ok false) current t is h = set_version-IsSafe t is h

  upgrade_from-IsSafe :
      (current : Answer (List ℕ)) (t : b.St)
      → (get_version b tx s ≡ current)
      → upgrade_from b tx (has_active_swaps r) current s ≡ gives t
      → IsSafe t
  upgrade_from-IsSafe (gives current) t is h =
      elim (stays_or (current == version) s (upgrade b tx (has_active_swaps r) current s) t h) [
        | inl (same, stays) ↦ record {
          version_is =
              ap (b.get version_key) stays
              ∙ stored_is b tx s current is
              ∙ ap some ((list_eq.agrees current version).0 same);
          was_or_idle = inl stays;
        }
        | inr goes_on ↦ upgrade-IsSafe (has_active_swaps r) current t refl goes_on
      ]
  upgrade_from-IsSafe (fails does_not_exist) t is h =
      upgrade-IsSafe (has_active_swaps r) [] t refl h
  upgrade_from-IsSafe (fails already_exists) t is h = ground arith
  upgrade_from-IsSafe (fails data_not_available) t is h = ground arith
  upgrade_from-IsSafe (fails (active_swaps v)) t is h = ground arith
  upgrade_from-IsSafe (fails (store_error e)) t is h = ground arith

-- When `SafeUpgrade` succeeds the stored version is the one of this program, and it was before, or none
-- of the stored swaps is unfinished.
pub safe_upgrade-IsSafe :
    (b : Bolt) (tx : Transactions) (r : Result (List SwapStateMachine)) (s t : b.St)
    → (laws : IsBolt b) → safe_upgrade b tx (has_active_swaps r) s ≡ gives t
    → IsSafe b laws tx r s t
unfolding safe_upgrade
safe_upgrade-IsSafe b tx r s t laws h =
    upgrade_from-IsSafe b laws tx r s (get_version b tx s) t refl h
