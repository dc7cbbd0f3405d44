-- ===== src/Tests/Stores.antt =====
-- The theorems on the stores, on a bucket that is a list of entries.
use peerswap.Prelude.{
  ℕ, ◌≡◌, ◌≢◌, refl, sym, ap, ◌∙◌, false, List, [], ◌∷◌, Option, none, some, if◌then◌else◌,
  Bool-cases, inl, inr, arith,
}
use peerswap.Prelude.Equality.{◌==◌, list_eq, list_beq_self}
use peerswap.Swap.Error.{ok}
use peerswap.Swap.Machine.{SwapStateMachine}
use peerswap.Bolt.{Bolt, IsBolt, Transactions}
use peerswap.Swap.Store.{SwapJson, h2b, update_data}
use peerswap.Swap.Store.Refines.{view, IsPut, update_data-refines}
use peerswap.Prelude.Text.{codes}
use peerswap.Swap.Hex.{hex_value}
use peerswap.Tests.World.{waiting_maker}

abbrev pub Entries : Type 0
Entries = List (List ℕ × List ℕ)

abbrev get_entry : List ℕ → Entries → Option (List ℕ)
get_entry k [] = none
get_entry k ((j, v) ∷ es) = let rest = get_entry k es in if j == k then some v else rest

abbrev drop_entry : List ℕ → Entries → Entries
drop_entry k [] = []
drop_entry k ((j, v) ∷ es) = let rest = drop_entry k es in if j == k then rest else (j, v) ∷ rest

abbrev pub bucket : Bolt
bucket = record {
  St = Entries;
  get = get_entry;
  put = λ k v es. ok ((k, v) ∷ es);
  delete = λ k es. ok (drop_entry k es);
  entries = λ es. es;
}

other_key : (j k : List ℕ) → j ≢ k → (k == j) ≡ false
other_key j k h = elim (Bool-cases (k == j)) [
  | inl same ↦ elim (h (sym ((list_eq.agrees k j).0 same))) [ ]
  | inr other ↦ other
]

get-drop : (k : List ℕ) (es : Entries) → get_entry k (drop_entry k es) ≡ none
get-drop k [] = refl
get-drop k ((j, v) ∷ es) = elim (Bool-cases (j == k)) [
  | inl same ↦ rw (same, get-drop k es)
  | inr other ↦ rw (other, other, get-drop k es)
]

get-drop_other :
    (k i : List ℕ) (es : Entries) → i ≢ k → get_entry i (drop_entry k es) ≡ get_entry i es
get-drop_other k i [] h = refl
get-drop_other k i ((j, v) ∷ es) h = elim (Bool-cases (j == k)) [
  | inl same ↦
      let is : (j == i) ≡ false =
        ap (λ x. x == i) ((list_eq.agrees j k).0 same) ∙ other_key i k h in
      rw (same, is, get-drop_other k i es h)
  | inr other ↦ rw (other, get-drop_other k i es h)
]

same_ok : {A : Type 0} (a c : A) → ok a ≡ ok c → a ≡ c
same_ok a c h = ground arith

pub bucket-IsBolt : IsBolt bucket
bucket-IsBolt = record {
  get-put = λ k v s t h. ap (get_entry k) (sym (same_ok ((k, v) ∷ s) t h)) ∙ (rw (list_beq_self k));
  get-put_other = λ k v j s t h other.
      ap (get_entry j) (sym (same_ok ((k, v) ∷ s) t h)) ∙ (rw (other_key j k other));
  get-delete = λ k s t h. ap (get_entry k) (sym (same_ok (drop_entry k s) t h)) ∙ get-drop k s;
  get-delete_other = λ k j s t h other.
      ap (get_entry j) (sym (same_ok (drop_entry k s) t h)) ∙ get-drop_other k j s other;
}

abbrev stored : SwapStateMachine
stored = record waiting_maker { swap_id = "0a0b" }

abbrev json : SwapJson
json = record { marshal = λ m. ok (codes "{}"); unmarshal = λ bytes. ok stored }

abbrev pub tx : Transactions
tx = record { begin = λ n. none; commit = λ n. none }

abbrev one_entry : Entries
one_entry = (10 ∷ 11 ∷ [], codes "{}") ∷ []

update_data-refines_example :
    IsPut stored (h2b "0a0b") (view bucket json []) (view bucket json one_entry)
unfolding update_data h2b hex_value
update_data-refines_example =
    update_data-refines bucket tx json (λ m. m) stored [] one_entry bucket-IsBolt (λ bytes h. refl)
      refl
