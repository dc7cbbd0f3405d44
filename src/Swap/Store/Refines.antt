-- ===== src/Swap/Store/Refines.antt =====
-- The store as a map from keys to swaps.
use peerswap.Prelude.{
  ℕ, suc, ◌≡◌, ◌≢◌, refl, ap, ◌∙◌, List, Option, none, some, arith, Bool, true, false,
  if◌then◌else◌,
}
use peerswap.Prelude.Text.{String}
use peerswap.Swap.Error.{Result, ok}
use peerswap.Swap.Machine.{SwapStateMachine}
use peerswap.Bolt.{
  Bolt, IsBolt, Transactions, StoreError, does_not_exist, already_exists, data_not_available,
  active_swaps, store_error, Answer, gives, fails, opened, of_result, gave, of_result-gives,
  same_answer,
}
use peerswap.Swap.Store.{
  SwapJson, h2b, get_by_id, found, id_exists, write, create, update, update_data, get_data,
  delete_by_id, or_create,
}

refused_if :
    {A : Type 0} (x : Bool) (e : StoreError) (o : Answer A) (t : A)
    → (if x then fails e else o) ≡ gives t
    → (x ≡ false) × (o ≡ gives t)
refused_if true e o t h = ground arith
refused_if false e o t h = (refl, h)

required :
    {A : Type 0} (x : Bool) (e : StoreError) (o : Answer A) (t : A)
    → (if x then o else fails e) ≡ gives t
    → (x ≡ true) × (o ≡ gives t)
required true e o t h = (refl, h)
required false e o t h = ground arith

abbrev read : SwapJson → Option (List ℕ) → Option (Result SwapStateMachine)
read json none = none
read json (some bytes) = some (json.unmarshal bytes)

-- The abstract view of a bucket: what a key stands for.
abbrev pub view : (b : Bolt) → SwapJson → b.St → List ℕ → Option (Result SwapStateMachine)
view b json s k = read json (b.get k s)

-- One map is another with a value put at a key.
pub record IsPut (v : SwapStateMachine) (k : List ℕ)
    (f g : List ℕ → Option (Result SwapStateMachine)) : Type 0 where
  pub at_key : g k ≡ some (ok v)
  pub elsewhere : (j : List ℕ) → j ≢ k → g j ≡ f j

module _ (b : Bolt) (laws : IsBolt b) (tx : Transactions) (json : SwapJson)
    (saved : SwapStateMachine → SwapStateMachine) (m : SwapStateMachine)
    (round_trip : (bytes : List ℕ)
      → json.marshal m ≡ ok bytes
      → json.unmarshal bytes ≡ ok (saved m)) where
  write-IsPut :
      (n : ℕ) (s t : b.St)
      → write b tx json n m s ≡ gives t
      → IsPut (saved m) (h2b m.swap_id) (view b json s) (view b json t)
  unfolding write
  write-IsPut n s t h =
      let (u, began, h1) = gave (opened (tx.begin n)) _ t h in
      let (bytes, marshalled, h2) = gave (of_result (json.marshal m)) _ t h1 in
      let (t', stored, h3) = gave (of_result (b.put (h2b m.swap_id) bytes s)) _ t h2 in
      let (c, committed, h4) = gave (opened (tx.commit n)) _ t h3 in
      let put_is : b.put (h2b m.swap_id) bytes s ≡ ok t =
        of_result-gives _ _ stored ∙ ap ok (same_answer t' t h4) in
      record {
        at_key =
            ap (read json) (laws.get-put (h2b m.swap_id) bytes s t put_is)
            ∙ ap some (round_trip bytes (of_result-gives _ _ marshalled));
        elsewhere =
            λ j other. ap (read json) (laws.get-put_other (h2b m.swap_id) bytes j s t put_is other);
      }

  create-IsPut :
      (n : ℕ) (s t : b.St)
      → create b tx json n m s ≡ gives t
      → IsPut (saved m) (h2b m.swap_id) (view b json s) (view b json t)
  unfolding create
  create-IsPut n s t h =
      let (exists, found, h1) = gave (id_exists b tx json n m.swap_id s) _ t h in
      let (new, h2) = refused_if exists _ _ t h1 in write-IsPut (suc n) s t h2

  update-IsPut :
      (n : ℕ) (s t : b.St)
      → update b tx json n m s ≡ gives t
      → IsPut (saved m) (h2b m.swap_id) (view b json s) (view b json t)
  unfolding update
  update-IsPut n s t h =
      let (exists, found, h1) = gave (id_exists b tx json n m.swap_id s) _ t h in
      let (old, h2) = required exists _ _ t h1 in write-IsPut (suc n) s t h2

  or_create-IsPut :
      (s t : b.St) (o : Answer b.St)
      → (o ≡ gives t → IsPut (saved m) (h2b m.swap_id) (view b json s) (view b json t))
      → or_create b tx json m s o ≡ gives t
      → IsPut (saved m) (h2b m.swap_id) (view b json s) (view b json t)
  unfolding or_create
  or_create-IsPut s t (gives x) k h = k h
  or_create-IsPut s t (fails does_not_exist) k h = create-IsPut 2 s t h
  or_create-IsPut s t (fails already_exists) k h = ground arith
  or_create-IsPut s t (fails data_not_available) k h = ground arith
  or_create-IsPut s t (fails (active_swaps v)) k h = ground arith
  or_create-IsPut s t (fails (store_error e)) k h = ground arith

-- When `UpdateData` succeeds the store, seen as a map from keys to swaps, is the map of before with
-- the swap, as JSON brings it back, put at its key: for any bucket that keeps the promises of bbolt.
pub update_data-refines :
    (b : Bolt) (tx : Transactions) (json : SwapJson) (saved : SwapStateMachine → SwapStateMachine)
    (m : SwapStateMachine) (s t : b.St)
    → IsBolt b
    → ((bytes : List ℕ) → json.marshal m ≡ ok bytes → json.unmarshal bytes ≡ ok (saved m))
    → update_data b tx json m s ≡ gives t
    → IsPut (saved m) (h2b m.swap_id) (view b json s) (view b json t)
unfolding update_data
update_data-refines b tx json saved m s t laws round_trip h =
    or_create-IsPut b laws tx json saved m round_trip s t (update b tx json 0 m s)
      (update-IsPut b laws tx json saved m round_trip 0 s t) h

found_there :
    (b : Bolt) (tx : Transactions) (json : SwapJson) (m : SwapStateMachine) (o : Option (List ℕ))
    → read json o ≡ some (ok m)
    → found b tx json o ≡ gives m
found_there b tx json m none h = ground arith
found_there b tx json m (some bytes) h =
    let is : json.unmarshal bytes ≡ ok m = ground arith in rw is

found_at :
    (b : Bolt) (tx : Transactions) (json : SwapJson) (m : SwapStateMachine) (id : String) (t : b.St)
    → tx.begin 0 ≡ none
    → view b json t (h2b id) ≡ some (ok m)
    → get_data b tx json id t ≡ gives m
unfolding get_data get_by_id
found_at b tx json m id t began h = rw (began, found_there b tx json m (b.get (h2b id) t) h)

-- A swap that was stored is found under its id, as JSON brings it back.
pub get_data-update_data :
    (b : Bolt) (tx : Transactions) (json : SwapJson) (saved : SwapStateMachine → SwapStateMachine)
    (m : SwapStateMachine) (s t : b.St)
    → IsBolt b
    → ((bytes : List ℕ) → json.marshal m ≡ ok bytes → json.unmarshal bytes ≡ ok (saved m))
    → tx.begin 0 ≡ none
    → update_data b tx json m s ≡ gives t
    → get_data b tx json m.swap_id t ≡ gives (saved m)
get_data-update_data b tx json saved m s t laws round_trip began h =
    found_at b tx json (saved m) m.swap_id t began
      (update_data-refines b tx json saved m s t laws round_trip h).at_key

-- When `DeleteById` succeeds nothing is at the key any more, and all else is as before.
pub delete_by_id-refines :
    (b : Bolt) (tx : Transactions) (json : SwapJson) (id : String) (s t : b.St)
    → IsBolt b
    → delete_by_id b tx json id s ≡ gives t
    → (view b json t (h2b id) ≡ none)
      × ((j : List ℕ) → j ≢ h2b id → view b json t j ≡ view b json s j)
unfolding delete_by_id
delete_by_id-refines b tx json id s t laws h =
    let (u, began, h1) = gave (opened (tx.begin 0)) _ t h in
    let (t', deleted, h2) = gave (of_result (b.delete (h2b id) s)) _ t h1 in
    let (c, committed, h3) = gave (opened (tx.commit 0)) _ t h2 in
    let delete_is : b.delete (h2b id) s ≡ ok t =
      of_result-gives _ _ deleted ∙ ap ok (same_answer t' t h3) in
    (
      ap (read json) (laws.get-delete (h2b id) s t delete_is),
      λ j other. ap (read json) (laws.get-delete_other (h2b id) j s t delete_is other),
    )
