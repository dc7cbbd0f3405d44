-- ===== src/Swap/Store.antt =====
-- The store of the swaps (swap/store.go). A transaction that does not commit changes nothing, so that a
-- call gives the new bucket or an error. JSON is a parameter.
pub mod Refines
use peerswap.Prelude.{
  ℕ, suc, ◌+◌, ◌*◌, Bool, true, false, List, [], ◌∷◌, Option, none, some, if◌then◌else◌,
}
use peerswap.Prelude.Equality.{◌==◌, string_eq}
use peerswap.Prelude.Text.{String, codes}
use peerswap.Swap.Error.{Error, Result, ok, err}
use peerswap.Swap.Hex.{hex_value}
use peerswap.Swap.Machine.{SwapStateMachine}
use peerswap.Bolt.{
  Bolt, Transactions, StoreError, does_not_exist, already_exists, data_not_available, store_error,
  Answer, gives, fails, ◌>>=◌, ◌>>◌, opened, of_result,
}

abbrev byte_of : Option ℕ → Option ℕ → List ℕ → List ℕ
byte_of (some hi) (some lo) rest = (hi * 16 + lo) ∷ rest
byte_of _ _ rest = []

-- `h2b`: the bytes before the first that is no digit.
unfoldable pub hex_prefix : List ℕ → List ℕ
hex_prefix [] = []
hex_prefix (c ∷ []) = []
hex_prefix (c ∷ d ∷ cs) = byte_of (hex_value c) (hex_value d) (hex_prefix cs)

unfoldable pub h2b : String → List ℕ
unfolding hex_prefix
h2b text = hex_prefix (codes text)

-- `json.Marshal` and `json.Unmarshal` of a swap.
pub record SwapJson : Type 0 where
  pub marshal : SwapStateMachine → Result (List ℕ)
  pub unmarshal : List ℕ → Result SwapStateMachine

module _ (b : Bolt) (tx : Transactions) (json : SwapJson) where
  abbrev pub found : Option (List ℕ) → Answer SwapStateMachine
  found none = fails does_not_exist
  found (some bytes) = of_result (json.unmarshal bytes)

  -- The transactions of a call are numbered, from `n` on.
  unfoldable pub get_by_id : ℕ → String → b.St → Answer SwapStateMachine
  unfolding h2b
  get_by_id n id s = do opened (tx.begin n); found (b.get (h2b id) s)

  abbrev exists_of : Answer SwapStateMachine → Answer Bool
  exists_of (gives m) = gives true
  exists_of (fails does_not_exist) = gives false
  exists_of (fails e) = fails e

  unfoldable pub id_exists : ℕ → String → b.St → Answer Bool
  unfolding get_by_id
  id_exists n id s = exists_of (get_by_id n id s)

  -- The second transaction of `Create` and of `Update`.
  unfoldable pub write : ℕ → SwapStateMachine → b.St → Answer b.St
  unfolding h2b
  write n m s = do
    opened (tx.begin n)
    bytes ← of_result (json.marshal m)
    t ← of_result (b.put (h2b m.swap_id) bytes s)
    opened (tx.commit n)
    gives t

  unfoldable pub create : ℕ → SwapStateMachine → b.St → Answer b.St
  unfolding id_exists write
  create n m s = do
    exists ← id_exists n m.swap_id s
    if exists then fails already_exists else write (suc n) m s

  unfoldable pub update : ℕ → SwapStateMachine → b.St → Answer b.St
  unfolding id_exists write
  update n m s = do
    exists ← id_exists n m.swap_id s
    if exists then write (suc n) m s else fails does_not_exist

  unfoldable pub or_create : SwapStateMachine → b.St → Answer b.St → Answer b.St
  unfolding create
  or_create m s (gives t) = gives t
  or_create m s (fails does_not_exist) = create 2 m s
  or_create m s (fails e) = fails e

  unfoldable pub update_data : SwapStateMachine → b.St → Answer b.St
  unfolding update or_create
  update_data m s = or_create m s (update 0 m s)

  abbrev data_of : Answer SwapStateMachine → Answer SwapStateMachine
  data_of (fails does_not_exist) = fails data_not_available
  data_of (fails e) = fails e
  data_of (gives m) = gives m

  unfoldable pub get_data : String → b.St → Answer SwapStateMachine
  unfolding get_by_id
  get_data id s = data_of (get_by_id 0 id s)

  unfoldable pub delete_by_id : String → b.St → Answer b.St
  unfolding h2b
  delete_by_id id s = do
    opened (tx.begin 0)
    t ← of_result (b.delete (h2b id) s)
    opened (tx.commit 0)
    gives t

  abbrev decode_all : List (List ℕ × List ℕ) → Answer (List SwapStateMachine)
  decode_all [] = gives []
  decode_all (e ∷ rest) =
      let more = decode_all rest in
      do m ← of_result (json.unmarshal e.1); swaps ← more; gives (m ∷ swaps)

  unfoldable pub list_all : b.St → Answer (List SwapStateMachine)
  list_all s = do opened (tx.begin 0); decode_all (b.entries s)

  abbrev of_peer : String → List SwapStateMachine → List SwapStateMachine
  of_peer peer [] = []
  of_peer peer (m ∷ swaps) =
      let rest = of_peer peer swaps in if m.swap.peer_node_id == peer then m ∷ rest else rest

  unfoldable pub list_all_by_peer : String → b.St → Answer (List SwapStateMachine)
  unfolding list_all
  list_all_by_peer peer s = do swaps ← list_all s; gives (of_peer peer swaps)
