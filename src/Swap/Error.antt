-- ===== src/Swap/Error.antt =====
-- Go's `error` values in the swap package. The ones that the code compares with (swap/fsm.go,
-- swap/messages.go, swap/service.go) are constructors; every other is its text.
use peerswap.Prelude.{◌⊎◌, inl, inr, ◌≡◌, refl, ℕ, [], ◌∷◌}
use peerswap.Prelude.Text.{String, concat}

pub data Error : Type 0 where
  event_rejected fsm_config swap_does_not_exist : Error
  already_exists invalid_network invalid_scid asset_or_network_set : Error
  peer_not_allowed peer_is_suspicious : String → Error
  active_swap : String → String → Error
  invalid_byte : ℕ → Error
  odd_length : Error
  message : String → Error

-- `err.Error()`. The text of `invalid_byte` leaves out the byte that `encoding/hex` adds.
pub error_text : Error → String
error_text Error.event_rejected = "event rejected"
error_text Error.fsm_config = "fsm config invalid"
error_text Error.swap_does_not_exist = "swap does not exist"
error_text Error.already_exists = "Message already exists"
error_text Error.invalid_network = "Invalid network"
error_text Error.invalid_scid = "Invalid Scid"
error_text Error.asset_or_network_set = "Either asset or network must be set"
error_text (Error.peer_not_allowed p) = concat ("peer " ∷ p ∷ " is not on allowlist" ∷ [])
error_text (Error.peer_is_suspicious p) = concat ("peer " ∷ p ∷ " is on suspicious peer list" ∷ [])
error_text (Error.active_swap channel id) =
    concat ("already has an active swap on channel " ∷ channel ∷ ": " ∷ id ∷ [])
error_text (Error.invalid_byte c) = "encoding/hex: invalid byte"
error_text Error.odd_length = "encoding/hex: odd length hex string"
error_text (Error.message t) = t

pub data Result {ℓ} (A : Type ℓ) : Type ℓ where
  ok : A → Result A
  err : Error → Result A

infixl 5 ◌>>=◌ ◌>>◌
abbrev pub ◌>>=◌ {ℓ κ} : {A : Type ℓ} {B : Type κ} → Result A → (A → Result B) → Result B
ok x >>= next = next x
err problem >>= next = err problem

abbrev pub ◌>>◌ {ℓ} : {B : Type ℓ} → Result (Unit {0}) → Result B → Result B
first >> second = first >>= λ _. second

pub result_rule {κ} :
    {A B : Type 0} (P : B → Type κ) (r : Result A) (f : Error → B) (g : A → B)
    → ((e : Error) → r ≡ err e → P (f e))
    → ((a : A) → r ≡ ok a → P (g a))
    → P (elim r [ err e ↦ f e | ok a ↦ g a ])
result_rule P (err e) f g h i = h e refl
result_rule P (ok a) f g h i = i a refl

pub Result-cases :
    {A : Type 0} (r : Result A) → ((e : Error) × (r ≡ err e)) ⊎ ((a : A) × (r ≡ ok a))
Result-cases (err e) = inl (e, refl)
Result-cases (ok a) = inr (a, refl)
