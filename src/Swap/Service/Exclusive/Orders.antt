-- ===== src/Swap/Service/Exclusive/Orders.antt =====
-- The requests of peers and the orders of the operator keep the active swaps one to a channel.
use peerswap.Prelude.{ℕ, ◌≡◌, refl, true, false, Option, some, option_rule, Bool, sym, subst}
use peerswap.Prelude.Equality.{string_eq, nat_eq}
use peerswap.Prelude.Text.{String}
use peerswap.Swap.Error.{Error, Result, ok, err, result_rule, error_text}
use peerswap.Swap.Message.{PeerMessage, SwapInRequestMessage, SwapOutRequestMessage}
use peerswap.Swap.State.{
  EventType, swap_in_receiver_on_request_received, on_swap_out_started,
  swap_in_sender_on_swap_in_requested,
}
use peerswap.Swap.Data.{new_swap_data, new_swap_data_from_request}
use peerswap.Swap.Services.{SwapServices}
use peerswap.Swap.Machine.{SwapStateMachine, World, later}
use peerswap.Swap.Machine.Start.{
  new_swap_in_receiver_fsm, new_swap_out_receiver_fsm, new_swap_out_sender_fsm,
  new_swap_in_sender_fsm,
}
use peerswap.Swap.Service.{lock_swap}
use peerswap.Swap.Service.Serving.{
  Service, Served, Serving, check, remove_if, ◌>>=◌, ◌>>◌, lock, answer,
}
use peerswap.Swap.Service.Handlers.{drive}
use peerswap.Swap.Service.Requests.{
  Fresh, Screened, passes, tells, tell, screen_swap_in, screen_swap_out, post,
  on_swap_in_request_received, on_swap_out_request_received,
}
use peerswap.Swap.Service.Initiate.{
  Order, swap_out_request_of, swap_in_request_of, may_start, guard, asset_and_network, swap_out,
  swap_in,
}
use peerswap.Swap.Service.Exclusive.{IsExclusive}
use peerswap.Swap.Service.Exclusive.Rules.{
  Leaves, Any, and_then-Leaves, check-Leaves, remove_if-Leaves,
}
use peerswap.Swap.Service.Exclusive.Start.{
  IsNew, IsLockedFor, lock_swap-IsLockedFor, start-Leaves, drive_started-Leaves, channel_of,
  lock_swap-IsExclusive,
}

-- A method keeps the active swaps one to a channel.
abbrev pub Keeps : {A : Type 0} → Serving A → Type 0
Keeps m = (s : Service) → IsExclusive s.active → Leaves Any (m s)

post-Keeps :
    (services : SwapServices) (peer bytes : String) (type : ℕ)
    → Keeps (post services peer bytes type)
post-Keeps services peer bytes type s h = (
  option_rule (λ (t : Service). IsExclusive t.active) (services.send_message peer bytes type) _ _
      (λ _. h) (λ _ _. h),
  tt,
)

tell-Keeps : (services : SwapServices) (peer id text : String) → Keeps (tell services peer id text)
unfolding tell
tell-Keeps services peer id text s h =
    result_rule (λ (f : Serving (Unit {0})). Leaves Any (f s)) (services.codec.marshal _) _ _
      (λ e _. (post-Keeps services peer "" 0 s h).0)
      (λ bytes _. post-Keeps services peer bytes _ s h)

receiver-IsNew :
    (id peer key : String) (now : ℕ)
    → IsNew (new_swap_in_receiver_fsm id peer key now)
      × IsNew (new_swap_out_receiver_fsm id peer key now)
unfolding new_swap_data_from_request
receiver-IsNew id peer key now = (
  record { no_swap_in = refl; no_swap_out = refl },
  record { no_swap_in = refl; no_swap_out = refl },
)

sender-IsNew :
    (id initiator peer key : String) (now : ℕ)
    → IsNew (new_swap_in_sender_fsm id initiator peer key now)
      × IsNew (new_swap_out_sender_fsm id initiator peer key now)
unfolding new_swap_data
sender-IsNew id initiator peer key now = (
  record { no_swap_in = refl; no_swap_out = refl },
  record { no_swap_in = refl; no_swap_out = refl },
)

screened_rule :
    (P : Served (Unit {0}) → Type 0) (x : Screened) (f : String → Served (Unit {0}))
    (y : Served (Unit {0}))
    → ((text : String) → P (f text))
    → P y
    → P (elim x [ tells text ↦ f text | passes ↦ y ])
screened_rule P (tells text) f y h g = h text
screened_rule P passes f y h g = g

pub swap_in_request-Keeps :
    (w : World) (fresh : Fresh) (peer : String) (msg : SwapInRequestMessage)
    → Keeps (on_swap_in_request_received w fresh peer msg)
unfolding on_swap_in_request_received
swap_in_request-Keeps w fresh peer msg s h =
    let m = new_swap_in_receiver_fsm msg.swap_id peer fresh.key fresh.now in
    result_rule (Leaves Any) ((w 0).compute_premium peer _ _ msg.amount) _ _ (λ _ _. h)
      λ premium _.
        screened_rule (Leaves Any) (screen_swap_in (w 0) msg premium) _ _
          (λ text. tell-Keeps (w 0) peer msg.swap_id text s h)
          (result_rule (Leaves Any) (lock_swap m.swap_id msg.scid m s.active) _ _
            (λ e _. tell-Keeps (w 0) peer msg.swap_id (error_text e) s h)
            λ swaps l.
              and_then-Leaves Any Any _ _
                (start-Leaves (later w) m swap_in_receiver_on_request_received
                  (PeerMessage.swap_in_request msg) (record s { active = swaps })
                  (receiver-IsNew msg.swap_id peer fresh.key fresh.now).0
                  (lock_swap-IsLockedFor m.swap_id msg.scid m s.active swaps h l))
                λ end t g _.
                  and_then-Leaves Any Any (remove_if end.done m.swap_id t) _
                    (remove_if-Leaves end.done m.swap_id t g)
                    (λ u t' g' _. check-Leaves end.error t' g'))

pub swap_out_request-Keeps :
    (w : World) (fresh : Fresh) (peer : String) (msg : SwapOutRequestMessage)
    → Keeps (on_swap_out_request_received w fresh peer msg)
unfolding on_swap_out_request_received
swap_out_request-Keeps w fresh peer msg s h =
    let m = new_swap_out_receiver_fsm msg.swap_id peer fresh.key fresh.now in
    result_rule (Leaves Any) ((w 0).compute_premium peer _ _ msg.amount) _ _ (λ _ _. h)
      λ premium _.
        screened_rule (Leaves Any) (screen_swap_out (w 0) msg premium) _ _
          (λ text. tell-Keeps (w 0) peer msg.swap_id text s h)
          (result_rule (Leaves Any) (lock_swap m.swap_id msg.scid m s.active) _ _
            (λ e _. tell-Keeps (w 0) peer msg.swap_id (error_text e) s h)
            λ swaps l.
              drive_started-Leaves (later w) m EventType.on_swap_out_request_received
                (PeerMessage.swap_out_request msg) (record s { active = swaps })
                (receiver-IsNew msg.swap_id peer fresh.key fresh.now).1
                (lock_swap-IsLockedFor m.swap_id msg.scid m s.active swaps h l))

-- The same as a record, for the rules.
pub record Preserves {A : Type 0} (m : Serving A) : Type 0 where
  pub at : Keeps m

pub answer-Preserves : {A : Type 0} (r : Result A) → Preserves (answer r)
answer-Preserves (ok a) = record { at = λ s h. (h, tt) }
answer-Preserves (err e) = record { at = λ s h. h }

pub guard-Preserves : (b : Bool) (e : Error) → Preserves (guard b e)
guard-Preserves true e = record { at = λ s h. (h, tt) }
guard-Preserves false e = record { at = λ s h. h }

pub check-Preserves : (o : Option Error) → Preserves (check o)
check-Preserves o = record { at = λ s h. check-Leaves o s h }

pub bind-Preserves :
    {A B : Type 0} (m : Serving A) (f : A → Serving B)
    → Preserves m
    → ((a : A) → Preserves (f a))
    → Preserves (m >>= f)
bind-Preserves m f k g = record {
  at = λ s h. and_then-Leaves Any Any (m s) f (k.at s h) (λ a t i _. (g a).at t i);
}

lock-Leaves :
    (id channel : String) (m : SwapStateMachine) (s : Service)
    → IsNew m
    → IsExclusive s.active
    → Leaves (λ (u : Unit {0}) t. IsLockedFor id channel t.active) (lock id channel m s)
unfolding lock
lock-Leaves id channel m s new h =
    result_rule (Leaves (λ (u : Unit {0}) t. IsLockedFor id channel t.active))
      (lock_swap id channel m s.active) _ _ (λ _ _. h)
      λ swaps l.
        let locked = lock_swap-IsLockedFor id channel m s.active swaps h l in
        (lock_swap-IsExclusive id channel m s.active swaps new h l, locked)

-- A new swap is locked, and started if its chain has a wallet.
module _ (w : World) (m : SwapStateMachine) (channel : String) (new : IsNew m) (e : EventType)
    (A : Type 0) (msg : A → PeerMessage) (on_it : (a : A) → channel_of (msg a) ≡ channel) where
  abbrev started : A → Serving (Unit {0})
  started a = drive w m.swap_id m e (some (msg a))

  started-Leaves :
      (a : A) (s : Service) → IsLockedFor m.swap_id channel s.active → Leaves Any (started a s)
  started-Leaves a s l =
      drive_started-Leaves w m e (msg a) s new
        (subst (λ c. IsLockedFor m.swap_id c s.active) (sym (on_it a)) l)

  answered-Leaves :
      (r : Result A) (s : Service)
      → IsExclusive s.active
      → IsLockedFor m.swap_id channel s.active
      → Leaves (λ (a : A) t. IsLockedFor m.swap_id channel t.active) (answer r s)
  answered-Leaves (ok a) s h l = (h, l)
  answered-Leaves (err x) s h l = h

  lock_first-Preserves :
      (r : Result A) → Preserves (lock m.swap_id channel m >> (answer r >>= started))
  lock_first-Preserves r = record {
    at = λ s h.
        and_then-Leaves (λ u t. IsLockedFor m.swap_id channel t.active) Any _ _
          (lock-Leaves m.swap_id channel m s new h)
          λ u t h' l.
            and_then-Leaves (λ a t'. IsLockedFor m.swap_id channel t'.active) Any (answer r t)
              started (answered-Leaves r t h' l) (λ a t' g l'. started-Leaves a t' l');
  }

  lock_last-Preserves : (a : A) → Preserves (lock m.swap_id channel m >> started a)
  lock_last-Preserves a = record {
    at = λ s h.
        and_then-Leaves (λ u t. IsLockedFor m.swap_id channel t.active) Any _ _
          (lock-Leaves m.swap_id channel m s new h) (λ u t h' l. started-Leaves a t l);
  }

ruleset preserves_rules = (bind-Preserves, answer-Preserves, guard-Preserves, check-Preserves)

may_start-Preserves : (services : SwapServices) (o : Order) → Preserves (may_start services o)
unfolding may_start
may_start-Preserves services o = search preserves_rules

pub swap_out-Preserves : (w : World) (fresh : Fresh) (o : Order) → Preserves (swap_out w fresh o)
unfolding swap_out
swap_out-Preserves w fresh o =
    let m = new_swap_out_sender_fsm fresh.swap_id o.initiator o.peer fresh.key fresh.now in
    let request =
      λ (p : String × String). PeerMessage.swap_out_request (swap_out_request_of (w 0) fresh o p) in
    bind-Preserves (may_start (w 0) o) _ (may_start-Preserves (w 0) o) λ _.
      bind-Preserves (answer ((w 0).lightning.spendable_msat o.channel_id)) _ (answer-Preserves _)
        λ sp. bind-Preserves (guard _ _) _ (guard-Preserves _ _) λ _.
          lock_first-Preserves (later w) m o.channel_id
            (sender-IsNew fresh.swap_id o.initiator o.peer fresh.key fresh.now).1
            on_swap_out_started (String × String) request (λ p. refl)
            (asset_and_network (w 0) o.chain)

pub swap_in-Preserves : (w : World) (fresh : Fresh) (o : Order) → Preserves (swap_in w fresh o)
unfolding swap_in
swap_in-Preserves w fresh o =
    let m = new_swap_in_sender_fsm fresh.swap_id o.initiator o.peer fresh.key fresh.now in
    search
      (
        preserves_rules,
        may_start-Preserves,
        lock_last-Preserves (later w) m o.channel_id
            (sender-IsNew fresh.swap_id o.initiator o.peer fresh.key fresh.now).0
            swap_in_sender_on_swap_in_requested (String × String)
            (λ (p : String × String).
              PeerMessage.swap_in_request (swap_in_request_of (w 0) fresh o p))
            (λ p. refl),
      )
      depth 40
