-- ===== src/PeerSync/Poller.antt =====
-- When a peer is polled (peersync/peersync.go, peersync/poller.go).
pub mod Spaced
use peerswap.Prelude.{
  ℕ, ◌-◌, ◌/◌, Bool, true, false, not, List, [], ◌∷◌, Option, none, some, ltb, ◌&&◌, if◌then◌else◌,
}
use peerswap.Prelude.Equality.{◌==◌, nat_eq, string_eq}
use peerswap.Prelude.Text.{String}
use peerswap.PeerSync.{Peer, PeerCapability, status_expired, PeerStatus}

-- The interval of `NewSyncLogic`, in milliseconds.
abbrev pub poll_interval : ℕ
poll_interval = 10000

abbrev is_expired_status : PeerStatus → Bool
is_expired_status status_expired = true
is_expired_status _ = false

unfoldable pub should_poll : ℕ → Peer → Bool
should_poll now p =
    if is_expired_status p.status then false else ltb poll_interval (now - p.last_poll_at)

-- `MergeCapabilities`: the newer version counts, the remote one if they are the same.
unfoldable pub merge_capabilities :
    Option PeerCapability → Option PeerCapability → Option PeerCapability
merge_capabilities none remote = remote
merge_capabilities (some l) none = some l
merge_capabilities (some l) (some r) = if ltb r.version l.version then some l else some r

unfoldable pub capability_is_stale : ℕ → ℕ → Peer → Bool
capability_is_stale timeout now p =
    if p.last_observed_at == 0 then false else ltb (timeout / 2) (now - p.last_observed_at)

-- When each peer was asked the last time; the newest entry of a peer counts.
abbrev pub RequestTimes : Type 0
RequestTimes = List (String × ℕ)

unfoldable pub last_request : String → RequestTimes → Option ℕ
last_request peer [] = none
last_request peer ((p, at) ∷ times) =
    let rest = last_request peer times in if p == peer then some at else rest

abbrev pub too_early : ℕ → ℕ → Option ℕ → Bool
too_early interval now none = false
too_early interval now (some last) = ltb (now - last) interval

-- `allowRequest`: an attempt is recorded, whether it succeeds or not.
unfoldable pub allow_request : ℕ → String → ℕ → Bool → RequestTimes → Bool × RequestTimes
unfolding last_request
allow_request interval peer now force times =
    if not force && too_early interval now (last_request peer times)
    then (false, times)
    else (true, (peer, now) ∷ times)

-- `pruneRequestTimes`: only the times of the connected peers stay.
unfoldable pub prune_request_times : (String → Bool) → RequestTimes → RequestTimes
prune_request_times connected [] = []
prune_request_times connected ((p, at) ∷ times) =
    let rest = prune_request_times connected times in if connected p then (p, at) ∷ rest else rest
