-- ===== src/PeerSync/Poller/Spaced.antt =====
-- How often a peer is asked.
use peerswap.Prelude.{
  ℕ, ◌+◌, ◌≤◌, ◌<◌, ◌≡◌, refl, sym, ap, subst, ◌∙◌, Bool, true, false, List, [], ◌∷◌, Option, none,
  some, arith, if◌then◌else◌, ◌&&◌, Bool-cases, inl, inr, All,
}
use peerswap.Prelude.Equality.{◌==◌, string_eq}
use peerswap.Prelude.Text.{String}
use peerswap.PeerSync.Poller.{
  RequestTimes, last_request, allow_request, too_early, prune_request_times,
}

-- A batch of `requestUnknownConnectedPeers`: who is connected, the time, and the peers that are neither
-- known nor suspicious, in their order.
pub record Batch : Type 0 where
  pub connected : String → Bool
  pub at : ℕ
  pub unknown : List String

abbrev pub Asked : Type 0
Asked = RequestTimes × List ℕ

-- The times of the requests, and those at which a peer was asked, newest first, after the requests of a
-- batch that is not forced.
unfoldable pub ask_each : ℕ → String → ℕ → List String → Asked → Asked
unfolding allow_request
ask_each interval peer now [] s = s
ask_each interval peer now (p ∷ ps) s =
    let r = allow_request interval p now false s.0 in
    ask_each interval peer now ps (r.1, if r.0 && p == peer then now ∷ s.1 else s.1)

-- The same after batches: each first forgets the peers that are not connected, so that they are asked
-- again at once when they come back.
unfoldable pub granted : ℕ → String → List Batch → Asked → Asked
unfolding ask_each prune_request_times
granted interval peer [] s = s
granted interval peer (b ∷ batches) s =
    granted interval peer batches
      (ask_each interval peer b.at b.unknown (prune_request_times b.connected s.0, s.1))

-- Each time is at least an interval after the one before.
abbrev pub AreSpaced : ℕ → List ℕ → Type 0
AreSpaced interval [] = Unit
AreSpaced interval (t ∷ []) = Unit
AreSpaced interval (t ∷ u ∷ ts) = (u + interval ≤ t) × AreSpaced interval (u ∷ ts)

abbrev newest : List ℕ → Option ℕ
newest [] = none
newest (t ∷ ts) = some t

-- What holds of the times of a peer and the map at every point of a run.
record IsLinked (interval : ℕ) (peer : String) (times : RequestTimes) (found : List ℕ)
    : Type 0 where
  last_is : last_request peer times ≡ newest found
  spaced : AreSpaced interval found

asked :
    (interval : ℕ) (peer : String) (now : ℕ) (times : RequestTimes) (found : List ℕ)
    → 0 < interval
    → IsLinked interval peer times found
    → too_early interval now (last_request peer times) ≡ false
    → AreSpaced interval (now ∷ found)
asked interval peer now times [] i h e = tt
asked interval peer now times (u ∷ ts) i h e =
    let early : too_early interval now (some u) ≡ false =
      ap (too_early interval now) (sym h.last_is) ∙ e in
    (ground arith, h.spaced)

other_asked :
    (peer other : String) (now : ℕ) (times : RequestTimes)
    → (other == peer) ≡ false
    → last_request peer ((other, now) ∷ times) ≡ last_request peer times
unfolding last_request
other_asked peer other now times h = rw h

self_asked :
    (peer other : String) (now : ℕ) (times : RequestTimes)
    → (other == peer) ≡ true
    → last_request peer ((other, now) ∷ times) ≡ some now
unfolding last_request
self_asked peer other now times h = rw h

answers :
    (interval : ℕ) (peer : String) (now : ℕ) (times : RequestTimes) (early : Bool)
    → too_early interval now (last_request peer times) ≡ early
    → allow_request interval peer now false times
      ≡ (if early then (false, times) else (true, (peer, now) ∷ times))
unfolding allow_request
answers interval peer now times early h = rw h

granted_one :
    (interval : ℕ) (peer p : String) (now : ℕ) (times : RequestTimes) (found : List ℕ) (same : Bool)
    → 0 < interval
    → IsLinked interval peer times found
    → too_early interval now (last_request p times) ≡ false
    → (p == peer) ≡ same
    → IsLinked interval peer ((p, now) ∷ times) (if same then now ∷ found else found)
granted_one interval peer p now times found true i h late same = record {
  last_is = self_asked peer p now times same;
  spaced = asked interval peer now times found i h (
      ap (λ q. too_early interval now (last_request q times))
        (sym ((string_eq.agrees p peer).0 same))
      ∙ late);
}
granted_one interval peer p now times found false i h late other = record {
  last_is = other_asked peer p now times other ∙ h.last_is;
  spaced = h.spaced;
}

step-IsLinked :
    (interval : ℕ) (peer p : String) (now : ℕ) (s : Asked)
    → 0 < interval
    → IsLinked interval peer s.0 s.1
    → IsLinked interval peer
        (allow_request interval p now false s.0).1
        (if (allow_request interval p now false s.0).0 && p == peer then now ∷ s.1 else s.1)
step-IsLinked interval peer p now (times, found) i h =
    let linked = λ (r : Bool × RequestTimes).
      IsLinked interval peer r.1 (if r.0 && p == peer then now ∷ found else found) in
    elim (Bool-cases (too_early interval now (last_request p times))) [
      | inl early ↦ subst linked (sym (answers interval p now times true early)) h
      | inr late ↦
          subst linked (sym (answers interval p now times false late))
            (granted_one interval peer p now times found (p == peer) i h late refl)
    ]

ask_each-IsLinked :
    (interval : ℕ) (peer : String) (now : ℕ) (ps : List String) (s : Asked)
    → 0 < interval
    → IsLinked interval peer s.0 s.1
    → IsLinked interval peer (ask_each interval peer now ps s).0 (ask_each interval peer now ps s).1
unfolding ask_each
ask_each-IsLinked interval peer now [] s i h = h
ask_each-IsLinked interval peer now (p ∷ ps) s i h =
    ask_each-IsLinked interval peer now ps _ i (step-IsLinked interval peer p now s i h)

-- The time of a connected peer is not forgotten.
last_request-prune :
    (connected : String → Bool) (peer : String) (times : RequestTimes)
    → connected peer ≡ true
    → last_request peer (prune_request_times connected times) ≡ last_request peer times
unfolding last_request prune_request_times
last_request-prune connected peer [] h = refl
last_request-prune connected peer ((p, at) ∷ times) h =
    let rest = last_request-prune connected peer times h in
    elim (Bool-cases (p == peer)) [
      | inl same ↦
          let there : connected p ≡ true = ap connected ((string_eq.agrees p peer).0 same) ∙ h in
          rw (there, same)
      | inr other ↦ elim (Bool-cases (connected p)) [
        | inl there ↦ rw (there, other, rest)
        | inr away ↦ rw (away, other, rest)
      ]
    ]

granted-AreSpaced :
    (interval : ℕ) (peer : String) (batches : List Batch) (s : Asked)
    → 0 < interval
    → All (λ (b : Batch). b.connected peer ≡ true) batches
    → IsLinked interval peer s.0 s.1
    → AreSpaced interval (granted interval peer batches s).1
unfolding granted
granted-AreSpaced interval peer [] s i c h = h.spaced
granted-AreSpaced interval peer (b ∷ batches) s i (there, c) h =
    granted-AreSpaced interval peer batches _ i c (
      ask_each-IsLinked interval peer b.at b.unknown (prune_request_times b.connected s.0, s.1) i
        (record {
          last_is = last_request-prune b.connected peer s.0 there ∙ h.last_is;
          spaced = h.spaced;
        }))

-- Over batches of requests of which none is forced, a peer that is connected at each of them is asked at
-- most once in an interval.
pub allow_request-spaced :
    (interval : ℕ) (peer : String) (batches : List Batch)
    → 0 < interval
    → All (λ (b : Batch). b.connected peer ≡ true) batches
    → AreSpaced interval (granted interval peer batches ([], [])).1
unfolding last_request
allow_request-spaced interval peer batches i c =
    granted-AreSpaced interval peer batches ([], []) i c (record { last_is = refl; spaced = tt })
