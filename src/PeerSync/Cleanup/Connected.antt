-- ===== src/PeerSync/Cleanup/Connected.antt =====
-- What a sweep does to the records of the peers.
use peerswap.Prelude.{
  ℕ, ◌≡◌, ◌≢◌, sym, ap, ◌∙◌, Bool, true, false, List, [], ◌∷◌, Option, none, some, ◌⊎◌, inl, inr,
  arith, Bool-cases, subst, if_rule,
}
use peerswap.Prelude.Equality.{◌==◌, nat_eq, list_eq}
use peerswap.Prelude.Text.{String}
use peerswap.Swap.Error.{ok, err}
use peerswap.Bolt.{
  Bolt, IsBolt, Transactions, gives, fails, store_error, opened, of_result, gave, of_result-gives,
  same_answer,
}
use peerswap.PeerSync.{Peer, is_expired, check_and_update_status}
use peerswap.PeerSync.Record.{PeerRecord, to_peer, peer_to_record}
use peerswap.PeerSync.Handler.{PeerJson}
use peerswap.PeerSync.Sweep.{Round, connected_peers}
use peerswap.PeerSync.Cleanup.{
  should_keep_peer, persist_peer, renewed, process_peer_record, sweep_one, sweep_each,
  cleanup_expired_except, cleanup_expired,
}

-- The bytes at a key after an expired peer was removed, or another one was written again.
pub data IsRenewed (json : PeerJson) (round : Round) (p : Peer) (now : Option (List ℕ))
    : Type 0 where
  removed : is_expired round.now round.timeout p ≡ true → now ≡ none → IsRenewed json round p now
  rewritten :
      (bytes : List ℕ)
      → is_expired round.now round.timeout p ≡ false
      → json.marshal (peer_to_record p) ≡ ok bytes
      → now ≡ some bytes
      → IsRenewed json round p now

-- An entry at the key that was read, of a peer that need not stay.
pub record IsMet (json : PeerJson) (round : Round) (keep : List String) (k : List ℕ)
    (now : Option (List ℕ)) (e : List ℕ × List ℕ) : Type 0 where
  pub key : e.0 ≡ k
  pub not_kept : should_keep_peer keep (round.key_text k) ≡ false
  pub written : PeerRecord
  pub peer : Peer
  pub read : json.unmarshal e.1 ≡ ok written
  pub made : to_peer (round.key_text k) written ≡ ok peer
  pub outcome : IsRenewed json round peer now

pub data Some (P : List ℕ × List ℕ → Type 0) : List (List ℕ × List ℕ) → Type 0 where
  this : (e : List ℕ × List ℕ) (es : List (List ℕ × List ℕ)) → P e → Some P (e ∷ es)
  later : (e : List ℕ × List ℕ) (es : List (List ℕ × List ℕ)) → Some P es → Some P (e ∷ es)

-- A peer that is not expired keeps its status.
status_stays :
    (now timeout : ℕ) (p : Peer)
    → is_expired now timeout p ≡ false
    → check_and_update_status now timeout p ≡ p
unfolding check_and_update_status
status_stays now timeout p h = rw h

module _ (b : Bolt) (laws : IsBolt b) (tx : Transactions) (json : PeerJson) (round : Round) where
  -- The key of the peer has what it should, all others are as before.
  record At (key : List ℕ) (p : Peer) (s t : b.St) : Type 0 where
    at_key : IsRenewed json round p (b.get key t)
    elsewhere : (k : List ℕ) → k ≢ key → b.get k t ≡ b.get k s

  renewed-At :
      (key : List ℕ) (p : Peer) (s : b.St) (out : b.St × Bool)
      → renewed b tx json round.now round.timeout key p s ≡ gives out
      → At key p s out.0
  unfolding renewed persist_peer
  renewed-At key p s out =
      if_rule (λ o. o ≡ gives out → At key p s out.0) (is_expired round.now round.timeout p) _ _
        (λ late h.
          let (t, deleted, h1) = gave (of_result (b.delete key s)) _ out h in
          let is : b.delete key s ≡ ok out.0 =
            of_result-gives _ _ deleted ∙ ap ok (ap (λ x. x.0) (same_answer _ _ h1)) in
          record {
            at_key = IsRenewed.removed late (laws.get-delete key s out.0 is);
            elsewhere = λ k. laws.get-delete_other key k s out.0 is;
          })
        (λ early h.
          let q = check_and_update_status round.now round.timeout p in
          let (t, persisted, h1) =
            gave (persist_peer b tx json key q s) (λ u. gives (u, false)) out h in
          let (bytes, marshalled, h2) =
            gave (of_result (json.marshal (peer_to_record q))) _ t persisted in
          let is : b.put key bytes s ≡ ok out.0 =
            of_result-gives _ _ h2 ∙ ap ok (ap (λ x. x.0) (same_answer _ _ h1)) in
          record {
            at_key =
                IsRenewed.rewritten bytes early
                  (ap (λ q. json.marshal (peer_to_record q))
                      (sym (status_stays round.now round.timeout p early))
                    ∙ of_result-gives _ _ marshalled)
                  (laws.get-put key bytes s out.0 is);
            elsewhere = λ k. laws.get-put_other key bytes k s out.0 is;
          })

  module _ (keep : List String) (k : List ℕ) where
    abbrev Swept : List (List ℕ × List ℕ) → b.St → b.St → Type 0
    Swept es s t = (b.get k t ≡ b.get k s) ⊎ Some (IsMet json round keep k (b.get k t)) es

    record One (e : List ℕ × List ℕ) (s t : b.St) : Type 0 where
      does : (b.get k t ≡ b.get k s) ⊎ IsMet json round keep k (b.get k t) e

    processed-One :
        (e : List ℕ × List ℕ) (s : b.St) (out : b.St × Bool)
        → should_keep_peer keep (round.key_text e.0) ≡ false
        → process_peer_record b tx json round e s ≡ gives out
        → One e s out.0
    unfolding process_peer_record
    processed-One e s out not_kept h =
        let (r, read, h1) = gave (of_result (json.unmarshal e.1)) _ out h in
        let (p, made, h2) = gave (of_result (to_peer (round.key_text e.0) r)) _ out h1 in
        let a = renewed-At e.0 p s out h2 in
        record {
          does = elim (Bool-cases (e.0 == k)) [
            | inl same ↦
                let key : e.0 ≡ k = (list_eq.agrees e.0 k).0 same in
                inr record {
                  key = key;
                  not_kept =
                      ap (λ j. should_keep_peer keep (round.key_text j)) (sym key) ∙ not_kept;
                  written = r;
                  peer = p;
                  read = of_result-gives _ _ read;
                  made =
                      ap (λ j. to_peer (round.key_text j) r) (sym key) ∙ of_result-gives _ _ made;
                  outcome = subst (λ j. IsRenewed json round p (b.get j out.0)) key a.at_key;
                }
            | inr other ↦
                inl (a.elsewhere k (λ same. cc (other, (list_eq.agrees e.0 k).1 (sym same))))
          ];
        }

    sweep_one-One :
        (e : List ℕ × List ℕ) (at out : b.St × ℕ)
        → sweep_one b tx json round keep e at ≡ gives out
        → One e at.0 out.0
    sweep_one-One e (s, n) out =
        let kept = should_keep_peer keep (round.key_text e.0) in
        if_rule (λ o. o ≡ gives out → One e s out.0) kept _ _
          (λ _ h. record { does = inl (ap (λ x. b.get k x.0) (sym (same_answer _ _ h))) })
          (λ not_kept h.
            let (q, processed, h1) = gave (process_peer_record b tx json round e s) _ out h in
            subst (λ t. One e s t) (ap (λ x. x.0) (same_answer _ _ h1))
              (processed-One e s q not_kept processed))

    join :
        (e : List ℕ × List ℕ) (es : List (List ℕ × List ℕ)) (s t u : b.St)
        → One e s t
        → Swept es t u
        → Swept (e ∷ es) s u
    join e es s t u one (inr met) = inr (Some.later e es met)
    join e es s t u one (inl stays) = elim one.does [
      | inl same ↦ inl (stays ∙ same)
      | inr met ↦
          inr (Some.this e es (subst (λ now. IsMet json round keep k now e) (sym stays) met))
    ]

    each-Swept :
        (es : List (List ℕ × List ℕ)) (at out : b.St × ℕ)
        → sweep_each b tx json round keep es at ≡ gives out
        → Swept es at.0 out.0
    each-Swept [] at out h = inl (ap (λ x. b.get k x.0) (sym (same_answer _ _ h)))
    each-Swept (e ∷ es) at out h =
        let (next, one, rest) = gave (sweep_one b tx json round keep e at) _ out h in
        join e es at.0 next.0 out.0 (sweep_one-One e at next one) (each-Swept es next out rest)

    except-Swept :
        (s : b.St) (out : b.St × ℕ)
        → cleanup_expired_except b tx json round keep s ≡ gives out
        → Swept (b.entries s) s out.0
    unfolding cleanup_expired_except
    except-Swept s out =
        if_rule (λ o. o ≡ gives out → Swept (b.entries s) s out.0) (round.timeout == 0) _ _
          (λ _ h. ground arith)
          (λ _ h.
            let (u, began, h1) = gave (opened (tx.begin 0)) _ out h in
            let (q, swept, h2) =
              gave (sweep_each b tx json round keep (b.entries s) (s, 0)) _ out h1 in
            let (c, committed, h3) = gave (opened (tx.commit 0)) _ out h2 in
            subst (λ (x : b.St × ℕ). Swept (b.entries s) s x.0) (same_answer q out h3)
              (each-Swept (b.entries s) (s, 0) q swept))

-- When the sweep of the poller succeeds, the bytes at a key are as before, or an entry of the store at
-- that key is of a peer that is not connected: then it is removed if it is expired, and else written
-- again as the record of the same peer. The bucket keeps the promises of bbolt.
pub cleanup_expired-spares :
    (b : Bolt) (tx : Transactions) (json : PeerJson) (round : Round) (connected : List String)
    (s : b.St) (out : b.St × ℕ) (k : List ℕ)
    → IsBolt b
    → round.list_peers ≡ ok connected
    → cleanup_expired b tx json round s ≡ gives out
    → (b.get k out.0 ≡ b.get k s)
      ⊎ Some (IsMet json round (connected_peers connected) k (b.get k out.0)) (b.entries s)
unfolding cleanup_expired
cleanup_expired-spares b tx json round connected s out k laws listed h =
    except-Swept b laws tx json round (connected_peers connected) k s out (
      subst
        (λ l.
          elim l [
            | err e ↦ fails (store_error e)
            | ok c ↦ cleanup_expired_except b tx json round (connected_peers c) s
          ]
          ≡ gives out)
        listed h)
