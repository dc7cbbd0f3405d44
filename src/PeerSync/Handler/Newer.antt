-- ===== src/PeerSync/Handler/Newer.antt =====
-- What a message can do to the record of a peer.
use peerswap.Prelude.{
  ℕ, ◌≤◌, ◌≡◌, ◌≢◌, refl, sym, ap, ◌∙◌, Bool, true, false, List, Option, none, some, ◌⊎◌, inl, inr,
  arith, ltb, Bool-cases, Option-cases, subst, if_rule,
}
use peerswap.Prelude.Text.{String, codes}
use peerswap.Prelude.Equality.{◌==◌, nat_eq}
use peerswap.Messages.{messagetype_poll, messagetype_request_poll}
use peerswap.Swap.Error.{Error, ok, Result-cases}
use peerswap.Bolt.{
  Bolt, IsBolt, Transactions, does_not_exist, ◌>>◌, Answer, gives, fails, opened, of_result, gave,
  of_result-gives, same_answer,
}
use peerswap.PeerSync.{Peer, PeerCapability, new_peer, update_capability}
use peerswap.PeerSync.Snapshot.{to_capability}
use peerswap.PeerSync.Record.{PeerRecord, to_peer, peer_to_record}
use peerswap.PeerSync.Poller.{merge_capabilities}
use peerswap.PeerSync.Handler.{
  PeerJson, peer_found, get_peer_state, save_peer_state, or_new, merged, with_capability, kept,
  store_capability_message, process_message,
}

-- A version is at least the one of a capability, if there is one.
abbrev pub NotOlder : Option PeerCapability → ℕ → Type 0
NotOlder none v = Unit
NotOlder (some c) v = c.version ≤ v

-- Of which peer a record is written: of the one whose record was at the sender's key, or of the sender,
-- if nothing was at its key.
pub data IsOfSender (b : Bolt) (json : PeerJson) (from : String) (s : b.St) (peer : Peer)
    (version : ℕ) : Type 0 where
  stored_before :
      (bytes : List ℕ) (r : PeerRecord) (old : Peer)
      → b.get (codes from) s ≡ some bytes
      → json.unmarshal bytes ≡ ok r
      → to_peer from r ≡ ok old
      → peer.id ≡ old.id
      → NotOlder old.capability version
      → IsOfSender b json from s peer version
  first_seen : b.get (codes from) s ≡ none → peer.id ≡ from → IsOfSender b json from s peer version

-- The record of the sender is written, with a capability that is no older than the one that was there.
pub record IsNewer (b : Bolt) (tx : Transactions) (json : PeerJson) (from : String) (s t : b.St)
    : Type 0 where
  pub peer : Peer
  pub capability : PeerCapability
  pub bytes : List ℕ
  pub has_capability : peer.capability ≡ some capability
  pub written : json.marshal (peer_to_record peer) ≡ ok bytes
  pub stored : b.get (codes peer.id) t ≡ some bytes
  pub elsewhere : (k : List ℕ) → k ≢ codes peer.id → b.get k t ≡ b.get k s
  pub of_sender : IsOfSender b json from s peer capability.version

-- A merge with a capability gives one that is no older.
record Merges (p q : Peer) : Type 0 where
  new : PeerCapability
  has : q.capability ≡ some new
  same_id : q.id ≡ p.id
  newer : NotOlder p.capability new.version

updated-Merges :
    (now : ℕ) (new : PeerCapability) (p : Peer)
    → NotOlder p.capability new.version
    → Merges p (update_capability now new p)
updated-Merges now new p h = record { new = new; has = refl; same_id = refl; newer = h }

module _ (b : Bolt) (laws : IsBolt b) (tx : Transactions) (json : PeerJson) where
  merged_is :
      (now : ℕ) (c : PeerCapability) (p : Peer) (o : Option PeerCapability) (new : PeerCapability)
      → p.capability ≡ o
      → merge_capabilities o (some c) ≡ some new
      → merged b tx json now c p ≡ update_capability now new p
  merged_is now c p o new h is =
      ap (with_capability b tx json now p) (ap (λ x. merge_capabilities x (some c)) h ∙ is)

  merged-Merges : (now : ℕ) (c : PeerCapability) (p : Peer) → Merges p (merged b tx json now c p)
  unfolding merge_capabilities
  merged-Merges now c p = elim (Option-cases p.capability) [
    | inl nothing ↦
        subst (Merges p) (sym (merged_is now c p none c nothing refl))
          (updated-Merges now c p (subst (λ o. NotOlder o c.version) (sym nothing) tt))
    | inr (l, is) ↦ elim (Bool-cases (ltb c.version l.version)) [
      | inl older ↦
          subst (Merges p) (sym (merged_is now c p (some l) l is (rw older)))
            (updated-Merges now l p (subst (λ o. NotOlder o l.version) (sym is) (omega arith)))
      | inr newer ↦
          subst (Merges p) (sym (merged_is now c p (some l) c is (rw newer)))
            (updated-Merges now c p (subst (λ o. NotOlder o c.version) (sym is) (ground arith)))
    ]
  ]

  -- A record that was found, and one that is missing.
  found-bytes :
      (from : String) (o : Option (List ℕ)) (old : Peer)
      → peer_found b tx json from o ≡ gives old
      → (bytes : List ℕ) × (r : PeerRecord) × (o ≡ some bytes)
        × (json.unmarshal bytes ≡ ok r)
        × (to_peer from r ≡ ok old)
  found-bytes from none old h = ground arith
  found-bytes from (some bytes) old h =
      let (r, read, made) = gave (of_result (json.unmarshal bytes)) _ old h in
      (bytes, r, refl, of_result-gives _ _ read, of_result-gives _ _ made)

  missing-bytes :
      (began : Option Error) (from : String) (o : Option (List ℕ))
      → (opened began >> peer_found b tx json from o) ≡ fails does_not_exist
      → o ≡ none
  missing-bytes began from none h = refl
  missing-bytes (some e) from (some bytes) h = ground arith
  missing-bytes none from (some bytes) h = elim (Result-cases (json.unmarshal bytes)) [
    | inl (e, bad) ↦ ground (arith, h, bad)
    | inr (r, read) ↦ elim (Result-cases (to_peer from r)) [
      | inl (e, bad) ↦ ground (arith, h, read, bad)
      | inr (p, made) ↦ ground (arith, h, read, made)
    ]
  ]

  -- The peer to which a message is merged.
  found-IsOfSender :
      (from : String) (o : Answer Peer) (p q : Peer) (version : ℕ) (s : b.St)
      → get_peer_state b tx json from s ≡ o
      → or_new b tx json from o ≡ gives p
      → q.id ≡ p.id
      → NotOlder p.capability version
      → IsOfSender b json from s q version
  unfolding get_peer_state
  found-IsOfSender from (gives old) p q v s is found id newer =
      let same = same_answer p old (sym found) in
      let (u, began, looked) = gave (opened (tx.begin 0)) _ old is in
      let (bytes, r, there, read, made) = found-bytes from (b.get (codes from) s) old looked in
      IsOfSender.stored_before bytes r old there read made (id ∙ ap (λ (x : Peer). x.id) same)
        (subst (λ (x : Peer). NotOlder x.capability v) same newer)
  found-IsOfSender from (fails does_not_exist) p q v s is found id newer =
      let same = same_answer p (new_peer from "") (sym found) in
      IsOfSender.first_seen (missing-bytes (tx.begin 0) from (b.get (codes from) s) is)
        (id ∙ ap (λ (x : Peer). x.id) same)
  found-IsOfSender from (fails e) p q v s is found id newer = ground arith

  saved-IsNewer :
      (from : String) (p q : Peer) (s t : b.St)
      → or_new b tx json from (get_peer_state b tx json from s) ≡ gives p
      → Merges p q
      → save_peer_state b tx json q s ≡ gives t
      → IsNewer b tx json from s t
  unfolding save_peer_state
  saved-IsNewer from p q s t found m h =
      let (bytes, marshalled, h1) = gave (of_result (json.marshal (peer_to_record q))) _ t h in
      let (u, began, h2) = gave (opened (tx.begin 1)) _ t h1 in
      let (t', put_is, h3) = gave (of_result (b.put (codes q.id) bytes s)) _ t h2 in
      let (c, committed, h4) = gave (opened (tx.commit 1)) _ t h3 in
      let put_is' : b.put (codes q.id) bytes s ≡ ok t =
        of_result-gives _ _ put_is ∙ ap ok (same_answer t' t h4) in
      record {
        peer = q;
        capability = m.new;
        bytes = bytes;
        has_capability = m.has;
        written = of_result-gives _ _ marshalled;
        stored = laws.get-put (codes q.id) bytes s t put_is';
        elsewhere = λ k other. laws.get-put_other (codes q.id) bytes k s t put_is' other;
        of_sender =
            found-IsOfSender from (get_peer_state b tx json from s) p q m.new.version s refl found
              m.same_id m.newer;
      }

  stored-IsNewer :
      (suspicious : Bool) (now : ℕ) (from : String) (payload : List ℕ) (s t : b.St)
      → store_capability_message b tx json suspicious now from payload s ≡ gives t
      → (t ≡ s) ⊎ ((suspicious ≡ false) × IsNewer b tx json from s t)
  unfolding store_capability_message
  stored-IsNewer true now from payload s t h =
      let (snapshot, decoded, h1) = gave (of_result (json.decode payload)) _ t h in
      let (c, read, h2) = gave (of_result (to_capability now snapshot)) _ t h1 in
      inl (sym (same_answer s t h2))
  stored-IsNewer false now from payload s t h =
      let (snapshot, decoded, h1) = gave (of_result (json.decode payload)) _ t h in
      let (c, read, h2) = gave (of_result (to_capability now snapshot)) _ t h1 in
      let (p, found, h3) = gave (or_new b tx json from (get_peer_state b tx json from s)) _ t h2 in
      inr
        (refl, saved-IsNewer from p (merged b tx json now c p) s t found (merged-Merges now c p) h3)

  kept-IsNewer :
      (suspicious : Bool) (from : String) (s : b.St) (o : Answer b.St)
      → ((t : b.St) → o ≡ gives t → (t ≡ s) ⊎ ((suspicious ≡ false) × IsNewer b tx json from s t))
      → (kept b tx json s o ≡ s)
        ⊎ ((suspicious ≡ false) × IsNewer b tx json from s (kept b tx json s o))
  kept-IsNewer suspicious from s (gives t) h = h t refl
  kept-IsNewer suspicious from s (fails e) h = inl refl

-- What becomes of a message: the store stays, or it has a newer record of the sender, who is not
-- suspicious; only a request of such a sender is answered.
pub record IsHandled (b : Bolt) (tx : Transactions) (json : PeerJson) (suspicious : Bool)
    (from : String) (type : ℕ) (s : b.St) (out : b.St × Bool) : Type 0 where
  pub keeps : (out.0 ≡ s) ⊎ ((suspicious ≡ false) × IsNewer b tx json from s out.0)
  pub answers : out.1 ≡ true → (suspicious ≡ false) × (type ≡ messagetype_request_poll)

-- A message leaves the store of peers as it is, or its sender is not suspicious and the record of one
-- peer is written: the peer of the record that was stored under the sender's id, or the sender itself if
-- none was. Then the record has a capability that is no older than the one that was there, and all other
-- records stay. Only a request of a sender that is not suspicious is answered with a poll.
pub process_message-IsHandled :
    (b : Bolt) (tx : Transactions) (json : PeerJson) (suspicious : Bool) (now : ℕ) (from : String)
    (type : ℕ) (payload : List ℕ) (s : b.St)
    → IsBolt b
    → IsHandled b tx json suspicious from type s
        (process_message b tx json suspicious now from type payload s)
unfolding process_message
process_message-IsHandled b tx json suspicious now from type payload s laws =
    let o = store_capability_message b tx json suspicious now from payload s in
    let k =
      kept-IsNewer b laws tx json suspicious from s o
        (stored-IsNewer b laws tx json suspicious now from payload s) in
    let handled : b.St × Bool → Type 0 = IsHandled b tx json suspicious from type s in
    let still : handled (s, false) = record { keeps = inl refl; answers = λ h. ground arith } in
    if_rule handled (type == messagetype_poll) _ _
      (λ _. record { keeps = k; answers = λ h. ground arith })
      λ _.
        if_rule handled (type == messagetype_request_poll) _ _
          (λ is.
            if_rule handled suspicious _ _ (λ _. still)
              (λ calm. record {
                keeps = k;
                answers = λ _. (calm, (nat_eq.agrees type messagetype_request_poll).0 is);
              }))
          (λ _. still)
