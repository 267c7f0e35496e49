-- ===== src/Agent/Bridge/Guards.antt =====
-- What a bridge transfer has passed before it is sent.
use set.Prelude.{ℕ, Bool, true, false, not, ◌≡◌, ◌⊎◌, inl, inr, List, ◌∷◌, arith, Bool-cases}
use set.Prelude.Int.{ℤ, pos, ◌≤ℤ◌, leb_ℤ, ltb_ℤ}
use set.Prelude.Text.{Text, text_eq}
use set.Prelude.Number.{Number, is_integer, lt_int, gt_int}
use set.Effects.{ok, outcome_cases, result_cases}
use set.Validation.{validate_positive_amount}
use set.Agent.Types.{SystemStatus, BridgeOutPreview}
use set.Agent.Chain.{Tx, Contracts, World, read}
use set.Agent.Status.{Operation, assert_system_ready, get_system_status}
use set.Agent.Status.Guards.{
  assert_system_ready_iff, assert_system_ready-Quiet, get_system_status-Quiet,
}
use set.Agent.Funding.{get_share_balance}
use set.Agent.Funding.Traces.{Ready, transact_sends}
use set.Agent.Escrow.{zero_bytes32}
use set.Agent.Bridge.{
  validate_dst_chain, validate_bridge_recipient_bytes32, preview_bridge_transfer,
  preview_bridge_out, bridge_with, bridge_out,
}

module _ {E : Type 0} (c : Contracts E) where
  -- The three reads of the bridge's limits.
  abbrev pub Limits : World E → World E → Type 0
  Limits w w' =
      (out most remaining : ℕ) × (u v : World E) × (read c c.outstanding_shares w ≡ (ok out, u))
      × (read c c.max_outstanding_shares u ≡ (ok most, v))
      × (read c c.remaining_mint_capacity_shares v ≡ (ok remaining, w'))

  -- The arguments of a preview are valid, and what it has read, one after the other.
  pub record Quoted (dst_chain : Number) (shares : ℤ) (w w' : World E) : Type 0 where
    pub whole : is_integer dst_chain ≡ true
    pub at_least : lt_int dst_chain (pos 0) ≡ false
    pub at_most : gt_int dst_chain (pos 0xffffffff) ≡ false
    pub positive : pos 1 ≤ℤ shares
    pub system : SystemStatus
    pub paused : Bool
    pub peer : Text
    pub can : Bool
    pub balance : ℕ
    pub w1 : World E
    pub w2 : World E
    pub w3 : World E
    pub w4 : World E
    pub w5 : World E
    pub system_read : get_system_status c w ≡ (ok system, w1)
    pub paused_read : read c c.bridge_paused w1 ≡ (ok paused, w2)
    pub peer_read : read c (c.trusted_peer dst_chain) w2 ≡ (ok peer, w3)
    pub can_read : read c (c.can_bridge dst_chain shares) w3 ≡ (ok can, w4)
    pub balance_read :
        read c (c.balance_of c.addresses.vault c.signer_address) w4 ≡ (ok balance, w5)
    pub limits_read : Limits w5 w'

  -- What a preview says of what it has read.
  pub record Previews (bytes : Text) (p : BridgeOutPreview) (peer : Text) (can : Bool) (balance : ℕ)
      : Type 0 where
    pub to : p.recipient_bytes32 ≡ bytes
    pub trusted : p.route_trusted ≡ not (text_eq peer zero_bytes32)
    pub allowed : p.contract_can_bridge ≡ can
    pub owned : p.share_balance ≡ balance

  preview_bridge_transfer-Quiet :
      (dst_chain : Number) (recipient bytes : Text) (shares : ℤ) (w : World E)
      → (preview_bridge_transfer c dst_chain recipient bytes shares w).1.sent ≡ w.sent
  unfolding preview_bridge_transfer validate_positive_amount get_share_balance
  preview_bridge_transfer-Quiet dst_chain recipient bytes shares w =
      elim (Bool-cases (leb_ℤ shares (pos 0))) [
        | inl n ↦ ground arith
        | inr n ↦ elim (result_cases (validate_dst_chain dst_chain)) [
          | inr (x, d) ↦ ground arith
          | inl (chain, d) ↦ elim (outcome_cases (get_system_status c w)) [
            | inr (x, u, p) ↦ ground (arith, get_system_status-Quiet c w)
            | inl (system, u, p) ↦ ground (arith, get_system_status-Quiet c w)
          ]
        ]
      ]

  preview_bridge_transfer_ok :
      (dst_chain : Number) (recipient bytes : Text) (shares : ℤ) (w w' : World E)
      (p : BridgeOutPreview)
      → preview_bridge_transfer c dst_chain recipient bytes shares w ≡ (ok p, w')
      → (q : Quoted dst_chain shares w w') × Previews bytes p
          (Quoted.peer q)
          (Quoted.can q)
          (Quoted.balance q)
  unfolding preview_bridge_transfer validate_positive_amount get_share_balance validate_dst_chain
  preview_bridge_transfer_ok dst_chain recipient bytes shares w w' p h =
      elim (outcome_cases (get_system_status c w)) [
        | inr (x, u, q) ↦ ground arith
        | inl (system, w1, q1) ↦ elim (outcome_cases (read c c.bridge_paused w1)) [
          | inr (x, u, q) ↦ ground arith
          | inl (paused, w2, q2) ↦ elim (outcome_cases (read c (c.trusted_peer dst_chain) w2)) [
            | inr (x, u, q) ↦ ground arith
            | inl (peer, w3, q3) ↦
                elim (outcome_cases (read c (c.can_bridge dst_chain shares) w3)) [
                  | inr (x, u, q) ↦ ground arith
                  | inl (can, w4, q4) ↦
                      elim (outcome_cases
                        (read c (c.balance_of c.addresses.vault c.signer_address) w4)) [
                          | inr (x, u, q) ↦ ground arith
                          | inl (balance, w5, q5) ↦
                              elim (outcome_cases (read c c.outstanding_shares w5)) [
                                | inr (x, u, q) ↦ ground arith
                                | inl (out, w6, q6) ↦
                                    elim (outcome_cases (read c c.max_outstanding_shares w6)) [
                                      | inr (x, u, q) ↦ ground arith
                                      | inl (most, w7, q7) ↦
                                          elim (outcome_cases
                                            (read c c.remaining_mint_capacity_shares w7)) [
                                              | inr (x, u, q) ↦ ground arith
                                              | inl (remaining, w8, q8) ↦ (
                                                record {
                                                  whole = ground arith;
                                                  at_least = ground arith;
                                                  at_most = ground arith;
                                                  positive = ground arith;
                                                  system = system;
                                                  paused = paused;
                                                  peer = peer;
                                                  can = can;
                                                  balance = balance;
                                                  w1 = w1;
                                                  w2 = w2;
                                                  w3 = w3;
                                                  w4 = w4;
                                                  w5 = w5;
                                                  system_read = q1;
                                                  paused_read = q2;
                                                  peer_read = q3;
                                                  can_read = q4;
                                                  balance_read = q5;
                                                  limits_read = (
                                                    out,
                                                    most,
                                                    remaining,
                                                    w6,
                                                    w7,
                                                    q6,
                                                    q7,
                                                    ground arith,
                                                  );
                                                },
                                                record {
                                                  to = ground arith;
                                                  trusted = ground arith;
                                                  allowed = ground arith;
                                                  owned = ground arith;
                                                },
                                              )
                                            ]
                                    ]
                              ]
                        ]
                ]
          ]
        ]
      ]

  -- What a transfer that is sent has passed: the arguments are valid; and by what was read, one after the
  -- other, the route has a trusted peer and is open for the shares, the wallet holds them, and the system,
  -- read once more, is ready for bridging.
  pub record Bridges (dst_chain : Number) (recipient : Text) (shares : ℤ) (w : World E)
      (sent' : List Tx) : Type 0 where
    pub bytes : Text
    pub seen : World E
    pub named : validate_bridge_recipient_bytes32 recipient ≡ ok bytes
    pub quoted : Quoted dst_chain shares w seen
    pub routed : text_eq (Quoted.peer quoted) zero_bytes32 ≡ false
    pub is_open : Quoted.can quoted ≡ true
    pub held : shares ≤ℤ pos (Quoted.balance quoted)
    pub is_ready : Ready c Operation.bridge seen
    pub still : seen.sent ≡ w.sent
    pub trace : sent' ≡ Tx.bridge_out dst_chain bytes shares ∷ w.sent

  -- `bridgeOut` sends nothing, or one transfer of the shares to the recipient after it has passed all
  -- its guards.
  pub bridge_out_trace :
      (dst_chain : Number) (recipient : Text) (shares : ℤ) (w : World E)
      → ((bridge_out c dst_chain recipient shares w).1.sent ≡ w.sent)
        ⊎ Bridges dst_chain recipient shares w (bridge_out c dst_chain recipient shares w).1.sent
  unfolding bridge_out preview_bridge_out bridge_with
  bridge_out_trace dst_chain recipient shares w =
      elim (result_cases (validate_bridge_recipient_bytes32 recipient)) [
        | inr (x, a) ↦ inl (ground arith)
        | inl (bytes, a) ↦
            elim (outcome_cases (preview_bridge_transfer c dst_chain bytes bytes shares w)) [
              | inr (x, u, p) ↦
                  inl (ground (arith, preview_bridge_transfer-Quiet dst_chain bytes bytes shares w))
              | inl (preview, u, p) ↦
                  let (reads, q) =
                    preview_bridge_transfer_ok dst_chain bytes bytes shares w u preview p in
                  let quiet = preview_bridge_transfer-Quiet dst_chain bytes bytes shares w in
                  elim (outcome_cases (assert_system_ready c Operation.bridge u)) [
                    | inr (x, v, r) ↦
                        inl (ground (arith, quiet, assert_system_ready-Quiet c Operation.bridge u))
                    | inl (x, v, r) ↦
                        let (system, s, fresh, free) =
                          (assert_system_ready_iff c Operation.bridge u v).0 r in
                        let same : v.sent ≡ w.sent =
                          ground (arith, quiet, assert_system_ready-Quiet c Operation.bridge u) in
                        elim (Bool-cases preview.route_trusted) [
                          | inr n ↦ inl (ground arith)
                          | inl routed ↦ elim (Bool-cases preview.contract_can_bridge) [
                            | inr n ↦ inl (ground arith)
                            | inl is_open ↦
                                elim (Bool-cases (ltb_ℤ (pos preview.share_balance) shares)) [
                                  | inl n ↦ inl (ground arith)
                                  | inr held ↦ inr (record {
                                    bytes = bytes;
                                    seen = u;
                                    named = a;
                                    quoted = reads;
                                    routed = ground (arith, q.trusted);
                                    is_open = ground (arith, q.allowed);
                                    held = ground (arith, q.owned);
                                    is_ready = (system, v, s, fresh, free);
                                    still = ground (arith, quiet);
                                    trace = ground (
                                      arith,
                                      transact_sends c (Tx.bridge_out dst_chain bytes shares) v,
                                      q.to,
                                    );
                                  })
                                ]
                          ]
                        ]
                  ]
            ]
      ]
