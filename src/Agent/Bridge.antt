-- ===== src/Agent/Bridge.antt =====
-- Bridging shares to another chain.
pub mod Guards
use set.Prelude.{
  ℕ, ◌*◌, ◌/◌, Bool, true, false, not, ◌&&◌, ◌||◌, Option, none, some, ltb, if◌then◌else◌,
}
use set.Prelude.Int.{ℤ, pos, pos_part, ltb_ℤ, leb_ℤ}
use set.Prelude.Text.{Text, codes, text_eq}
use set.Prelude.Number.{Number, is_integer, lt_int, gt_int}
use set.Errors.{AgentErrorCode, Thrown, agent, agent_error}
use set.Effects.{Result, ok, err, Action, pure, throw, throw_if, lift, ◌>>=◌, ◌>>◌}
use set.Math.{ray}
use set.Validation.{Ethers, validate_address, validate_positive_amount, validate_bytes32}
use set.Agent.Types.{SystemStatus, BridgeStatus, BridgeOutPreview, BridgeOutResult}
use set.Agent.Chain.{Tx, Event, Receipt, Contracts, World, read, transact}
use set.Agent.Events.{extract_text}
use set.Agent.Status.{Operation, agent_throw_if, get_system_status, assert_system_ready}
use set.Agent.Funding.{get_share_balance}
use set.Agent.Escrow.{zero_bytes32}

unfoldable pub encode_bridge_recipient_address : Ethers → Text → Result Text
encode_bridge_recipient_address ethers recipient = elim (validate_address ethers recipient) [
  | err e ↦ err e
  | ok a ↦ ok (ethers.zero_pad_value a 32)
]

unfoldable pub validate_bridge_recipient_bytes32 : Text → Result Text
validate_bridge_recipient_bytes32 recipient = elim (validate_bytes32 recipient) [
  | err e ↦ err e
  | ok normalized ↦
      if text_eq normalized zero_bytes32
      then err (
          agent (
            agent_error AgentErrorCode.invalid_bridge_request
              (codes "Bridge recipient cannot be zero")))
      else ok normalized
]

unfoldable pub validate_dst_chain : Number → Result Number
validate_dst_chain dst_chain =
    if not (is_integer dst_chain) || lt_int dst_chain (pos 0) || gt_int dst_chain (pos 0xffffffff)
    then err (
        agent (
          agent_error AgentErrorCode.invalid_bridge_request
            (codes "Destination chain must be a uint32 integer")))
    else ok dst_chain

-- `(shares * navRay) / RAY`, or 0 at a NAV of 0; the number of shares is positive.
abbrev pub assets_equivalent_of : ℕ → ℤ → ℕ
assets_equivalent_of nav_ray shares = if ltb 0 nav_ray then pos_part shares * nav_ray / ray else 0

module _ {E : Type 0} (c : Contracts E) where
  unfoldable pub preview_bridge_transfer :
      Number → Text → Text → ℤ → Action (World E) BridgeOutPreview
  preview_bridge_transfer dst_chain recipient recipient_bytes32 shares = do
    lift (validate_positive_amount shares)
    valid_dst_chain ← lift (validate_dst_chain dst_chain)
    system ← get_system_status c
    paused ← read c c.bridge_paused
    peer ← read c (c.trusted_peer valid_dst_chain)
    can ← read c (c.can_bridge valid_dst_chain shares)
    balance ← get_share_balance c
    outstanding ← read c c.outstanding_shares
    most ← read c c.max_outstanding_shares
    remaining ← read c c.remaining_mint_capacity_shares
    pure (record {
      status = record {
        bridge_paused = paused;
        bridging_allowed = system.bridging_allowed;
        bridge_mint_allowed = system.bridge_mint_allowed;
        outstanding_shares = outstanding;
        max_outstanding_shares = most;
        remaining_mint_capacity_shares = remaining;
      };
      dst_chain = valid_dst_chain;
      recipient = recipient;
      recipient_bytes32 = recipient_bytes32;
      shares = shares;
      assets_equivalent = assets_equivalent_of system.nav_ray shares;
      share_balance = balance;
      trusted_peer = peer;
      route_trusted = not (text_eq peer zero_bytes32);
      contract_can_bridge = can;
      can_bridge_now = system.bridging_allowed && can && leb_ℤ shares (pos balance);
    })

  unfoldable pub get_bridge_status : Action (World E) BridgeStatus
  get_bridge_status = do
    system ← get_system_status c
    paused ← read c c.bridge_paused
    outstanding ← read c c.outstanding_shares
    most ← read c c.max_outstanding_shares
    remaining ← read c c.remaining_mint_capacity_shares
    pure (record {
      bridge_paused = paused;
      bridging_allowed = system.bridging_allowed;
      bridge_mint_allowed = system.bridge_mint_allowed;
      outstanding_shares = outstanding;
      max_outstanding_shares = most;
      remaining_mint_capacity_shares = remaining;
    })

  unfoldable pub preview_bridge_out : Number → Text → ℤ → Action (World E) BridgeOutPreview
  preview_bridge_out dst_chain recipient_bytes32 shares = do
    normalized ← lift (validate_bridge_recipient_bytes32 recipient_bytes32)
    preview_bridge_transfer dst_chain normalized normalized shares

  unfoldable pub preview_bridge_to_address : Number → Text → ℤ → Action (World E) BridgeOutPreview
  preview_bridge_to_address dst_chain recipient shares = do
    normalized ← lift (validate_address c.ethers recipient)
    bytes ← lift (encode_bridge_recipient_address c.ethers normalized)
    preview_bridge_transfer dst_chain normalized bytes shares

  -- What `bridgeOut` and `bridgeToAddress` do with their preview.
  unfoldable pub bridge_with : BridgeOutPreview → Number → ℤ → Action (World E) BridgeOutResult
  bridge_with preview dst_chain shares = do
    assert_system_ready c Operation.bridge
    agent_throw_if (not preview.route_trusted || not preview.contract_can_bridge)
        AgentErrorCode.bridge_route_unavailable (codes "Bridge route is not available")
    agent_throw_if (ltb_ℤ (pos preview.share_balance) shares) AgentErrorCode.insufficient_shares
        (codes "Bridge requires more shares than the wallet holds")
    receipt ← transact c (Tx.bridge_out dst_chain preview.recipient_bytes32 shares)
    msg_id ← lift (extract_text c receipt Event.bridge_out (codes "msgId"))
    pure (record {
      tx_hash = receipt.hash;
      msg_id = msg_id;
      dst_chain = dst_chain;
      recipient = preview.recipient;
      recipient_bytes32 = preview.recipient_bytes32;
      shares_burned = shares;
    })

  unfoldable pub bridge_out : Number → Text → ℤ → Action (World E) BridgeOutResult
  bridge_out dst_chain recipient_bytes32 shares = do
    preview ← preview_bridge_out dst_chain recipient_bytes32 shares
    bridge_with preview dst_chain shares

  unfoldable pub bridge_to_address : Number → Text → ℤ → Action (World E) BridgeOutResult
  bridge_to_address dst_chain recipient shares = do
    preview ← preview_bridge_to_address dst_chain recipient shares
    bridge_with preview dst_chain shares
