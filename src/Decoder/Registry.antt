-- ===== src/Decoder/Registry.antt =====
-- indexer/decoder/registry.go: the codec of each message type. `lookup` is a match on the
-- constructors, as the registry is a map from the concrete types, filled once.
use spectra_gnoland_indexer.Common.{
  ℕ, String, Bool, true, false, Option, none, some, List, [], ◌∷◌, ◌++◌, map,
}
use spectra_gnoland_indexer.Schema.{Amount}
use spectra_gnoland_indexer.Schema.Rows.{
  Message, msg_send, msg_multi_send, msg_call, msg_add_package, msg_run, msg_auth_cr_session,
  msg_auth_rv_session, msg_auth_rv_all_sessions,
}
use spectra_gnoland_indexer.Decoder.{
  Coin, Party, StdMsg, send, multi_send, call, add_package, run, create_session, revoke_session,
  revoke_all_sessions, unregistered, Strings,
}

-- `resolver` is `GetAddress` of the address cache
pub record ConvCtx : Type 0 where
  pub tx_id : ℕ
  pub chain_name : String
  pub timestamp : ℕ
  pub resolver : String → ℕ
  pub signer_ids : List ℕ
  pub message_counter : ℕ

abbrev coins_to_amounts : List Coin → List Amount
coins_to_amounts coins = map (λ c. record { amount = c.amount; denom = c.denom }) coins

unfoldable pub type_name : StdMsg → Option String
type_name (send m) = some "bank_msg_send"
type_name (multi_send m) = some "bank_msg_multi_send"
type_name (call m) = some "vm_msg_call"
type_name (add_package m) = some "vm_msg_add_package"
type_name (run m) = some "vm_msg_run"
type_name (create_session m) = some "auth_msg_create_session"
type_name (revoke_session m) = some "auth_msg_revoke_session"
type_name (revoke_all_sessions m) = some "auth_msg_revoke_all_sessions"
type_name (unregistered t) = none

unfoldable pub addresses : StdMsg → List String
addresses (send m) = m.from_address ∷ m.to_address ∷ []
addresses (multi_send m) = map (λ p. p.address) m.inputs ++ map (λ p. p.address) m.outputs
addresses (call m) = m.caller ∷ []
addresses (add_package m) = m.creator ∷ []
addresses (run m) = m.caller ∷ []
addresses (create_session m) = m.creator ∷ m.session_key ∷ []
addresses (revoke_session m) = m.creator ∷ m.session_key ∷ []
addresses (revoke_all_sessions m) = m.creator ∷ []
addresses (unregistered t) = []

module _ (strings : Strings) where
  open strings use {sanitize_utf8, join}

  abbrev sanitize_utf8_slice : List String → List String
  sanitize_utf8_slice strs = map sanitize_utf8 strs

  abbrev pub party_row : ConvCtx → Bool → Party → Message
  party_row c direction p = msg_multi_send (record {
    tx_id = c.tx_id;
    timestamp = c.timestamp;
    chain_name = c.chain_name;
    direction = direction;
    address_id = c.resolver p.address;
    coins = coins_to_amounts p.coins;
    signers = c.signer_ids;
    message_counter = c.message_counter;
  })

  -- the rows of a message with a codec; no codec fails
  unfoldable pub convert : StdMsg → ConvCtx → List Message
  convert (send m) c =
      msg_send (record {
        tx_id = c.tx_id;
        timestamp = c.timestamp;
        chain_name = c.chain_name;
        from_address = c.resolver m.from_address;
        to_address = c.resolver m.to_address;
        amount = coins_to_amounts m.amount;
        signers = c.signer_ids;
        message_counter = c.message_counter;
      })
      ∷ []
  convert (multi_send m) c = map (party_row c false) m.inputs ++ map (party_row c true) m.outputs
  convert (call m) c =
      msg_call (record {
        tx_id = c.tx_id;
        timestamp = c.timestamp;
        chain_name = c.chain_name;
        caller = c.resolver m.caller;
        send = coins_to_amounts m.send;
        pkg_path = sanitize_utf8 m.pkg_path;
        func_name = sanitize_utf8 m.func;
        args = sanitize_utf8 (join m.args ",");
        max_deposit = coins_to_amounts m.max_deposit;
        signers = c.signer_ids;
        message_counter = c.message_counter;
      })
      ∷ []
  convert (add_package m) c =
      msg_add_package (record {
        tx_id = c.tx_id;
        timestamp = c.timestamp;
        chain_name = c.chain_name;
        creator = c.resolver m.creator;
        pkg_path = sanitize_utf8 m.mem_package.path;
        pkg_name = sanitize_utf8 m.mem_package.name;
        pkg_file_names = sanitize_utf8_slice m.mem_package.file_names;
        send = coins_to_amounts m.send;
        max_deposit = coins_to_amounts m.max_deposit;
        signers = c.signer_ids;
        message_counter = c.message_counter;
      })
      ∷ []
  convert (run m) c =
      msg_run (record {
        tx_id = c.tx_id;
        timestamp = c.timestamp;
        chain_name = c.chain_name;
        caller = c.resolver m.caller;
        pkg_path = sanitize_utf8 m.mem_package.path;
        pkg_name = sanitize_utf8 m.mem_package.name;
        pkg_file_names = sanitize_utf8_slice m.mem_package.file_names;
        send = coins_to_amounts m.send;
        max_deposit = coins_to_amounts m.max_deposit;
        signers = c.signer_ids;
        message_counter = c.message_counter;
      })
      ∷ []
  convert (create_session m) c =
      msg_auth_cr_session (record {
        tx_id = c.tx_id;
        timestamp = c.timestamp;
        chain_name = c.chain_name;
        creator = c.resolver m.creator;
        session_key = c.resolver m.session_key;
        expires_at = m.expires_at;
        spend_limit = coins_to_amounts m.spend_limit;
        allow_paths = m.allow_paths;
        spend_period = m.spend_period;
        signers = c.signer_ids;
        message_counter = c.message_counter;
      })
      ∷ []
  convert (revoke_session m) c =
      msg_auth_rv_session (record {
        tx_id = c.tx_id;
        timestamp = c.timestamp;
        chain_name = c.chain_name;
        creator = c.resolver m.creator;
        session_key = c.resolver m.session_key;
        signers = c.signer_ids;
        message_counter = c.message_counter;
      })
      ∷ []
  convert (revoke_all_sessions m) c =
      msg_auth_rv_all_sessions (record {
        tx_id = c.tx_id;
        timestamp = c.timestamp;
        chain_name = c.chain_name;
        creator = c.resolver m.creator;
        signers = c.signer_ids;
        message_counter = c.message_counter;
      })
      ∷ []
  convert (unregistered t) c = []
