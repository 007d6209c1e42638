-- ===== src/Timescale/Types.antt =====
-- pkgs/database/types.go: the rows that the queries scan into. A hash that is taken apart is a list
-- of codes; a time is a number.
use spectra_gnoland_indexer.Common.{ℕ, String, Bool, Option, List}

pub record Amount : Type 0 where
  pub amount : String
  pub denom : String

pub record Attribute : Type 0 where
  pub key : String
  pub value : String

pub record Event : Type 0 where
  pub at_type : String
  pub type : String
  pub attributes : List Attribute
  pub pkg_path : String

pub record Transaction : Type 0 where
  pub tx_hash : List ℕ
  pub timestamp : ℕ
  pub block_height : ℕ
  pub tx_events : List Event
  pub gas_used : ℕ
  pub gas_wanted : ℕ
  pub fee : Amount
  pub msg_types : List String
  pub success : Bool
  pub error_log : Option String

pub record AddressTx : Type 0 where
  pub hash : List ℕ
  pub timestamp : ℕ
  pub msg_types : List String
  pub block_height : ℕ
  pub success : Bool
  pub error_log : Option String

pub record BankSend : Type 0 where
  pub message_counter : ℕ
  pub tx_hash : List ℕ
  pub timestamp : ℕ
  pub from_address : String
  pub to_address : String
  pub amount : List Amount
  pub signers : List String

pub record BankMultiSendRow : Type 0 where
  pub message_counter : ℕ
  pub tx_hash : List ℕ
  pub timestamp : ℕ
  pub direction : Bool
  pub address : String
  pub coins : List Amount
  pub signers : List String

pub record MultiSendEntry : Type 0 where
  pub address : String
  pub coins : List Amount

pub record MsgCall : Type 0 where
  pub message_counter : ℕ
  pub tx_hash : List ℕ
  pub timestamp : ℕ
  pub caller : String
  pub send : List Amount
  pub pkg_path : String
  pub func_name : String
  pub args : String
  pub max_deposit : List Amount
  pub signers : List String

pub record MsgAddPackage : Type 0 where
  pub message_counter : ℕ
  pub tx_hash : List ℕ
  pub timestamp : ℕ
  pub creator : String
  pub pkg_path : String
  pub pkg_name : String
  pub pkg_file_names : List String
  pub send : List Amount
  pub max_deposit : List Amount
  pub signers : List String

pub record MsgRun : Type 0 where
  pub message_counter : ℕ
  pub tx_hash : List ℕ
  pub timestamp : ℕ
  pub caller : String
  pub pkg_path : String
  pub pkg_name : String
  pub pkg_file_names : List String
  pub send : List Amount
  pub max_deposit : List Amount
  pub signers : List String

pub record MsgAuthCrSession : Type 0 where
  pub message_counter : ℕ
  pub tx_hash : List ℕ
  pub timestamp : ℕ
  pub creator : String
  pub session_key : String
  pub expires_at : ℕ
  pub allow_paths : List String
  pub spend_limit : List Amount
  pub spend_period : ℕ
  pub signers : List String

pub record MsgAuthRvSession : Type 0 where
  pub message_counter : ℕ
  pub tx_hash : List ℕ
  pub timestamp : ℕ
  pub creator : String
  pub session_key : String
  pub signers : List String

pub record MsgAuthRvAllSessions : Type 0 where
  pub message_counter : ℕ
  pub tx_hash : List ℕ
  pub timestamp : ℕ
  pub creator : String
  pub signers : List String

pub record BlockData : Type 0 where
  pub hash : String
  pub height : ℕ
  pub timestamp : ℕ
  pub chain_id : String
  pub txs : List String
  pub proposer : String
  pub tx_counter : ℕ
