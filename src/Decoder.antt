-- ===== src/Decoder.antt =====
-- indexer/decoder: the messages of a transaction (types.go), their codecs (registry.go) and the
-- rows that they become (product.go). The message types of gno are read-only records of what the
-- program reads of them, each address as the string that the library makes of it; the base64 and
-- amino decoding of a transaction is a parameter, as are the UTF-8 functions of Go.
pub mod Registry
pub mod Product
pub mod Converts
pub mod Resolves
pub mod Batches
pub mod Decoding
pub mod Supported
use spectra_gnoland_indexer.Common.{ℕ, String, List}
use spectra_gnoland_indexer.Schema.{Amount}

pub record Coin : Type 0 where
  pub amount : ℕ
  pub denom : String

pub record SendMsg : Type 0 where
  pub from_address : String
  pub to_address : String
  pub amount : List Coin

pub record Party : Type 0 where
  pub address : String
  pub coins : List Coin

pub record MultiSendMsg : Type 0 where
  pub inputs : List Party
  pub outputs : List Party

pub record CallMsg : Type 0 where
  pub caller : String
  pub send : List Coin
  pub pkg_path : String
  pub func : String
  pub args : List String
  pub max_deposit : List Coin

pub record MemPackage : Type 0 where
  pub path : String
  pub name : String
  pub file_names : List String

pub record AddPackageMsg : Type 0 where
  pub creator : String
  pub mem_package : MemPackage
  pub send : List Coin
  pub max_deposit : List Coin

pub record RunMsg : Type 0 where
  pub caller : String
  pub mem_package : MemPackage
  pub send : List Coin
  pub max_deposit : List Coin

-- the expiry is kept as its seconds
pub record CreateSessionMsg : Type 0 where
  pub creator : String
  pub session_key : String
  pub expires_at : ℕ
  pub spend_limit : List Coin
  pub spend_period : ℕ
  pub allow_paths : List String

pub record RevokeSessionMsg : Type 0 where
  pub creator : String
  pub session_key : String

pub record RevokeAllSessionsMsg : Type 0 where
  pub creator : String

-- the types with a codec, and any other type by its name
pub data StdMsg : Type 0 where
  send : SendMsg → StdMsg
  multi_send : MultiSendMsg → StdMsg
  call : CallMsg → StdMsg
  add_package : AddPackageMsg → StdMsg
  run : RunMsg → StdMsg
  create_session : CreateSessionMsg → StdMsg
  revoke_session : RevokeSessionMsg → StdMsg
  revoke_all_sessions : RevokeAllSessionsMsg → StdMsg
  unregistered : String → StdMsg

pub record BasicTxData : Type 0 where
  pub tx_hash : List ℕ
  pub signers : List String
  pub memo : String
  pub fee : Amount
  pub total_msg_count : ℕ

pub record DecodedMsg : Type 0 where
  pub basic_data : BasicTxData
  pub msgs : List StdMsg

-- the functions of Go that the codecs use on strings
pub record Strings : Type 0 where
  pub sanitize_utf8 : String → String
  pub join : List String → String → String
